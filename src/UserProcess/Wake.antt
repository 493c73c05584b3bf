-- ===== src/UserProcess/Wake.antt =====
-- The joiner that sleeps: what wakes it, what it gets, and who can take its value first.
use k_panic.Base.{ℕ, ◌≡◌, ◌≢◌, false, none, some, arith}
use k_panic.Base.AssocMap.{
  lookup, insert, erase, contains, lookup-erase, lookup-insert, contains-insert, contains-none,
}
use k_panic.UserProcess.{
  running, sleeping, Process, joined, blocked, set_state, finish, signal_waiter, was_really_exited,
  join_target_invalid, join_deadlock, join_wait, join_thread, join_wake, exit_thread,
}
use k_panic.UserProcess.Join.{lookup-set_state, lookup-finish, join_thread_joined, with_state}

-- The process while the caller sleeps.
abbrev pub asleep : Process → ℕ → ℕ → Process
asleep p caller tid = record p {
  waiting_list = insert tid caller p.waiting_list;
  thread_list = set_state caller sleeping p.thread_list;
}

-- What `joinThread` has checked when it puts the caller to sleep.
pub record Blocked (p : Process) (caller tid : ℕ) (q : Process) : Type 0 where
  pub other : caller ≢ tid
  pub no_value : lookup tid p.ret_values ≡ none
  pub alive : join_target_invalid p tid ≡ false
  pub alone : contains tid p.waiting_list ≡ false
  pub no_circle : join_deadlock p.waiting_list caller tid ≡ some false
  pub state : q ≡ asleep p caller tid

join_wait-Blocked :
    (p : Process) (caller tid : ℕ) {q : Process}
    → join_wait p caller tid ≡ some (blocked, q)
    → (join_deadlock p.waiting_list caller tid ≡ some false) × (q ≡ asleep p caller tid)
unfolding join_wait
join_wait-Blocked p caller tid h = ground arith

pub join_thread-Blocked :
    (p : Process) (caller tid : ℕ) {q : Process}
    → join_thread p caller tid ≡ some (blocked, q)
    → Blocked p caller tid q
unfolding join_thread
join_thread-Blocked p caller tid {q} h =
    let w = join_wait-Blocked p caller tid {q = q} in
    record {
      other = ground arith;
      no_value = ground arith;
      alive = ground arith;
      alone = ground arith;
      no_circle = ground (arith, w);
      state = ground (arith, w);
    }

-- While the caller sleeps, the thread it waits for has not exited.
asleep-was_really_exited :
    (p : Process) (caller tid : ℕ)
    → join_target_invalid p tid ≡ false
    → was_really_exited (asleep p caller tid) tid ≡ false
unfolding join_target_invalid was_really_exited
asleep-was_really_exited p caller tid h =
    ground (arith, lookup-set_state caller tid sleeping p.thread_list)

-- The process when the thread waited for has exited: the sleeper is awake again.
abbrev awake : Process → ℕ → ℕ → ℕ → Process
awake p caller tid v = record (asleep p caller tid) {
  ret_values = insert tid v p.ret_values;
  thread_list = finish tid (set_state caller running (set_state caller sleeping p.thread_list));
}

signal_waiter-asleep :
    (p : Process) (caller tid : ℕ)
    → signal_waiter (asleep p caller tid) tid
      ≡ set_state caller running (set_state caller sleeping p.thread_list)
unfolding signal_waiter
signal_waiter-asleep p caller tid = ground (arith, lookup-insert tid tid caller p.waiting_list)

exit_thread-asleep :
    (p : Process) (caller tid v : ℕ) {q : Process}
    → Blocked p caller tid q
    → exit_thread q tid v ≡ awake p caller tid v
unfolding exit_thread
exit_thread-asleep p caller tid v b = rw (
  b.state,
  contains-none tid p.ret_values b.no_value,
  asleep-was_really_exited p caller tid b.alive,
  signal_waiter-asleep p caller tid,
)

join_wake-awake :
    (p : Process) (caller tid v : ℕ)
    → let r = awake p caller tid v in
      join_wake r tid
      ≡ some (
        v,
        record r { waiting_list = erase tid r.waiting_list; ret_values = erase tid r.ret_values },
      )
unfolding join_wake
join_wake-awake p caller tid v =
    ground
      (arith, contains-insert tid tid caller p.waiting_list, lookup-insert tid tid v p.ret_values)

lookup-awake :
    (p : Process) (caller tid v : ℕ)
    → caller ≢ tid
    → lookup caller (awake p caller tid v).thread_list
      ≡ with_state running (lookup caller p.thread_list)
lookup-awake p caller tid v ne = ground (
  arith,
  lookup-finish tid caller (set_state caller running (set_state caller sleeping p.thread_list)),
  lookup-set_state caller caller running (set_state caller sleeping p.thread_list),
  lookup-set_state caller caller sleeping p.thread_list,
)

-- The value of a thread that is waited for is delivered: if `joinThread` puts the caller to sleep
-- and the thread then exits with `v`, the sleeper runs again (if it is a thread of the process),
-- its `joinThread` returns `v`, and neither the value nor the entry of the wait is left behind.
pub join_wake-exit :
    (p : Process) (caller tid v : ℕ) (q : Process)
    → join_thread p caller tid ≡ some (blocked, q)
    → let r = exit_thread q tid v in
      let s = record r {
        waiting_list = erase tid r.waiting_list;
        ret_values = erase tid r.ret_values;
      } in
      (join_wake r tid ≡ some (v, s))
      × (lookup caller r.thread_list ≡ with_state running (lookup caller p.thread_list))
      × (lookup tid s.ret_values ≡ none)
      × (lookup tid s.waiting_list ≡ none)
join_wake-exit p caller tid v q h =
    let b = join_thread-Blocked p caller tid h in
    rw (exit_thread-asleep p caller tid v b) (
      join_wake-awake p caller tid v,
      lookup-awake p caller tid v b.other,
      ground (arith, lookup-erase tid tid (insert tid v p.ret_values)),
      ground (arith, lookup-erase tid tid (insert tid caller p.waiting_list)),
    )

-- The value can be taken by another: if a third thread joins the exited thread before the sleeper
-- has run, that join gets the value, and the sleeper's `joinThread` fails its assertion
-- that a value is there.
pub join_wake_race :
    (p : Process) (caller tid v third : ℕ) (q : Process)
    → join_thread p caller tid ≡ some (blocked, q)
    → third ≢ tid
    → let r = exit_thread q tid v in
      let s = record r { ret_values = erase tid r.ret_values } in
      (join_thread r third tid ≡ some (joined v, s)) × (join_wake s tid ≡ none)
join_wake_race p caller tid v third q h ne =
    let b = join_thread-Blocked p caller tid h in
    rw (exit_thread-asleep p caller tid v b) (
      join_thread_joined (awake p caller tid v) third tid v ne
          (ground (arith, lookup-insert tid tid v p.ret_values)),
      unfold join_wake in ground (arith, lookup-erase tid tid (insert tid v p.ret_values)),
    )
