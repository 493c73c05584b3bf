-- ===== src/UserProcess/Join.antt =====
-- What `pthread_join` and `pthread_exit` give one another: `joinThread` and `exitThread`.
use k_panic.Base.{ℕ, ◌==◌, ◌≡◌, ◌≢◌, true, false, Option, none, some, [], ◌∷◌, if◌then◌else◌, arith}
use k_panic.Base.AssocMap.{AssocMap, lookup, insert, erase, contains, lookup-erase, lookup-insert}
use k_panic.UserProcess.{
  ThreadState, to_be_destroyed, Thread, Process, joined, refused, set_state, finish, signal_waiter,
  was_really_exited, join_target_invalid, join_thread, exit_thread,
}

abbrev pub with_state : ThreadState → Option Thread → Option Thread
with_state st none = none
with_state st (some t) = some (record t { state = st })

abbrev pub ended : Option Thread → Option Thread
ended none = none
ended (some t) = some (record t { exited = true; state = to_be_destroyed })

pub lookup-set_state :
    (k j : ℕ) (st : ThreadState) (ts : AssocMap Thread)
    → lookup j (set_state k st ts) ≡ (if k == j then with_state st (lookup j ts) else lookup j ts)
unfolding lookup set_state
lookup-set_state k j st [] = ground arith
lookup-set_state k j st ((i, t) ∷ ts) = ground (arith, lookup-set_state k j st ts)

pub lookup-finish :
    (k j : ℕ) (ts : AssocMap Thread)
    → lookup j (finish k ts) ≡ (if k == j then ended (lookup j ts) else lookup j ts)
unfolding lookup finish
lookup-finish k j [] = ground arith
lookup-finish k j ((i, t) ∷ ts) = ground (arith, lookup-finish k j ts)

-- After `exitThread` the thread counts as ended for `joinThread`.
pub exit_thread-join_target_invalid :
    (p : Process) (tid v : ℕ)
    → contains tid p.ret_values ≡ false
    → was_really_exited p tid ≡ false
    → join_target_invalid (exit_thread p tid v) tid ≡ true
unfolding exit_thread join_target_invalid was_really_exited
exit_thread-join_target_invalid p tid v h k =
    ground (arith, lookup-finish tid tid (signal_waiter p tid))

pub ret_values-exit_thread :
    (p : Process) (tid v : ℕ)
    → contains tid p.ret_values ≡ false
    → was_really_exited p tid ≡ false
    → (exit_thread p tid v).ret_values ≡ insert tid v p.ret_values
unfolding exit_thread
ret_values-exit_thread p tid v h k = rw (h, k)

-- `joinThread` on a thread whose value is there takes the value away.
pub join_thread_joined :
    (p : Process) (caller tid v : ℕ)
    → caller ≢ tid
    → lookup tid p.ret_values ≡ some v
    → join_thread p caller tid ≡ some (joined v, record p { ret_values = erase tid p.ret_values })
unfolding join_thread
join_thread_joined p caller tid v ne e = ground arith

-- `joinThread` refuses a thread that has ended and whose value is gone.
pub join_thread_refused :
    (p : Process) (caller tid : ℕ)
    → lookup tid p.ret_values ≡ none
    → join_target_invalid p tid ≡ true
    → join_thread p caller tid ≡ some (refused, p)
unfolding join_thread
join_thread_refused p caller tid e k = ground arith

-- A return value is handed out exactly once: when a thread that has not ended exits with `v`, the
-- first other thread that joins it gets `v`, and every later join of it is refused and changes
-- nothing.
pub join-exit :
    (p : Process) (tid v caller late : ℕ)
    → contains tid p.ret_values ≡ false
    → was_really_exited p tid ≡ false
    → caller ≢ tid
    → let q = exit_thread p tid v in
      let r = record q { ret_values = erase tid q.ret_values } in
      (join_thread q caller tid ≡ some (joined v, r)) × (join_thread r late tid ≡ some (refused, r))
join-exit p tid v caller late h k ne = (
  join_thread_joined q caller tid v ne (
      rw (ret_values-exit_thread p tid v h k)
        (ground (arith, lookup-insert tid tid v p.ret_values))),
  join_thread_refused r late tid (ground (arith, lookup-erase tid tid q.ret_values))
      (unfold join_target_invalid in exit_thread-join_target_invalid p tid v h k),
)
  where
    q : Process
    q = exit_thread p tid v

    r : Process
    r = record q { ret_values = erase tid q.ret_values }
