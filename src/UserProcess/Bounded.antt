-- ===== src/UserProcess/Bounded.antt =====
-- What a process knows of its threads goes by numbers below `next_tid_`.
use k_panic.Base.{
  ℕ, ◌<◌, ◌≡◌, refl, true, false, some, [], ◌∷◌, arith, inl, inr, Option-cases, ◌⊎◌, sym,
}
use mathlib.Core.Path.{subst}
use k_panic.Base.AssocMap.{
  AssocMap, lookup, erase, contains, contains-erase, contains-insert, lookup-contains,
}
use k_panic.UserProcess.{
  Thread, Process, JoinResult, ThreadState, running, sleeping, set_state, finish, signal_waiter,
  join_target_invalid, join_thread, join_wait, join_wake, exit_thread, cancel_thread,
  on_thread_destroyed,
}
use k_panic.UserProcess.Protocol.{start}

-- Whatever a process knows of a thread, the thread's number is below `next_tid_`.
pub record IsBounded (p : Process) : Type 0 where
  pub threads : (k : ℕ) → contains k p.thread_list ≡ true → k < p.next_tid
  pub stacks : (k : ℕ) → contains k p.user_stack_list ≡ true → k < p.next_tid
  pub waits : (k : ℕ) → contains k p.waiting_list ≡ true → k < p.next_tid
  pub values : (k : ℕ) → contains k p.ret_values ≡ true → k < p.next_tid

contains-set_state :
    (k j : ℕ) (st : ThreadState) (ts : AssocMap Thread)
    → contains j (set_state k st ts) ≡ contains j ts
unfolding contains set_state
contains-set_state k j st [] = refl
contains-set_state k j st ((i, t) ∷ ts) = ground (arith, contains-set_state k j st ts)

contains-finish : (k j : ℕ) (ts : AssocMap Thread) → contains j (finish k ts) ≡ contains j ts
unfolding contains finish
contains-finish k j [] = refl
contains-finish k j ((i, t) ∷ ts) = ground (arith, contains-finish k j ts)

contains-signal_waiter :
    (p : Process) (tid j : ℕ) → contains j (signal_waiter p tid) ≡ contains j p.thread_list
unfolding signal_waiter
contains-signal_waiter p tid j = elim (Option-cases (lookup tid p.waiting_list)) [
  | inl e ↦ rw (e, signal_waiter)
  | inr (w, e) ↦ rw (e, signal_waiter) (contains-set_state w j running p.thread_list)
]

pub start-IsBounded : IsBounded start
unfolding contains
start-IsBounded = record {
  threads = λ k h. cc;
  stacks = λ k h. cc;
  waits = λ k h. cc;
  values = λ k h. cc;
}

pub join_thread_cases :
    (p : Process) (caller tid : ℕ) {r : JoinResult} {q : Process}
    → join_thread p caller tid ≡ some (r, q)
    → (q ≡ p)
      ⊎ ((q ≡ record p { ret_values = erase tid p.ret_values })
          ⊎ ((join_target_invalid p tid ≡ false) × (join_wait p caller tid ≡ some (r, q))))
unfolding join_thread
join_thread_cases p caller tid h = ground arith

module _ {p : Process} (b : IsBounded p) where
  pub exit-IsBounded :
      (tid v : ℕ) → contains tid p.thread_list ≡ true → IsBounded (exit_thread p tid v)
  unfolding exit_thread
  exit-IsBounded tid v h = record {
    threads = λ k hk. ground (
      arith,
      b.threads k,
      contains-finish tid k (signal_waiter p tid),
      contains-signal_waiter p tid k,
    );
    stacks = λ k hk. ground (arith, b.stacks k);
    waits = λ k hk. ground (arith, b.waits k);
    values = λ k hk. ground (arith, b.values k, b.threads k, contains-insert tid k v p.ret_values);
  }

  wait-IsBounded :
      (caller tid : ℕ) {r : JoinResult} {q : Process}
      → contains tid p.thread_list ≡ true
      → join_wait p caller tid ≡ some (r, q)
      → IsBounded q
  unfolding join_wait
  wait-IsBounded caller tid alive h = record {
    threads =
        λ k hk. ground (arith, b.threads k, contains-set_state caller k sleeping p.thread_list);
    stacks = λ k hk. ground (arith, b.stacks k);
    waits =
        λ k hk. ground (arith, b.waits k, b.threads k, contains-insert tid k caller p.waiting_list);
    values = λ k hk. ground (arith, b.values k);
  }

  valid-contains : (tid : ℕ) → join_target_invalid p tid ≡ false → contains tid p.thread_list ≡ true
  unfolding join_target_invalid
  valid-contains tid h = elim (Option-cases (lookup tid p.thread_list)) [
    | inl e ↦ ground arith
    | inr (t, e) ↦ lookup-contains tid p.thread_list e
  ]

  take-IsBounded : (tid : ℕ) → IsBounded (record p { ret_values = erase tid p.ret_values })
  take-IsBounded tid = record {
    threads = b.threads;
    stacks = b.stacks;
    waits = b.waits;
    values = λ k hk. ground (arith, b.values k, contains-erase tid k p.ret_values);
  }

  pub join-IsBounded :
      (caller tid : ℕ) {r : JoinResult} {q : Process}
      → join_thread p caller tid ≡ some (r, q)
      → IsBounded q
  join-IsBounded caller tid {r} {q} h = elim (join_thread_cases p caller tid h) [
    | inl e ↦ subst IsBounded (sym e) b
    | inr (inl e) ↦ subst IsBounded (sym e) (take-IsBounded tid)
    | inr (inr (alive, w)) ↦ wait-IsBounded caller tid (valid-contains tid alive) w
  ]

  pub wake-IsBounded : (tid : ℕ) {v : ℕ} {q : Process} → join_wake p tid ≡ some (v, q) → IsBounded q
  unfolding join_wake
  wake-IsBounded tid h = record {
    threads = λ k hk. ground (arith, b.threads k);
    stacks = λ k hk. ground (arith, b.stacks k);
    waits = λ k hk. ground (arith, b.waits k, contains-erase tid k p.waiting_list);
    values = λ k hk. ground (arith, b.values k, contains-erase tid k p.ret_values);
  }

  pub cancel-IsBounded : (tid : ℕ) → IsBounded (cancel_thread p tid).1
  unfolding cancel_thread
  cancel-IsBounded tid = elim (Option-cases (lookup tid p.thread_list)) [
    | inl e ↦ rw (e, cancel_thread) b
    | inr (t, e) ↦ record {
      threads = λ k hk. ground (
        arith,
        e,
        b.threads k,
        lookup-contains tid p.thread_list e,
        contains-insert tid k (record t { cancel_req = true }) p.thread_list,
      );
      stacks = λ k hk. ground (arith, b.stacks k);
      waits = λ k hk. ground (arith, b.waits k);
      values = λ k hk. ground (arith, b.values k);
    }
  ]

  pub destroy-IsBounded : (tid : ℕ) → IsBounded (on_thread_destroyed p tid).0
  unfolding on_thread_destroyed
  destroy-IsBounded tid = record {
    threads = λ k hk. ground (arith, b.threads k, contains-erase tid k p.thread_list);
    stacks = λ k hk. ground (arith, b.stacks k, contains-erase tid k p.user_stack_list);
    waits = b.waits;
    values = b.values;
  }
