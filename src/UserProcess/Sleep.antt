-- ===== src/UserProcess/Sleep.antt =====
-- When a join sleeps, in whatever state the threads of a process have come to.
use k_panic.Base.{
  ℕ, ◌≡◌, ◌∙◌, ap, ◌≢◌, ◌↔◌, Bool, true, false, none, some, arith, Option-cases, Bool-cases, inl,
  inr,
}
use k_panic.Base.AssocMap.{lookup, contains}
use k_panic.UserProcess.{
  Process, JoinResult, blocked, join_deadlock, join_wait, join_target_invalid, join_thread,
}
use k_panic.UserProcess.WaitGraph.{Chain, Acyclic, join_deadlock_iff}
use k_panic.UserProcess.Wake.{Blocked, asleep, join_thread-Blocked}
use k_panic.UserProcess.Protocol.{Reach, Reach-Acyclic}

join_wait-ne-none :
    (p : Process) (caller tid : ℕ) (b : Bool)
    → join_deadlock p.waiting_list caller tid ≡ some b
    → join_wait p caller tid ≢ none
unfolding join_wait
join_wait-ne-none p caller tid b e = ground arith

join_thread-ne-none :
    (p : Process) (caller tid : ℕ) → join_wait p caller tid ≢ none → join_thread p caller tid ≢ none
unfolding join_thread
join_thread-ne-none p caller tid h = ground arith

join_thread_blocked :
    (p : Process) (caller tid : ℕ)
    → caller ≢ tid
    → lookup tid p.ret_values ≡ none
    → join_target_invalid p tid ≡ false
    → contains tid p.waiting_list ≡ false
    → join_deadlock p.waiting_list caller tid ≡ some false
    → join_thread p caller tid ≡ some (blocked, asleep p caller tid)
unfolding join_thread join_wait
join_thread_blocked p caller tid h1 h2 h3 h4 h5 = ground arith

no-Chain :
    (p : Process) (caller tid : ℕ)
    → Acyclic p.waiting_list
    → join_deadlock p.waiting_list caller tid ≡ some false
    → ¬ Chain p.waiting_list caller tid
no-Chain p caller tid a e c =
    let (v, d, exact) = join_deadlock_iff p.waiting_list caller tid a in let t = exact.1 c in cc

no_circle :
    (p : Process) (caller tid : ℕ)
    → Acyclic p.waiting_list
    → ¬ Chain p.waiting_list caller tid
    → join_deadlock p.waiting_list caller tid ≡ some false
no_circle p caller tid a free =
    let (v, d, exact) = join_deadlock_iff p.waiting_list caller tid a in
    elim (Bool-cases v) [ inl t ↦ absurd (free (exact.0 t)) | inr f ↦ cc ]

-- `joinThread` up to its sleep, in any process whose threads have come this far: the check for a
-- circle ends, and the caller is put to sleep exactly when it is another thread than the one
-- joined, that thread is alive, has left no value and has no waiter yet, and does not wait for the
-- caller, at once or through others.
pub join_thread_blocked_iff :
    (p : Process) (caller tid : ℕ)
    → Reach p
    → (r : JoinResult) × (q : Process) × (join_thread p caller tid ≡ some (r, q))
      × ((r ≡ blocked) ↔ (
          (caller ≢ tid)
          × (lookup tid p.ret_values ≡ none)
          × (join_target_invalid p tid ≡ false)
          × (contains tid p.waiting_list ≡ false)
          × ¬ Chain p.waiting_list caller tid))
join_thread_blocked_iff p caller tid reach = elim (Option-cases (join_thread p caller tid)) [
  | inl e ↦ absurd (
      join_thread-ne-none p caller tid (total (join_deadlock_iff p.waiting_list caller tid acyclic))
        e)
  | inr (s, e) ↦ (
    s.0,
    s.1,
    e,
    (
      λ h.
          let b = sleeps s h e in
          (b.other, b.no_value, b.alive, b.alone, no-Chain p caller tid acyclic b.no_circle),
      λ (h1, h2, h3, h4, h5).
          same s e
            (join_thread_blocked p caller tid h1 h2 h3 h4 (no_circle p caller tid acyclic h5)),
    ),
  )
]
  where
    acyclic : Acyclic p.waiting_list
    acyclic = Reach-Acyclic reach

    total :
        (b : Bool) × (join_deadlock p.waiting_list caller tid ≡ some b)
          × ((b ≡ true) ↔ Chain p.waiting_list caller tid)
        → join_wait p caller tid ≢ none
    total (b, e, _) = join_wait-ne-none p caller tid b e

    sleeps :
        (s : JoinResult × Process)
        → s.0 ≡ blocked
        → join_thread p caller tid ≡ some s
        → Blocked p caller tid s.1
    sleeps (r, q) h e =
        join_thread-Blocked p caller tid (e ∙ ap (λ (x : JoinResult). some (x, q)) h)

    same :
        (s : JoinResult × Process)
        → join_thread p caller tid ≡ some s
        → join_thread p caller tid ≡ some (blocked, asleep p caller tid)
        → s.0 ≡ blocked
    same (r, q) e f = cc
