-- ===== src/ProcessRegistry/Protocol.antt =====
-- Processes that start, wait for one another and end, in any order.
use mathlib.Core.Path.{subst}
use k_panic.Base.{
  ℕ, ◌≡◌, ◌≢◌, inl, inr, Bool, true, false, Option, none, some, List, [], ◌∷◌, ◌++◌, arith,
  ℕ_discrete, length, Option-cases, Bool-cases,
}
use k_panic.Base.AssocMap.{lookup, insert, erase, contains}
use k_panic.ProcessRegistry.{
  ProcessRegistry, empty_registry, get_new_pid, process_start, process_exit, add_to_wait_pid_map,
  remove_from_wait_pid_map, check_wait_pid_deadlock, get_cond_to_wait, WaitResult, sleep_on,
  wait_for_pid, wait_for_any_pid, waitpid,
}
use k_panic.ProcessRegistry.Waits.{
  Waits, direct, through, IsAcyclic, insert-IsAcyclic, erase-IsAcyclic, added-IsAcyclic,
}
use k_panic.ProcessRegistry.Deadlock.{check-false}

-- The index is the process that ends, if one does; `proc` is the address of a new process.
pub data Step (r : ProcessRegistry) : Option ℕ → ProcessRegistry → Type 0 where
  starts :
      (proc : ℕ) (t : ProcessRegistry)
      → (let (pid, s) = get_new_pid r in
          add_to_wait_pid_map (process_start s pid proc) pid ≡ some t)
      → Step r none t
  waits :
      (user_break current pid status options : ℕ) (result : WaitResult) (t : ProcessRegistry)
      → waitpid user_break r current pid status options ≡ some (result, t)
      → Step r none t
  ends :
      (pid : ℕ) (t : ProcessRegistry) (woken : List ℕ)
      → remove_from_wait_pid_map (process_exit r pid).0 pid ≡ some (t, woken)
      → Step r (some pid) t

pub data Reach : ProcessRegistry → Type 0 where
  none_yet : Reach empty_registry
  after :
      {r : ProcessRegistry} {e : Option ℕ} {t : ProcessRegistry} → Reach r → Step r e t → Reach t

get_cond_to_wait-IsAcyclic :
    (r t : ProcessRegistry) (current pid : ℕ) (found : Bool)
    → current ≢ pid
    → IsAcyclic r.waits_for
    → get_cond_to_wait r current pid ≡ some (found, t)
    → IsAcyclic t.waits_for
unfolding get_cond_to_wait
get_cond_to_wait-IsAcyclic r t current pid found ne h e =
    elim (Option-cases (check_wait_pid_deadlock (length r.waits_for) r.waits_for pid current)) [
      | inl stuck ↦ absurd (ground arith)
      | inr (true, f) ↦
          let same : r.waits_for ≡ t.waits_for = ground arith in subst IsAcyclic same h
      | inr (false, f) ↦ elim (Bool-cases (contains pid r.waitpid_map)) [
        | inr gone ↦ let same : r.waits_for ≡ t.waits_for = ground arith in subst IsAcyclic same h
        | inl there ↦ elim (Option-cases (lookup current r.waits_for)) [
          | inl missing ↦ absurd (ground arith)
          | inr (l, mine) ↦
              let same : insert current (l ++ pid ∷ []) r.waits_for ≡ t.waits_for = ground arith in
              subst IsAcyclic same (
                added-IsAcyclic current pid r.waits_for l mine h ne
                  (check-false r.waits_for current (length r.waits_for) pid f))
        ]
      ]
    ]

wait_for_pid-IsAcyclic :
    (r t : ProcessRegistry) (current pid : ℕ) (result : WaitResult)
    → current ≢ pid
    → IsAcyclic r.waits_for
    → wait_for_pid r current pid ≡ some (result, t)
    → IsAcyclic t.waits_for
unfolding wait_for_pid sleep_on
wait_for_pid-IsAcyclic r t current pid result ne h e =
    elim (Option-cases (get_cond_to_wait r current pid)) [
      | inl stuck ↦ absurd (ground arith)
      | inr ((found, s), f) ↦
          let good = get_cond_to_wait-IsAcyclic r s current pid found ne h f in
          let same : s.waits_for ≡ t.waits_for = ground arith in subst IsAcyclic same good
    ]

waitpid-IsAcyclic :
    (user_break : ℕ) (r t : ProcessRegistry) (current pid status options : ℕ) (result : WaitResult)
    → IsAcyclic r.waits_for
    → waitpid user_break r current pid status options ≡ some (result, t)
    → IsAcyclic t.waits_for
unfolding waitpid wait_for_any_pid
waitpid-IsAcyclic user_break r t current pid status options result h e =
    elim (ℕ_discrete current pid) [
      | yes own ↦ let same : r.waits_for ≡ t.waits_for = ground arith in subst IsAcyclic same h
      | no other ↦ ground (arith, wait_for_pid-IsAcyclic r t current pid result other h)
    ]

Step-IsAcyclic :
    {r : ProcessRegistry} {ended : Option ℕ} {t : ProcessRegistry}
    → Step r ended t
    → IsAcyclic r.waits_for
    → IsAcyclic t.waits_for
unfolding get_new_pid process_start add_to_wait_pid_map process_exit remove_from_wait_pid_map
Step-IsAcyclic {r} (starts proc t e) h =
    let same : insert r.pid_counter [] r.waits_for ≡ t.waits_for = ground arith in
    subst IsAcyclic same (insert-IsAcyclic r.pid_counter r.waits_for h)
Step-IsAcyclic {r} (waits user_break current pid status options result t e) h =
    waitpid-IsAcyclic user_break r t current pid status options result h e
Step-IsAcyclic {r} (ends pid t woken e) h =
    let same : erase pid r.waits_for ≡ t.waits_for = ground arith in
    subst IsAcyclic same (erase-IsAcyclic pid r.waits_for h)

nobody : {p q : ℕ} → Waits [] p q → ⊥
unfolding lookup
nobody (direct w) = absurd (ground (arith, w.found))
nobody (through w u) = nobody u

-- Processes never wait in a circle: after any sequence of starts, ends and calls of waitpid with
-- any arguments, no process waits for itself, directly or through others.
pub Reach-IsAcyclic : (r : ProcessRegistry) → Reach r → IsAcyclic r.waits_for
Reach-IsAcyclic r none_yet = λ p w. nobody w
Reach-IsAcyclic t (after run step) = Step-IsAcyclic step (Reach-IsAcyclic _ run)
