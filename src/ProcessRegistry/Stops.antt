-- ===== src/ProcessRegistry/Stops.antt =====
-- Calls of waitpid that stop the kernel.
use mathlib.Core.Path.{subst}
use k_panic.Base.{
  ℕ, zero, suc, ◌^◌, ◌<◌, ◌≡◌, ◌≢◌, inl, inr, refl, sym, ap, ◌∙◌, true, false, none, some, List, [],
  ◌∷◌, arith, length, Option-cases,
}
use k_panic.Base.AssocMap.{AssocMap, lookup, insert, erase, lookup-erase, lookup-insert}
use k_panic.ProcessRegistry.{
  ProcessRegistry, process_exit, remove_from_wait_pid_map, any_deadlock, check_wait_pid_deadlock,
  get_cond_to_wait, asleep, sleep_on, wait_for_pid, waitpid,
}

unknown_stuck :
    (n : ℕ) (m : AssocMap (List ℕ)) (pid by : ℕ)
    → lookup pid m ≡ none
    → check_wait_pid_deadlock n m pid by ≡ none
unfolding check_wait_pid_deadlock
unknown_stuck zero m pid by e = refl
unknown_stuck (suc n) m pid by e = ground (arith, e)

-- waitpid does not refuse a number that belongs to no process: with arguments that pass its tests,
-- the look at what that process waits for is a failed assertion, which stops the kernel.
pub waitpid_unknown :
    (user_break : ℕ) (r : ProcessRegistry) (current pid status : ℕ)
    → status < user_break
    → 0 < pid
    → pid < 2 ^ 31
    → pid ≢ current
    → lookup pid r.waits_for ≡ none
    → waitpid user_break r current pid status 0 ≡ none
unfolding waitpid wait_for_pid get_cond_to_wait
waitpid_unknown user_break r current pid status h1 h2 h3 ne e =
    ground (arith, unknown_stuck (length r.waits_for) r.waits_for pid current e)

stale_stuck :
    (n : ℕ) (m : AssocMap (List ℕ)) (parent child other : ℕ)
    → lookup parent m ≡ some (child ∷ [])
    → lookup child m ≡ none
    → child ≢ other
    → check_wait_pid_deadlock n m parent other ≡ none
unfolding check_wait_pid_deadlock any_deadlock
stale_stuck zero m parent child other e gone ne = refl
stale_stuck (suc n) m parent child other e gone ne =
    ground (arith, e, unknown_stuck n m child other gone)

condition_adds :
    (r s : ProcessRegistry) (parent child : ℕ)
    → lookup parent r.waits_for ≡ some []
    → get_cond_to_wait r parent child ≡ some (true, s)
    → s.waits_for ≡ insert parent (child ∷ []) r.waits_for
unfolding get_cond_to_wait
condition_adds r s parent child e c =
    elim (Option-cases (check_wait_pid_deadlock (length r.waits_for) r.waits_for child parent)) [
      | inl stuck ↦ absurd (ground arith)
      | inr (true, f) ↦ absurd (ground arith)
      | inr (false, f) ↦ ground (arith, e)
    ]

wait_adds :
    (r s : ProcessRegistry) (parent child : ℕ)
    → lookup parent r.waits_for ≡ some []
    → wait_for_pid r parent child ≡ some (asleep, s)
    → s.waits_for ≡ insert parent (child ∷ []) r.waits_for
unfolding wait_for_pid sleep_on
wait_adds r s parent child e slept = elim (Option-cases (get_cond_to_wait r parent child)) [
  | inl stuck ↦ absurd (ground arith)
  | inr ((false, u), f) ↦ absurd (ground arith)
  | inr ((true, u), f) ↦
      let added = condition_adds r u parent child e f in
      let same : u.waits_for ≡ s.waits_for = ground arith in sym same ∙ added
]

end_erases :
    (s t : ProcessRegistry) (child : ℕ) (woken : List ℕ)
    → remove_from_wait_pid_map (process_exit s child).0 child ≡ some (t, woken)
    → t.waits_for ≡ erase child s.waits_for
unfolding remove_from_wait_pid_map process_exit
end_erases s t child woken e = ground arith

-- What a process has waited for stays in its list when that is gone: if a process that has not
-- waited before waits for another, and that one ends, then a third process that waits for the first
-- stops the kernel.
pub wait_after_end :
    (r s t : ProcessRegistry) (parent child other : ℕ) (woken : List ℕ)
    → lookup parent r.waits_for ≡ some []
    → parent ≢ child
    → child ≢ other
    → wait_for_pid r parent child ≡ some (asleep, s)
    → remove_from_wait_pid_map (process_exit s child).0 child ≡ some (t, woken)
    → wait_for_pid t other parent ≡ none
unfolding wait_for_pid get_cond_to_wait
wait_after_end r s t parent child other woken e ne ne2 slept ended =
    let now : t.waits_for ≡ erase child (insert parent (child ∷ []) r.waits_for) =
      end_erases s t child woken ended ∙ ap (erase child) (wait_adds r s parent child e slept) in
    let m = insert parent (child ∷ []) r.waits_for in
    let kept : lookup parent t.waits_for ≡ some (child ∷ []) =
      ap (lookup parent) now
      ∙ ground (
        arith,
        lookup-erase child parent m,
        lookup-insert parent parent (child ∷ []) r.waits_for,
      ) in
    let gone : lookup child t.waits_for ≡ none =
      ap (lookup child) now ∙ ground (arith, lookup-erase child child m) in
    ground (arith, stale_stuck (length t.waits_for) t.waits_for parent child other kept gone ne2)

-- The lock is given back between the look for the condition and the sleep on it: if the process ends
-- in between, its condition is gone when the sleeper uses it.
pub sleep_on_deleted :
    (r s t : ProcessRegistry) (current pid : ℕ) (woken : List ℕ)
    → get_cond_to_wait r current pid ≡ some (true, s)
    → remove_from_wait_pid_map (process_exit s pid).0 pid ≡ some (t, woken)
    → sleep_on t current pid ≡ none
unfolding sleep_on remove_from_wait_pid_map process_exit
sleep_on_deleted r s t current pid woken e ended = elim (Option-cases (lookup pid s.waitpid_map)) [
  | inl gone ↦ absurd (ground arith)
  | inr (l, there) ↦
      let same : erase pid s.waitpid_map ≡ t.waitpid_map = ground arith in
      let gone : lookup pid t.waitpid_map ≡ none =
        subst (λ m. lookup pid m ≡ none) same
          (ground (arith, lookup-erase pid pid s.waitpid_map)) in
      ground (arith, gone)
]
