-- ===== src/ProcessRegistry/Deadlock.antt =====
-- What `checkWaitPidDeadlock` answers.
use mathlib.Core.Path.{subst}
use k_panic.Base.{
  ℕ, zero, suc, ◌≤◌, ◌<◌, ◌≡◌, ◌≢◌, ◌↔◌, ◌⊎◌, inl, inr, refl, sym, ap, ◌∙◌, Bool, true, false,
  Option, none, some, List, [], ◌∷◌, arith, ℕ_discrete, length, Option-cases, Bool-cases,
}
use k_panic.Base.AssocMap.{AssocMap, lookup, erase, lookup-erase, length-erase-lt}
use k_panic.ProcessRegistry.{any_deadlock, check_wait_pid_deadlock}
use k_panic.ProcessRegistry.Waits.{
  Among, WaitsFor, WaitsFor.found, WaitsFor.among, Waits, direct, through, IsAcyclic,
}

module _ (check : ℕ → Option Bool) (by : ℕ) where
  any-true :
      (l : List ℕ)
      → any_deadlock check by l ≡ some true
      → (q : ℕ) × Among q l × ((q ≡ by) ⊎ (check q ≡ some true))
  unfolding any_deadlock
  any-true [] h = absurd cc
  any-true (q ∷ l) h = elim (ℕ_discrete q by) [
    | yes same ↦ (q, inl refl, inl same)
    | no other ↦ elim (Option-cases (check q)) [
      | inl stuck ↦ absurd (ground arith)
      | inr (true, e) ↦ (q, inl refl, inr e)
      | inr (false, e) ↦ let (r, among, found) = any-true l (ground arith) in (r, inr among, found)
    ]
  ]

  any-false :
      (l : List ℕ) (q : ℕ)
      → any_deadlock check by l ≡ some false
      → Among q l
      → (q ≢ by) × (check q ≡ some false)
  unfolding any_deadlock
  any-false [] q h among = elim among [ ]
  any-false (p ∷ l) q h (inl same) = ground arith
  any-false (p ∷ l) q h (inr among) = any-false l q (ground arith) among

  any-some :
      (l : List ℕ)
      → ((q : ℕ) → Among q l → (b : Bool) × (check q ≡ some b))
      → (b : Bool) × (any_deadlock check by l ≡ some b)
  unfolding any_deadlock
  any-some [] h = (false, refl)
  any-some (q ∷ l) h = elim (ℕ_discrete q by) [
    | yes same ↦ (true, ground arith)
    | no other ↦
        let (b, e) = h q (inl refl) in
        let (rest, f) = any-some l (λ r among. h r (inr among)) in
        elim (Bool-cases b) [ inl found ↦ (true, ground arith) | inr clear ↦ (rest, ground arith) ]
  ]

module _ (m : AssocMap (List ℕ)) (by : ℕ) where
  check-true : (n pid : ℕ) → check_wait_pid_deadlock n m pid by ≡ some true → Waits m pid by
  unfolding check_wait_pid_deadlock
  check-true zero pid h = absurd cc
  check-true (suc n) pid h = elim (Option-cases (lookup pid m)) [
    | inl missing ↦ absurd (ground arith)
    | inr (l, e) ↦
        let (q, among, found) =
          any-true (λ q. check_wait_pid_deadlock n m q by) by l (ground arith) in
        let here : WaitsFor m pid q = record { list = l; found = e; among = among } in
        elim found [
          | inl same ↦ direct (subst (WaitsFor m pid) same here)
          | inr behind ↦ through here (check-true n q behind)
        ]
  ]

  pub check-false : (n pid : ℕ) → check_wait_pid_deadlock n m pid by ≡ some false → ¬ Waits m pid by
  unfolding check_wait_pid_deadlock
  check-false zero pid h w = absurd cc
  check-false (suc n) pid h (direct w) =
      (any-false (λ q. check_wait_pid_deadlock n m q by) by w.list by (ground (arith, w.found))
          w.among).0
        refl
  check-false (suc n) pid h (through {q} w u) =
      check-false n q
        (any-false (λ q. check_wait_pid_deadlock n m q by) by w.list q (ground (arith, w.found))
          w.among).1
        u

  behind : {p q r : ℕ} → WaitsFor m p q → (r ≡ q) ⊎ Waits m q r → Waits m p r
  behind {p} w (inl same) = direct (subst (WaitsFor m p) (sym same) w)
  behind w (inr u) = through w u

  -- `left` has every process that is still to be looked at.
  check-some :
      (n pid : ℕ) (left : AssocMap (List ℕ))
      → IsAcyclic m
      → ((q : ℕ) → (q ≡ pid) ⊎ Waits m pid q → (lookup q m ≢ none) × (lookup q left ≢ none))
      → length left ≤ n
      → (b : Bool) × (check_wait_pid_deadlock n m pid by ≡ some b)
  unfolding check_wait_pid_deadlock lookup
  check-some zero pid [] h all fits = absurd ((all pid (inl refl)).1 refl)
  check-some zero pid (x ∷ left) h all fits = absurd (omega arith)
  check-some (suc n) pid left h all fits = elim (Option-cases (lookup pid m)) [
    | inl missing ↦ absurd ((all pid (inl refl)).0 missing)
    | inr (l, e) ↦
        let fewer : length (erase pid left) < length left =
          length-erase-lt pid left (all pid (inl refl)).1 in
        let (b, f) =
          any-some (λ q. check_wait_pid_deadlock n m q by) by l
            (λ q among.
              let here : WaitsFor m pid q = record { list = l; found = e; among = among } in
              check-some n q (erase pid left) h
                (λ r reached.
                  let far : Waits m pid r = behind here reached in
                  let other : pid ≢ r = (λ same. h pid (subst (Waits m pid) (sym same) far)) in
                  (
                    (all r (inr far)).0,
                    ground (arith, lookup-erase pid r left, (all r (inr far)).1),
                  ))
                (omega arith)) in
        (b, ground (arith, f))
  ]

-- Every process that is waited for is there.
abbrev pub IsClosed : AssocMap (List ℕ) → Type 0
IsClosed m = (p q : ℕ) → WaitsFor m p q → lookup q m ≢ none

last_known : (m : AssocMap (List ℕ)) → IsClosed m → {p q : ℕ} → Waits m p q → lookup q m ≢ none
last_known m c {p} {q} (direct w) = c p q w
last_known m c (through w u) = last_known m c u

-- The recursion ends and its answer is right: where no process waits in a circle and every process
-- that is waited for is there, `checkWaitPidDeadlock` on a process that is there answers after no
-- more rounds than there are processes, with -1 exactly if that process waits for the one that
-- asks, directly or through others.
pub check_wait_pid_deadlock_iff :
    (m : AssocMap (List ℕ)) (pid by : ℕ)
    → IsAcyclic m
    → IsClosed m
    → lookup pid m ≢ none
    → (b : Bool) × (check_wait_pid_deadlock (length m) m pid by ≡ some b)
      × ((b ≡ true) ↔ Waits m pid by)
check_wait_pid_deadlock_iff m pid by h c known =
    let all = λ (q : ℕ) (r : (q ≡ pid) ⊎ Waits m pid q). reached_known q r in
    let (b, e) = check-some m by (length m) pid m h all (omega arith) in
    (
      b,
      e,
      (
        λ t. check-true m by (length m) pid (e ∙ ap some t),
        λ w. elim (Bool-cases b) [
          | inl t ↦ t
          | inr f ↦ absurd (check-false m by (length m) pid (e ∙ ap some f) w)
        ],
      ),
    )
  where
    reached_known : (q : ℕ) → (q ≡ pid) ⊎ Waits m pid q → (lookup q m ≢ none) × (lookup q m ≢ none)
    reached_known q (inl same) = let k = subst (λ x. lookup x m ≢ none) (sym same) known in (k, k)
    reached_known q (inr w) = let k = last_known m c w in (k, k)
