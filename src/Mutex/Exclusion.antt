-- ===== src/Mutex/Exclusion.antt =====
-- At most one thread has the mutex, turn by turn.
use mathlib.Core.Path.{subst}
use k_panic.Base.{
  ℕ, ◌≡◌, ◌≢◌, refl, sym, ap, ◌∙◌, true, false, inl, inr, none, some, arith, ℕ_discrete, Bool-cases,
  Option-cases,
}
use k_panic.Mutex.{
  Place, outside, trying, failed, listed, queueing, falling, asleep, entering, holding, releasing,
  popping, waking, MutexState, put_at, move, pop_back, wake, turn_at, turn, Reach, started, goes_on,
}
use k_panic.Mutex.Places.{at_other, some_inj}
use k_panic.Mutex.Safety.{Safe, owns, stays_Safe, takes_Safe, enters_Safe, releases_Safe}

wakes_Safe :
    (s s' : MutexState) (t w : ℕ)
    → Safe s
    → s.places t ≡ waking w
    → wake s t w (s.places w) ≡ some s'
    → Safe s'
wakes_Safe s s' t w safe here e = wakes_from (s.places w) refl e
  where
    still : s.places w ≡ asleep → owns (put_at s.places w trying t) ≡ false
    still sleeps = elim (ℕ_discrete w t) [
      | yes same ↦ absurd cc
      | no other ↦ ap owns (at_other s.places w t trying other ∙ here)
    ]

    wakes_from : (p : Place) → s.places w ≡ p → wake s t w p ≡ some s' → Safe s'
    wakes_from asleep sleeps e = subst Safe (some_inj e) (
        stays_Safe (move s w trying) _ t outside
          (stays_Safe s _ w trying safe (ap owns sleeps) refl refl refl refl) (still sleeps) refl
          refl refl refl)
    wakes_from outside sleeps e = absurd cc
    wakes_from trying sleeps e = absurd cc
    wakes_from failed sleeps e = absurd cc
    wakes_from listed sleeps e = absurd cc
    wakes_from queueing sleeps e = absurd cc
    wakes_from falling sleeps e = absurd cc
    wakes_from entering sleeps e = absurd cc
    wakes_from holding sleeps e = absurd cc
    wakes_from releasing sleeps e = absurd cc
    wakes_from popping sleeps e = absurd cc
    wakes_from (waking v) sleeps e = absurd cc

turn_at-Safe :
    (s s' : MutexState) (t : ℕ) (p : Place)
    → Safe s
    → s.places t ≡ p
    → turn_at s t p ≡ some s'
    → Safe s'
turn_at-Safe s s' t outside safe here e =
    subst Safe (some_inj e) (stays_Safe s _ t trying safe (ap owns here) refl refl refl refl)
turn_at-Safe s s' t trying safe here e = elim (Bool-cases s.mutex) [
  | inl set_already ↦
      let goes : move s t failed ≡ s' = ground arith in
      subst Safe goes (stays_Safe s _ t failed safe (ap owns here) refl refl refl refl)
  | inr free ↦
      let goes : move (record s { mutex = true }) t entering ≡ s' = ground arith in
      subst Safe goes (takes_Safe s _ t safe free refl refl refl)
]
turn_at-Safe s s' t failed safe here e = elim (Bool-cases s.waiters_list_lock) [
  | inl taken ↦ absurd (ground arith)
  | inr free ↦
      let goes : move (record s { waiters_list_lock = true }) t listed ≡ s' = ground arith in
      subst Safe goes (stays_Safe s _ t listed safe (ap owns here) refl refl refl refl)
]
turn_at-Safe s s' t listed safe here e = elim (Bool-cases s.mutex) [
  | inl set_already ↦
      let goes : move s t queueing ≡ s' = ground arith in
      subst Safe goes (stays_Safe s _ t queueing safe (ap owns here) refl refl refl refl)
  | inr free ↦
      let goes : move (record s { mutex = true; waiters_list_lock = false }) t entering ≡ s' =
        ground arith in
      subst Safe goes (takes_Safe s _ t safe free refl refl refl)
]
turn_at-Safe s s' t queueing safe here e =
    subst Safe (some_inj e) (stays_Safe s _ t falling safe (ap owns here) refl refl refl refl)
turn_at-Safe s s' t falling safe here e =
    subst Safe (some_inj e) (stays_Safe s _ t asleep safe (ap owns here) refl refl refl refl)
turn_at-Safe s s' t asleep safe here e = absurd cc
turn_at-Safe s s' t entering safe here e = elim (Option-cases s.held_by) [
  | inl nobody ↦
      let goes : move (record s { held_by = some t }) t holding ≡ s' = ground arith in
      subst Safe goes (enters_Safe s t safe here)
  | inr (u, somebody) ↦ absurd (ground arith)
]
turn_at-Safe s s' t holding safe here e =
    let mine = safe.is_holder t here in
    let goes : move (record s { held_by = none; mutex = false }) t releasing ≡ s' = ground arith in
    subst Safe goes (releases_Safe s t safe here)
turn_at-Safe s s' t releasing safe here e = elim (Bool-cases s.waiters_list_lock) [
  | inl taken ↦ absurd (ground arith)
  | inr free ↦
      let goes : move (record s { waiters_list_lock = true }) t popping ≡ s' = ground arith in
      subst Safe goes (stays_Safe s _ t popping safe (ap owns here) refl refl refl refl)
]
turn_at-Safe s s' t popping safe here e = elim (Option-cases (pop_back s.waiters_list)) [
  | inl nobody ↦
      let goes : move (record s { waiters_list_lock = false }) t outside ≡ s' = ground arith in
      subst Safe goes (stays_Safe s _ t outside safe (ap owns here) refl refl refl refl)
  | inr ((w, rest), oldest) ↦
      let goes : move (record s { waiters_list = rest; waiters_list_lock = false }) t (waking w)
          ≡ s' =
        ground arith in
      subst Safe goes (stays_Safe s _ t (waking w) safe (ap owns here) refl refl refl refl)
]
turn_at-Safe s s' t (waking w) safe here e = wakes_Safe s s' t w safe here e

-- In every state that turns lead to, in any order, at most one thread has set the flag, the flag is
-- then set, and `held_by` names the thread that holds the mutex and no other.
pub Reach-Safe : (s : MutexState) → Reach s → Safe s
unfolding turn
Reach-Safe s started = record {
  flag_set = λ t o. absurd cc;
  one_owner = λ t u o q. absurd cc;
  holder = λ t h. absurd cc;
  is_holder = λ t h. absurd cc;
}
Reach-Safe s (goes_on s0 _ t r e) = turn_at-Safe s0 s t (s0.places t) (Reach-Safe s0 r) refl e

-- The assertions that nobody holds the mutex, in `acquire`, and that the caller holds it, in `release`,
-- do not fail: a thread that has set the flag, or holds the mutex, can take its turn.
pub no_assertion_fails :
    (s : MutexState) (t : ℕ) → Reach s → owns (s.places t) ≡ true → turn s t ≢ none
unfolding turn
no_assertion_fails s t r o = cannot_fail (s.places t) refl o
  where
    safe : Safe s
    safe = Reach-Safe s r

    cannot_fail : (p : Place) → s.places t ≡ p → owns p ≡ true → turn_at s t p ≢ none
    cannot_fail entering here o' e = elim (Option-cases s.held_by) [
      | inl nobody ↦ absurd (ground arith)
      | inr (u, somebody) ↦
          let holds_it = safe.holder u somebody in
          let same = safe.one_owner t u o (ap owns holds_it) in
          let clash : entering ≡ holding = sym here ∙ ap s.places same ∙ holds_it in absurd cc
    ]
    cannot_fail holding here o' e = let mine = safe.is_holder t here in absurd (ground arith)
    cannot_fail outside here o' e = absurd cc
    cannot_fail trying here o' e = absurd cc
    cannot_fail failed here o' e = absurd cc
    cannot_fail listed here o' e = absurd cc
    cannot_fail queueing here o' e = absurd cc
    cannot_fail falling here o' e = absurd cc
    cannot_fail asleep here o' e = absurd cc
    cannot_fail releasing here o' e = absurd cc
    cannot_fail popping here o' e = absurd cc
    cannot_fail (waking w) here o' e = absurd cc
