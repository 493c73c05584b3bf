-- ===== src/Mutex/Safety.antt =====
-- At most one thread has the mutex.
use mathlib.Core.Path.{subst}
use k_panic.Base.{ℕ, ◌≡◌, refl, sym, ap, ◌∙◌, Bool, true, false, none, some, arith, ℕ_discrete}
use k_panic.Mutex.{Place, entering, holding, releasing, MutexState, put_at, move}
use k_panic.Mutex.Places.{at_same, at_other, moves, some_inj}

-- The thread has set the flag of the mutex.
abbrev pub owns : Place → Bool
owns entering = true
owns holding = true
owns p = false

pub record Safe (s : MutexState) : Type 0 where
  pub flag_set : (t : ℕ) → owns (s.places t) ≡ true → s.mutex ≡ true
  pub one_owner : (t u : ℕ) → owns (s.places t) ≡ true → owns (s.places u) ≡ true → t ≡ u
  pub holder : (t : ℕ) → s.held_by ≡ some t → s.places t ≡ holding
  pub is_holder : (t : ℕ) → s.places t ≡ holding → s.held_by ≡ some t

-- A thread that does not have the mutex goes on to a place where it has it not.
pub stays_Safe :
    (s s' : MutexState) (t : ℕ) (p : Place)
    → Safe s
    → owns (s.places t) ≡ false
    → owns p ≡ false
    → s'.places ≡ put_at s.places t p
    → s'.mutex ≡ s.mutex
    → s'.held_by ≡ s.held_by
    → Safe s'
stays_Safe s s' t p safe before after places flag held = record {
  flag_set = λ u o. flag ∙ safe.flag_set u (keeps u o);
  one_owner = λ u v o q. safe.one_owner u v (keeps u o) (keeps v q);
  holder = λ u h.
      let was = safe.holder u (sym held ∙ h) in
      elim (ℕ_discrete t u) [
        | yes same ↦
            let owned : owns (s.places t) ≡ true = ap (λ v. owns (s.places v)) same ∙ ap owns was in
            absurd cc
        | no other ↦ ap (λ f. f u) places ∙ at_other s.places t u p other ∙ was
      ];
  is_holder = λ u h.
      let moved : put_at s.places t p u ≡ holding = sym (ap (λ f. f u) places) ∙ h in
      elim (ℕ_discrete t u) [
        | yes same ↦
            let here : p ≡ holding =
              sym (at_same s.places t p) ∙ ap (put_at s.places t p) same ∙ moved in
            let owned = ap owns here in absurd cc
        | no other ↦ held ∙ safe.is_holder u (sym (at_other s.places t u p other) ∙ moved)
      ];
}
  where
    keeps : (u : ℕ) → owns (s'.places u) ≡ true → owns (s.places u) ≡ true
    keeps u o =
        let o' : owns (put_at s.places t p u) ≡ true = ap (λ f. owns (f u)) (sym places) ∙ o in
        elim (ℕ_discrete t u) [ yes same ↦ absurd (ground arith) | no other ↦ ground arith ]

-- A thread that finds the flag clear sets it.
pub takes_Safe :
    (s s' : MutexState) (t : ℕ)
    → Safe s
    → s.mutex ≡ false
    → s'.places ≡ put_at s.places t entering
    → s'.mutex ≡ true
    → s'.held_by ≡ s.held_by
    → Safe s'
takes_Safe s s' t safe free places flag held = record {
  flag_set = λ u o. flag;
  one_owner = λ u v o q. sym (owner u o) ∙ owner v q;
  holder = λ u h. let owned = safe.flag_set u (ap owns (safe.holder u (sym held ∙ h))) in absurd cc;
  is_holder = λ u h.
      let moved : put_at s.places t entering u ≡ holding = sym (ap (λ f. f u) places) ∙ h in
      elim (ℕ_discrete t u) [
        | yes same ↦
            let here : entering ≡ holding =
              sym (at_same s.places t entering) ∙ ap (put_at s.places t entering) same ∙ moved in
            absurd cc
        | no other ↦
            let owned =
              safe.flag_set u (ap owns (sym (at_other s.places t u entering other) ∙ moved)) in
            absurd cc
      ];
}
  where
    owner : (u : ℕ) → owns (s'.places u) ≡ true → t ≡ u
    owner u o =
        let o' : owns (put_at s.places t entering u) ≡ true =
          ap (λ f. owns (f u)) (sym places) ∙ o in
        elim (ℕ_discrete t u) [
          | yes same ↦ same
          | no other ↦
              let owned =
                safe.flag_set u (ap owns (sym (at_other s.places t u entering other)) ∙ o') in
              absurd cc
        ]

-- The thread with the flag set is alone, and writes its name.
pub enters_Safe :
    (s : MutexState) (t : ℕ)
    → Safe s
    → s.places t ≡ entering
    → Safe (move (record s { held_by = some t }) t holding)
enters_Safe s t safe here = record {
  flag_set =
      moves (λ u p. owns p ≡ true → s.mutex ≡ true) s.places t holding
        (λ _. safe.flag_set t (ap owns here)) (λ u _. safe.flag_set u);
  one_owner = λ u v o q. safe.one_owner u v (was u o) (was v q);
  holder = λ u h.
      subst (λ v. put_at s.places t holding v ≡ holding) (some_inj h) (at_same s.places t holding);
  is_holder =
      moves (λ u p. p ≡ holding → some t ≡ some u) s.places t holding (λ _. refl)
        (λ u other h. absurd (other (safe.one_owner t u (ap owns here) (ap owns h))));
}
  where
    was : (u : ℕ) → owns (put_at s.places t holding u) ≡ true → owns (s.places u) ≡ true
    was =
        moves (λ u p. owns p ≡ true → owns (s.places u) ≡ true) s.places t holding
          (λ _. ap owns here) (λ u _ o. o)

pub releases_Safe :
    (s : MutexState) (t : ℕ)
    → Safe s
    → s.places t ≡ holding
    → Safe (move (record s { held_by = none; mutex = false }) t releasing)
releases_Safe s t safe here = record {
  flag_set = λ u o. absurd (nobody u o);
  one_owner = λ u v o q. absurd (nobody u o);
  holder = λ u h. absurd cc;
  is_holder = λ u h. absurd (nobody u (ap owns h));
}
  where
    nobody : (u : ℕ) → owns (put_at s.places t releasing u) ≡ true → ⊥
    nobody =
        moves (λ u p. owns p ≡ true → ⊥) s.places t releasing (λ o. cc)
          (λ u other o. other (safe.one_owner t u (ap owns here) o))
