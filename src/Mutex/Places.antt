-- ===== src/Mutex/Places.antt =====
-- The places of the threads, where one thread moves.
use mathlib.Core.Path.{subst}
use k_panic.Base.{ℕ, ◌≡◌, ◌≢◌, sym, some, arith, ℕ_discrete}
use k_panic.Mutex.{Place, put_at}

pub at_same : (places : ℕ → Place) (t : ℕ) (p : Place) → put_at places t p t ≡ p
at_same places t p = ground arith

pub at_other : (places : ℕ → Place) (t u : ℕ) (p : Place) → t ≢ u → put_at places t p u ≡ places u
at_other places t u p other = ground arith

pub some_inj : {A : Type 0} {a b : A} → some a ≡ some b → a ≡ b
some_inj e = cc

-- A property of all places, where one thread moves.
pub moves :
    (P : ℕ → Place → Type 0) (places : ℕ → Place) (t : ℕ) (p : Place)
    → P t p
    → ((u : ℕ) → t ≢ u → P u (places u))
    → (u : ℕ) → P u (put_at places t p u)
moves P places t p here others u = elim (ℕ_discrete t u) [
  | yes same ↦
      subst (λ v. P v (put_at places t p v)) same (subst (P t) (sym (at_same places t p)) here)
  | no other ↦ subst (P u) (sym (at_other places t u p other)) (others u other)
]
