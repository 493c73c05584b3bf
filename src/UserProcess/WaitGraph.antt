-- ===== src/UserProcess/WaitGraph.antt =====
-- Who waits for whom: the chains of `waiting_list`, and the loop of `joinDeadlock` over them.
use k_panic.Base.{
  ℕ, zero, suc, ◌<◌, ◌≡◌, refl, sym, ◌∙◌, ◌≢◌, ◌⊎◌, inl, inr, ◌↔◌, Bool, true, false, Option, none,
  some, length, arith, Option-cases, ℕ_discrete,
}
use mathlib.Core.Path.{subst}
use k_panic.Base.AssocMap.{
  AssocMap, lookup, insert, erase, lookup-erase, lookup-insert, length-erase-lt,
}
use k_panic.UserProcess.{walk, join_deadlock}

-- `Chain m a b`: `b` waits for `a`, at once or through others.
pub data Chain (m : AssocMap ℕ) : ℕ → ℕ → Type 0 where
  direct : {a b : ℕ} → lookup a m ≡ some b → Chain m a b
  further : {a c b : ℕ} → lookup a m ≡ some c → Chain m c b → Chain m a b

abbrev pub Acyclic : AssocMap ℕ → Type 0
Acyclic m = (a : ℕ) → ¬ Chain m a a

pub Chain-trans : {m : AssocMap ℕ} {a b c : ℕ} → Chain m a b → Chain m b c → Chain m a c
Chain-trans (direct e) q = further e q
Chain-trans (further e p) q = further e (Chain-trans p q)

-- A positive answer is a chain.
walk_sound : (fuel : ℕ) (m : AssocMap ℕ) (c t : ℕ) → walk fuel m c t ≡ some true → Chain m c t
unfolding walk
walk_sound zero m c t h = cc
walk_sound (suc fuel) m c t h = elim (Option-cases (lookup c m)) [
  | inl e ↦ let h' : Path (Option Bool) (some false) (some true) = rw (e, walk) at h in cc
  | inr (w, e) ↦ elim (ℕ_discrete w t) [
    | yes q ↦ direct (rw q at e)
    | no q ↦ further e (walk_sound fuel m w t (ground arith))
  ]
]

-- A negative answer rules a chain out.
walk_complete : (fuel : ℕ) (m : AssocMap ℕ) (c t : ℕ) → walk fuel m c t ≡ some false → ¬ Chain m c t
unfolding walk
walk_complete zero m c t h p = cc
walk_complete (suc fuel) m c t h (direct e) = ground arith
walk_complete (suc fuel) m c t h (further {c = w} e p) = walk_complete fuel m w t (ground arith) p

-- Every key on the way from `c` on stands in `r`.
abbrev Covers : AssocMap ℕ → AssocMap ℕ → ℕ → Type 0
Covers r m c = (x : ℕ) → (x ≡ c) ⊎ Chain m c x → lookup x m ≢ none → lookup x r ≢ none

Covers-erase :
    (r : AssocMap ℕ) {m : AssocMap ℕ} {c w : ℕ}
    → Acyclic m
    → lookup c m ≡ some w
    → Covers r m c
    → Covers (erase c r) m w
Covers-erase r {m} {c} {w} acyclic e cov x on_way key = elim (ℕ_discrete c x) [
  | yes q ↦ absurd (acyclic c (loop q on_way))
  | no q ↦ λ gone. cov x (inr (reach on_way)) key (ground (arith, lookup-erase c x r))
]
  where
    reach : (x ≡ w) ⊎ Chain m w x → Chain m c x
    reach (inl p) = direct (rw (sym p) at e)
    reach (inr p) = further e p

    loop : c ≡ x → (x ≡ w) ⊎ Chain m w x → Chain m c c
    loop q on = subst (Chain m c) (sym q) (reach on)

-- On an acyclic list the loop meets no key twice, so as many rounds as entries are enough.
walk_total :
    (fuel : ℕ) (m r : AssocMap ℕ) (c t : ℕ)
    → Acyclic m
    → Covers r m c
    → length r < fuel
    → (b : Bool) × (walk fuel m c t ≡ some b)
unfolding walk
walk_total zero m r c t acyclic cov h = elim h [ ]
walk_total (suc fuel) m r c t acyclic cov h = elim (Option-cases (lookup c m)) [
  | inl e ↦ (false, rw (e, walk))
  | inr (w, e) ↦ elim (ℕ_discrete w t) [
    | yes q ↦ (true, ground arith)
    | no q ↦
        let (b, eq) =
          walk_total fuel m (erase c r) w t acyclic (Covers-erase r acyclic e cov)
            (omega (arith, length-erase-lt c r (cov c (inl refl) (ground arith)))) in
        (b, ground arith)
  ]
]

-- The check of `joinDeadlock` ends on an acyclic list, and answers exactly whether the thread to be
-- waited for waits, at once or through others, for the caller.
pub join_deadlock_iff :
    (m : AssocMap ℕ) (c t : ℕ)
    → Acyclic m
    → (b : Bool) × (join_deadlock m c t ≡ some b) × ((b ≡ true) ↔ Chain m c t)
unfolding join_deadlock
join_deadlock_iff m c t acyclic =
    let (b, e) = walk_total (suc (length m)) m m c t acyclic (λ x _ k. k) (omega arith) in
    (b, e, exact b e)
  where
    exact : (b : Bool) → walk (suc (length m)) m c t ≡ some b → (b ≡ true) ↔ Chain m c t
    exact true e = ((λ _. walk_sound (suc (length m)) m c t e), (λ _. refl))
    exact false e = ((λ h. cc), (λ p. absurd (walk_complete (suc (length m)) m c t e p)))

module _ (m : AssocMap ℕ) (c t : ℕ) (fresh : lookup t m ≡ none) where
  -- A chain over the list with one more entry is an old one, or goes through the entry.
  Chain-insert :
      {a b : ℕ}
      → ¬ Chain m c t
      → c ≢ t
      → Chain (insert t c m) a b
      → Chain m a b ⊎ (((a ≡ t) ⊎ Chain m a t) × ((b ≡ c) ⊎ Chain m c b))
  Chain-insert {a} {b} free ne (direct e) = elim (ℕ_discrete t a) [
    | yes q ↦ inr (inl (sym q), inl (ground (arith, lookup-insert t a c m)))
    | no q ↦ inl (direct (ground (arith, lookup-insert t a c m)))
  ]
  Chain-insert {a} {b} free ne (further {c = x} e p) = elim (ℕ_discrete t a) [
    | yes q ↦ at_entry q (ground (arith, lookup-insert t a c m)) (Chain-insert free ne p)
    | no q ↦ past (ground (arith, lookup-insert t a c m)) (Chain-insert free ne p)
  ]
    where
      at_entry :
          t ≡ a
          → x ≡ c
          → Chain m x b ⊎ (((x ≡ t) ⊎ Chain m x t) × ((b ≡ c) ⊎ Chain m c b))
          → Chain m a b ⊎ (((a ≡ t) ⊎ Chain m a t) × ((b ≡ c) ⊎ Chain m c b))
      at_entry q r (inl old) = inr (inl (sym q), inr (subst (λ z. Chain m z b) r old))
      at_entry q r (inr (inl s, _)) = absurd (ne (sym r ∙ s))
      at_entry q r (inr (inr s, _)) = absurd (free (subst (λ z. Chain m z t) r s))

      past :
          lookup a m ≡ some x
          → Chain m x b ⊎ (((x ≡ t) ⊎ Chain m x t) × ((b ≡ c) ⊎ Chain m c b))
          → Chain m a b ⊎ (((a ≡ t) ⊎ Chain m a t) × ((b ≡ c) ⊎ Chain m c b))
      past r (inl old) = inl (further r old)
      past r (inr (inl s, l)) = inr (inr (direct (rw s at r)), l)
      past r (inr (inr s, l)) = inr (inr (further r s), l)

  -- An entry that the check lets through closes no circle.
  pub Acyclic-insert : Acyclic m → ¬ Chain m c t → c ≢ t → Acyclic (insert t c m)
  Acyclic-insert acyclic free ne a p = circle (Chain-insert free ne p)
    where
      circle : Chain m a a ⊎ (((a ≡ t) ⊎ Chain m a t) × ((a ≡ c) ⊎ Chain m c a)) → ⊥
      circle (inl q) = acyclic a q
      circle (inr (inl x, inl y)) = ne (sym y ∙ x)
      circle (inr (inl x, inr y)) = free (subst (Chain m c) x y)
      circle (inr (inr x, inl y)) = free (subst (λ z. Chain m z t) y x)
      circle (inr (inr x, inr y)) = free (Chain-trans y x)

-- Taking an entry away closes none either.
Chain-erase : (k : ℕ) (m : AssocMap ℕ) {a b : ℕ} → Chain (erase k m) a b → Chain m a b
Chain-erase k m {a} (direct e) = direct (ground (arith, lookup-erase k a m))
Chain-erase k m {a} (further {c = x} e p) =
    further {c = x} (ground (arith, lookup-erase k a m)) (Chain-erase k m p)

pub Acyclic-erase : (k : ℕ) (m : AssocMap ℕ) → Acyclic m → Acyclic (erase k m)
Acyclic-erase k m acyclic a p = acyclic a (Chain-erase k m p)
