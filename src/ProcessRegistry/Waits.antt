-- ===== src/ProcessRegistry/Waits.antt =====
-- Who waits for whom, over any number of processes.
use mathlib.Core.Path.{subst}
use k_panic.Base.{
  ℕ, ◌≡◌, ◌≢◌, ◌⊎◌, inl, inr, some, List, [], ◌∷◌, ◌++◌, arith, ℕ_discrete, sym, ◌∙◌,
}
use k_panic.Base.AssocMap.{AssocMap, lookup, insert, erase, lookup-insert, lookup-erase}

abbrev pub Among : ℕ → List ℕ → Type 0
Among q [] = ⊥
Among q (a ∷ l) = (a ≡ q) ⊎ Among q l

pub record WaitsFor (m : AssocMap (List ℕ)) (p q : ℕ) : Type 0 where
  pub list : List ℕ
  pub found : lookup p m ≡ some list
  pub among : Among q list

-- `p` waits for `r`, directly or through others.
pub data Waits (m : AssocMap (List ℕ)) : ℕ → ℕ → Type 0 where
  direct : {p q : ℕ} → WaitsFor m p q → Waits m p q
  through : {p q r : ℕ} → WaitsFor m p q → Waits m q r → Waits m p r

abbrev pub IsAcyclic : AssocMap (List ℕ) → Type 0
IsAcyclic m = (p : ℕ) → ¬ Waits m p p

pub trans : {m : AssocMap (List ℕ)} {p q r : ℕ} → Waits m p q → Waits m q r → Waits m p r
trans (direct w) v = through w v
trans (through w u) v = through w (trans u v)

-- Waits that one map has and another has too.
pub Waits-map :
    {m m' : AssocMap (List ℕ)}
    → ((p q : ℕ) → WaitsFor m p q → WaitsFor m' p q)
    → {p q : ℕ} → Waits m p q
    → Waits m' p q
Waits-map f (direct w) = direct (f _ _ w)
Waits-map f (through w u) = through (f _ _ w) (Waits-map f u)

Among-last : (q a : ℕ) (l : List ℕ) → Among q (l ++ a ∷ []) → Among q l ⊎ (q ≡ a)
Among-last q a [] (inl e) = inr (ground arith)
Among-last q a [] (inr h) = elim h [ ]
Among-last q a (b ∷ l) (inl e) = inl (inl e)
Among-last q a (b ∷ l) (inr h) = elim (Among-last q a l h) [ inl k ↦ inl (inr k) | inr k ↦ inr k ]

-- Where a process has an empty list, the other processes wait as they did.
insert-WaitsFor :
    (pid : ℕ) (m : AssocMap (List ℕ)) (p q : ℕ) → WaitsFor (insert pid [] m) p q → WaitsFor m p q
insert-WaitsFor pid m p q v = elim (ℕ_discrete pid p) [
  | yes same ↦
      let nothing : v.list ≡ [] = ground (arith, lookup-insert pid p [] m, v.found) in
      absurd (subst (Among q) nothing v.among)
  | no other ↦ record {
    list = v.list;
    found = ground (arith, lookup-insert pid p [] m, v.found);
    among = v.among;
  }
]

erase-WaitsFor :
    (pid : ℕ) (m : AssocMap (List ℕ)) (p q : ℕ) → WaitsFor (erase pid m) p q → WaitsFor m p q
erase-WaitsFor pid m p q v = record {
  list = v.list;
  found = ground (arith, lookup-erase pid p m, v.found);
  among = v.among;
}

pub insert-IsAcyclic : (pid : ℕ) (m : AssocMap (List ℕ)) → IsAcyclic m → IsAcyclic (insert pid [] m)
insert-IsAcyclic pid m h p w = h p (Waits-map (insert-WaitsFor pid m) w)

pub erase-IsAcyclic : (pid : ℕ) (m : AssocMap (List ℕ)) → IsAcyclic m → IsAcyclic (erase pid m)
erase-IsAcyclic pid m h p w = h p (Waits-map (erase-WaitsFor pid m) w)

-- One more process that `current` waits for.
module _ (current pid : ℕ) (m : AssocMap (List ℕ)) (l : List ℕ)
    (mine : lookup current m ≡ some l) where
  added-WaitsFor :
      (p q : ℕ)
      → WaitsFor (insert current (l ++ pid ∷ []) m) p q
      → WaitsFor m p q ⊎ ((p ≡ current) × (q ≡ pid))
  added-WaitsFor p q v = elim (ℕ_discrete current p) [
    | yes same ↦
        let whole : v.list ≡ l ++ pid ∷ [] =
          ground (arith, lookup-insert current p (l ++ pid ∷ []) m, v.found) in
        elim (Among-last q pid l (subst (Among q) whole v.among)) [
          | inl old ↦ inl (record { list = l; found = ground arith; among = old })
          | inr new ↦ inr (sym same, new)
        ]
    | no other ↦ inl (record {
      list = v.list;
      found = ground (arith, lookup-insert current p (l ++ pid ∷ []) m, v.found);
      among = v.among;
    })
  ]

  added-Waits :
      (p q : ℕ)
      → Waits (insert current (l ++ pid ∷ []) m) p q
      → Waits m p q ⊎ (((p ≡ current) ⊎ Waits m p current) × ((pid ≡ q) ⊎ Waits m pid q))
  added-Waits p q (direct w) = elim (added-WaitsFor p q w) [
    | inl old ↦ inl (direct old)
    | inr (a, b) ↦ inr (inl a, inl (sym b))
  ]
  added-Waits p q (through {q = r} w u) = elim (added-WaitsFor p r w) [
    | inl old ↦ elim (added-Waits r q u) [
      | inl rest ↦ inl (through old rest)
      | inr (inl a, b) ↦ inr (inr (direct (subst (WaitsFor m p) a old)), b)
      | inr (inr a, b) ↦ inr (inr (through old a), b)
    ]
    | inr (a, b) ↦ elim (added-Waits r q u) [
      | inl rest ↦ inr (inl a, inr (subst (λ x. Waits m x q) b rest))
      | inr (c, d) ↦ inr (inl a, d)
    ]
  ]

  pub added-IsAcyclic :
      IsAcyclic m
      → current ≢ pid
      → ¬ Waits m pid current
      → IsAcyclic (insert current (l ++ pid ∷ []) m)
  added-IsAcyclic h ne safe p w = elim (added-Waits p p w) [
    | inl old ↦ h p old
    | inr (inl a, inl b) ↦ ne (sym a ∙ sym b)
    | inr (inl a, inr b) ↦ safe (subst (Waits m pid) a b)
    | inr (inr a, inl b) ↦ safe (subst (λ x. Waits m x current) (sym b) a)
    | inr (inr a, inr b) ↦ safe (trans b a)
  ]
