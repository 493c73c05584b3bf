-- ===== src/MinixFsZone/Append.antt =====
-- A file as the list of its zones: what `addZone` and `getZone` promise.
use mathlib.Core.Path.{subst}
use k_panic.Base.{
  ℕ, zero, suc, ◌+◌, ◌^◌, ◌<◌, ◌≤◌, ◌≡◌, ◌≢◌, ◌⊎◌, inl, inr, refl, sym, ap, ◌∙◌, Bool, true, false,
  Option, none, some, List, [], ◌∷◌, ◌++◌, arith, length, length-append, get_elem?, append_assoc,
  append-nil, dec_lt,
}
use k_panic.MinixFsZone.{Zones, no_zones, zone_at, get_zone, add_zone}
use k_panic.MinixFsZone.Lookup.{max_zones, set_zone_lem}

-- The zones of the file are those of the list, in order.
pub record Holds (v3 : Bool) (z : Zones) (l : List ℕ) : Type 0 where
  pub counted : z.num_zones ≡ length l
  pub stored : (i x : ℕ) → get_elem? l i ≡ some x → zone_at v3 z i ≡ some x

get_elem?-last :
    (l : List ℕ) (a i x : ℕ)
    → get_elem? (l ++ a ∷ []) i ≡ some x
    → (get_elem? l i ≡ some x) × (i ≢ length l) ⊎ ((i ≡ length l) × (a ≡ x))
get_elem?-last [] a zero x h = inr (refl, ground arith)
get_elem?-last [] a (suc i) x h = absurd cc
get_elem?-last (b ∷ l) a zero x h = inl (h, omega arith)
get_elem?-last (b ∷ l) a (suc i) x h = elim (get_elem?-last l a i x h) [
  | inl (old, ne) ↦ inl (old, omega arith)
  | inr (last, same) ↦ inr (omega arith, same)
]

get_elem?-below : (l : List ℕ) (i : ℕ) → i < length l → (x : ℕ) × (get_elem? l i ≡ some x)
get_elem?-below [] i h = absurd (omega arith)
get_elem?-below (a ∷ l) zero h = (a, refl)
get_elem?-below (a ∷ l) (suc i) h = get_elem?-below l i (omega arith)

get_elem?-above : (l : List ℕ) (i : ℕ) → length l ≤ i → get_elem? l i ≡ none
get_elem?-above [] i h = refl
get_elem?-above (a ∷ l) zero h = absurd (omega arith)
get_elem?-above (a ∷ l) (suc i) h = get_elem?-above l i (omega arith)

max_zones-small : (v3 : Bool) → max_zones v3 < 2 ^ 32
max_zones-small true = omega arith
max_zones-small false = omega arith

module _ {ℓ} {S : Type ℓ} (allocate : S → ℕ × S) (v3 : Bool) where
  -- The zones are added one after the other.
  unfoldable pub add_zones : Zones → S → List ℕ → Option (Zones × S)
  add_zones z s [] = some (z, s)
  add_zones z s (zone ∷ l) = elim (add_zone allocate v3 z s zone) [
    | none ↦ none
    | some (z', s') ↦ add_zones z' s' l
  ]

  add_zone-Holds :
      (z : Zones) (s : S) (l : List ℕ) (zone : ℕ)
      → Holds v3 z l
      → length l < max_zones v3
      → (z' : Zones) × (s' : S) × (add_zone allocate v3 z s zone ≡ some (z', s'))
        × Holds v3 z' (l ++ zone ∷ [])
  unfolding add_zone
  add_zone-Holds z s l zone h fits =
      let small = max_zones-small v3 in
      let (z', s', (ran, count, here, others)) =
        set_zone_lem allocate v3 z s z.num_zones zone (omega arith) in
      (
        z',
        s',
        ran,
        record {
          counted = omega (arith, length-append l (zone ∷ []));
          stored = λ i x e. elim (get_elem?-last l zone i x e) [
            | inl (old, ne) ↦ others i x (omega arith) (h.stored i x old)
            | inr (last, same) ↦
                subst (λ j. zone_at v3 z' j ≡ some x) (let e : z.num_zones ≡ i = omega arith in e)
                  (here ∙ ap some same)
          ];
        },
      )

  add_zones-Holds :
      (zs : List ℕ) (z : Zones) (s : S) (l : List ℕ)
      → Holds v3 z l
      → length l + length zs ≤ max_zones v3
      → (z' : Zones) × (s' : S) × (add_zones z s zs ≡ some (z', s')) × Holds v3 z' (l ++ zs)
  unfolding add_zones
  add_zones-Holds [] z s l h fits = (z, s, refl, subst (Holds v3 z) (sym (append-nil l)) h)
  add_zones-Holds (zone ∷ zs) z s l h fits =
      let (z1, s1, ran, h1) = add_zone-Holds z s l zone h (omega arith) in
      let (z2, s2, rest, h2) =
        add_zones-Holds zs z1 s1 (l ++ zone ∷ []) h1 (omega (arith, length-append l (zone ∷ []))) in
      (z2, s2, ground (arith, ran, rest), subst (Holds v3 z2) (append_assoc l (zone ∷ []) zs) h2)

  -- A file is the list of its zones: adding any list of zones to an empty file, as many as the
  -- direct, indirect and double indirect tables hold at most, succeeds whatever zones the tables
  -- themselves are given, and `getZone` at every index is then the element of the list there, and a
  -- failed assertion behind its end.
  pub get_zone-add_zones :
      (s : S) (zs : List ℕ)
      → length zs ≤ max_zones v3
      → (z : Zones) × (s' : S) × (add_zones no_zones s zs ≡ some (z, s'))
        × ((i : ℕ) → get_zone v3 z i ≡ get_elem? zs i)
  unfolding get_zone
  get_zone-add_zones s zs fits =
      let empty : Holds v3 no_zones [] = record {
        counted = refl;
        stored = λ i x e. absurd (ground arith);
      } in
      let (z, s', ran, h) = add_zones-Holds zs no_zones s [] empty (omega arith) in
      (
        z,
        s',
        ran,
        λ i. elim (dec_lt i (length zs)) [
          | yes below ↦
              let (x, e) = get_elem?-below zs i below in
              let k : zone_at v3 z i ≡ some x = h.stored i x e in ground (arith, k, e, h.counted)
          | no above ↦ let e = get_elem?-above zs i (omega arith) in ground (arith, e, h.counted)
        ],
      )
