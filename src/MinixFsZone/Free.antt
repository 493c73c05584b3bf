-- ===== src/MinixFsZone/Free.antt =====
-- What `freeZones` gives back.
use mathlib.Core.Path.{subst}
use k_panic.Base.{
  if◌then◌else◌, ℕ, ◌-◌, ◌/◌, ◌%◌, ◌<◌, ◌≡◌, ◌≢◌, ◌↔◌, inl, inr, refl, Bool, true, false, Option,
  none, some, [], ◌++◌, arith, Option-cases, dec_lt,
}
use k_panic.MinixFsZone.{
  Zones, num_zone_addresses, num_direct, zone_at, used_zones, used_rows, free_zones,
}
use k_panic.MinixFsZone.Freed.{
  Freed, Freed-left, Freed-right, Freed-used_zones, Freed-used_rows, from_either, from_used_zones,
  from_used_rows,
}
use k_panic.MinixFsZone.Lookup.{zone_at_lem}

free_direct :
    (v3 : Bool) (z : Zones) (i : ℕ)
    → i < num_direct v3
    → z.direct i ≢ 0
    → Freed (z.direct i) (free_zones v3 z)
unfolding free_zones
free_direct v3 z i low used =
    Freed-left (z.direct i) (used_zones (num_direct v3) 0 z.direct) _
      (Freed-used_zones (num_direct v3) 0 z.direct i (omega arith) (omega arith) used)

free_single :
    (v3 : Bool) (z : Zones) (i : ℕ) (f : ℕ → ℕ)
    → z.indirect ≡ some f
    → i < num_zone_addresses v3
    → f i ≢ 0
    → Freed (f i) (free_zones v3 z)
unfolding free_zones
free_single v3 z i f e inside used = rw e (
    Freed-right (f i) (used_zones (num_direct v3) 0 z.direct) _ (
      Freed-left (f i) (used_zones (num_zone_addresses v3) 0 f) _
        (Freed-used_zones (num_zone_addresses v3) 0 f i (omega arith) (omega arith) used)))

free_linking :
    (v3 : Bool) (z : Zones) (i : ℕ) (f : ℕ → ℕ) (d : ℕ → Option (ℕ → ℕ))
    → z.indirect ≡ some f
    → z.double_indirect ≡ some d
    → i < num_zone_addresses v3
    → z.linking i ≢ 0
    → Freed (z.linking i) (free_zones v3 z)
unfolding free_zones
free_linking v3 z i f d e e2 inside used =
    let n = num_zone_addresses v3 in
    rw (e, e2)
      (Freed-right (z.linking i) (used_zones (num_direct v3) 0 z.direct) _ (
        Freed-right (z.linking i) (used_zones n 0 f) _ (
          Freed-left (z.linking i) (used_zones n 0 z.linking) _
            (Freed-used_zones n 0 z.linking i (omega arith) (omega arith) used))))

free_double :
    (v3 : Bool) (z : Zones) (row column : ℕ) (f : ℕ → ℕ) (d : ℕ → Option (ℕ → ℕ)) (g : ℕ → ℕ)
    → z.indirect ≡ some f
    → z.double_indirect ≡ some d
    → d row ≡ some g
    → row < num_zone_addresses v3
    → column < num_zone_addresses v3
    → g column ≢ 0
    → Freed (g column) (free_zones v3 z)
unfolding free_zones
free_double v3 z row column f d g e e2 e3 inside inside2 used =
    let n = num_zone_addresses v3 in
    rw (e, e2)
      (Freed-right (g column) (used_zones (num_direct v3) 0 z.direct) _ (
        Freed-right (g column) (used_zones n 0 f) _ (
          Freed-right (g column) (used_zones n 0 z.linking) _
            (Freed-used_rows n 0 n d row column g (omega arith) (omega arith) e3 inside2 used))))

column_below : (v3 : Bool) (i : ℕ) → i % num_zone_addresses v3 < num_zone_addresses v3
column_below true i = omega arith
column_below false i = omega arith

-- The places of a file that name a zone of it: all direct addresses, ten or nine of them, the last of
-- which are those of the tables, the single indirect zones, the tables of the double indirect ones, and these.
pub data Owns (v3 : Bool) (z : Zones) (x : ℕ) : Type 0 where
  in_direct : (i : ℕ) → i < (if v3 then 10 else 9) → z.direct i ≡ x → Owns v3 z x
  in_indirect :
      (f : ℕ → ℕ) (i : ℕ) → z.indirect ≡ some f → i < num_zone_addresses v3 → f i ≡ x → Owns v3 z x
  in_linking :
      (d : ℕ → Option (ℕ → ℕ)) (i : ℕ)
      → z.double_indirect ≡ some d
      → i < num_zone_addresses v3
      → z.linking i ≡ x
      → Owns v3 z x
  in_double :
      (d : ℕ → Option (ℕ → ℕ)) (row column : ℕ) (g : ℕ → ℕ)
      → z.double_indirect ≡ some d
      → row < num_zone_addresses v3
      → d row ≡ some g
      → column < num_zone_addresses v3
      → g column ≡ x
      → Owns v3 z x

Owns-Freed :
    (v3 : Bool) (z : Zones) (x : ℕ) (f : ℕ → ℕ)
    → z.indirect ≡ some f
    → x ≢ 0
    → Owns v3 z x
    → Freed x (free_zones v3 z)
Owns-Freed v3 z x f single used (in_direct i inside e) =
    subst (λ y. Freed y (free_zones v3 z)) e (free_direct v3 z i inside (ground (arith, e)))
Owns-Freed v3 z x f single used (in_indirect f' i e1 inside e) =
    subst (λ y. Freed y (free_zones v3 z)) e (free_single v3 z i f' e1 inside (ground (arith, e)))
Owns-Freed v3 z x f single used (in_linking d i e1 inside e) =
    subst (λ y. Freed y (free_zones v3 z)) e
      (free_linking v3 z i f d single e1 inside (ground (arith, e)))
Owns-Freed v3 z x f single used (in_double d row column g e1 inside e2 inside2 e) =
    subst (λ y. Freed y (free_zones v3 z)) e
      (free_double v3 z row column f d g single e1 e2 inside inside2 (ground (arith, e)))

-- Without single and double indirect zones, only direct ones are left.
only_direct :
    (v3 : Bool) (z : Zones) (x : ℕ)
    → z.indirect ≡ none
    → z.double_indirect ≡ none
    → x ≢ 0
    → Owns v3 z x
    → Freed x (free_zones v3 z)
only_direct v3 z x e1 e2 used (in_direct i inside e) =
    subst (λ y. Freed y (free_zones v3 z)) e (free_direct v3 z i inside (ground (arith, e)))
only_direct v3 z x e1 e2 used (in_indirect f i e3 inside e) = absurd (ground arith)
only_direct v3 z x e1 e2 used (in_linking d i e3 inside e) = absurd (ground arith)
only_direct v3 z x e1 e2 used (in_double d row column g e3 inside e4 inside2 e) =
    absurd (ground arith)

Owns-free_zones :
    (v3 : Bool) (z : Zones) (x : ℕ)
    → (z.indirect ≡ none → z.double_indirect ≡ none)
    → x ≢ 0
    → Owns v3 z x
    → Freed x (free_zones v3 z)
Owns-free_zones v3 z x has used o = elim (Option-cases z.indirect) [
  | inl missing ↦ only_direct v3 z x missing (has missing) used o
  | inr (f, single) ↦ Owns-Freed v3 z x f single used o
]

free_zones-single :
    (v3 : Bool) (z : Zones) (f : ℕ → ℕ)
    → z.indirect ≡ some f
    → z.double_indirect ≡ none
    → free_zones v3 z
      ≡ used_zones (num_direct v3) 0 z.direct ++ (used_zones (num_zone_addresses v3) 0 f ++ [])
unfolding free_zones
free_zones-single v3 z f e1 e2 = ground (arith, e1, e2)

module _ (v3 : Bool) (z : Zones) (x : ℕ) where
  from_direct : Freed x (used_zones (num_direct v3) 0 z.direct) → (x ≢ 0) × Owns v3 z x
  from_direct h =
      let (used, (i, inside, e)) = from_used_zones (num_direct v3) 0 z.direct x h in
      (used, in_direct i (omega (arith, inside)) e)

  from_single :
      (f : ℕ → ℕ)
      → z.indirect ≡ some f
      → Freed x (used_zones (num_zone_addresses v3) 0 f)
      → (x ≢ 0) × Owns v3 z x
  from_single f single h =
      let (used, (i, inside, e)) = from_used_zones (num_zone_addresses v3) 0 f x h in
      (used, in_indirect f i single (omega (arith, inside)) e)

  from_double :
      (d : ℕ → Option (ℕ → ℕ))
      → z.double_indirect ≡ some d
      → Freed x (
          used_zones (num_zone_addresses v3) 0 z.linking
          ++ used_rows (num_zone_addresses v3) 0 (num_zone_addresses v3) d)
      → (x ≢ 0) × Owns v3 z x
  from_double d double h =
      elim (from_either x (used_zones (num_zone_addresses v3) 0 z.linking) _ h) [
        | inl first ↦
            let (used, (i, inside, e)) =
              from_used_zones (num_zone_addresses v3) 0 z.linking x first in
            (used, in_linking d i double (omega (arith, inside)) e)
        | inr rows ↦
            let (used, (row, column, g, inside, full, inside2, e)) =
              from_used_rows (num_zone_addresses v3) 0 (num_zone_addresses v3) d x rows in
            (used, in_double d row column g double (omega (arith, inside)) full inside2 e)
      ]

  free_zones-Owns : Freed x (free_zones v3 z) → (x ≢ 0) × Owns v3 z x
  unfolding free_zones
  free_zones-Owns h =
      let m = num_zone_addresses v3 in
      let direct = used_zones (num_direct v3) 0 z.direct in
      elim (Option-cases z.indirect) [
        | inl no_single ↦
            let all : free_zones v3 z ≡ direct ++ [] = rw no_single refl in
            elim (from_either x direct [] (subst (Freed x) all h)) [
              | inl first ↦ from_direct first
              | inr later ↦ elim later [ ]
            ]
        | inr (f, single) ↦ elim (Option-cases z.double_indirect) [
          | inl no_double ↦
              let all : free_zones v3 z ≡ direct ++ (used_zones m 0 f ++ []) =
                free_zones-single v3 z f single no_double in
              elim (from_either x direct (used_zones m 0 f ++ []) (subst (Freed x) all h)) [
                | inl first ↦ from_direct first
                | inr later ↦ elim (from_either x (used_zones m 0 f) [] later) [
                  | inl first ↦ from_single f single first
                  | inr later ↦ elim later [ ]
                ]
              ]
          | inr (d, double) ↦
              let all : free_zones v3 z
                  ≡ direct
                    ++ (used_zones m 0 f ++ (used_zones m 0 z.linking ++ used_rows m 0 m d)) =
                rw (single, double) refl in
              elim (from_either x direct
                (used_zones m 0 f ++ (used_zones m 0 z.linking ++ used_rows m 0 m d))
                (subst (Freed x) all h)) [
                  | inl first ↦ from_direct first
                  | inr later ↦ elim (from_either x (used_zones m 0 f) _ later) [
                    | inl first ↦ from_single f single first
                    | inr rest ↦ from_double d double rest
                  ]
                ]
        ]
      ]

Owns-zone_at : (v3 : Bool) (z : Zones) (i x : ℕ) → zone_at v3 z i ≡ some x → Owns v3 z x
Owns-zone_at v3 z i x e =
    let n = num_zone_addresses v3 in
    let at = zone_at_lem v3 z i in
    elim (dec_lt i 7) [
      | yes low ↦ in_direct i (ground arith) (ground (arith, at, e))
      | no high ↦ elim (dec_lt (i - 7) n) [
        | yes low ↦ elim (Option-cases z.indirect) [
          | inl missing ↦ absurd (ground (arith, at, e, missing))
          | inr (f, single) ↦ in_indirect f (i - 7) single low (ground (arith, at, e, single))
        ]
        | no above ↦ elim (Option-cases z.double_indirect) [
          | inl missing ↦ absurd (ground (arith, at, e))
          | inr (d, double) ↦ elim (Option-cases (d ((i - 7 - n) / n))) [
            | inl missing ↦ absurd (ground (arith, at, e, double))
            | inr (g, full) ↦
                let same : g ((i - 7 - n) % n) ≡ x = ground (arith, at, e, double, full) in
                let inside : (i - 7 - n) / n < n = ground (arith, at, e) in
                in_double d ((i - 7 - n) / n) ((i - 7 - n) % n) g double inside full
                  (column_below v3 (i - 7 - n)) same
          ]
        ]
      ]
    ]

-- No zone of a file is lost when it is deleted, and no other zone is given back: in a file that has
-- single indirect zones if it has double indirect ones, the zones that `freeZones` gives back are
-- those but 0 that stand at a direct address, the addresses of the tables among them, in the single
-- indirect zones, among the tables of the double indirect zones or in one of these tables. Every
-- zone that `getZone` can find, at any index, stands at one of these places.
pub free_zones_lem :
    (v3 : Bool) (z : Zones) (x : ℕ)
    → (z.indirect ≡ none → z.double_indirect ≡ none)
    → (((x ≢ 0) × Owns v3 z x) ↔ Freed x (free_zones v3 z))
      × ((i : ℕ) → zone_at v3 z i ≡ some x → Owns v3 z x)
free_zones_lem v3 z x has = (
  (λ (used, o). Owns-free_zones v3 z x has used o, free_zones-Owns v3 z x),
  λ i e. Owns-zone_at v3 z i x e,
)
