-- ===== src/MinixFsZone.antt =====
-- The zones of a file: common/source/fs/minixfs/MinixFSZone.cpp, in memory. An array is a function
-- from its index; `allocate` is allocateZone of the superblock `S`. `none` is a failed assertion, a
-- null pointer that is used, or an index behind the end of an array.
pub mod Tables
pub mod Lookup
pub mod Append
pub mod Freed
pub mod Free
mod Tests
use k_panic.Base.{
  ℕ, zero, suc, ◌+◌, ◌-◌, ◌*◌, ◌/◌, ◌%◌, ◌^◌, ◌==◌, Bool, true, false, not, ◌&&◌, Option, none,
  some, List, [], ◌∷◌, ◌++◌, ltb, leb, if◌then◌else◌,
}

-- NUM_ZONE_ADDRESSES, by the version of the file system.
abbrev pub num_zone_addresses : Bool → ℕ
num_zone_addresses v3 = if v3 then 256 else 512

-- The double indirect zones are the inner tables and the zones that these are kept in.
pub record Zones : Type 0 where
  pub direct : ℕ → ℕ
  pub indirect : Option (ℕ → ℕ)
  pub double_indirect : Option (ℕ → Option (ℕ → ℕ))
  pub linking : ℕ → ℕ
  pub num_zones : ℕ

abbrev pub update {ℓ} : {A : Type ℓ} → (ℕ → A) → ℕ → A → ℕ → A
update f i v j = if i == j then v else f j

abbrev pub no_zones : Zones
no_zones = record {
  direct = λ i. 0;
  indirect = none;
  double_indirect = none;
  linking = λ i. 0;
  num_zones = 0;
}

-- The three ranges of `getZone` behind its assertion.
pub zone_at : Bool → Zones → ℕ → Option ℕ
zone_at v3 z index =
    let n = num_zone_addresses v3 in
    let single = index - 7 in
    let double = index - 7 - n in
    if ltb index 7
    then some (z.direct index)
    else if ltb single n
    then elim z.indirect [ none ↦ none | some f ↦ some (f single) ]
    else if ltb (double / n) n
    then elim z.double_indirect [
      | none ↦ none
      | some f ↦ elim (f (double / n)) [ none ↦ none | some g ↦ some (g (double % n)) ]
    ]
    else none

pub get_zone : Bool → Zones → ℕ → Option ℕ
unfolding zone_at
get_zone v3 z index = if ltb index z.num_zones then zone_at v3 z index else none

-- `++num_zones_`
pub count_zone : Zones → Zones
count_zone z = record z { num_zones = (z.num_zones + 1) % 2 ^ 32 }

module _ {ℓ} {S : Type ℓ} (allocate : S → ℕ × S) where
  -- `if (!indirect_zones_) …`
  pub ensure_indirect : Zones → S → Zones × S
  ensure_indirect z s = elim z.indirect [
    | some f ↦ (z, s)
    | none ↦
        let (zone, s') = allocate s in
        (record z { direct = update z.direct 7 zone; indirect = some (λ i. 0) }, s')
  ]

  -- `if (!double_indirect_zones_) …`
  pub ensure_double : Zones → S → Zones × S
  ensure_double z s = elim z.double_indirect [
    | some f ↦ (z, s)
    | none ↦
        let (zone, s') = allocate s in
        (
          record z {
            direct = update z.direct 8 zone;
            linking = λ i. 0;
            double_indirect = some (λ i. none);
          },
          s',
        )
  ]

  -- `if (!double_indirect_zones_[index / NUM_ZONE_ADDRESSES]) …`
  pub ensure_inner : Zones → S → (ℕ → Option (ℕ → ℕ)) → ℕ → Zones × S
  ensure_inner z s f row = elim (f row) [
    | some g ↦ (z, s)
    | none ↦
        let (zone, s') = allocate s in
        (
          record z {
            linking = update z.linking row zone;
            double_indirect = some (update f row (some (λ i. 0)));
          },
          s',
        )
  ]

  pub store_inner : Zones → ℕ → ℕ → ℕ → Option Zones
  store_inner z row column zone = elim z.double_indirect [
    | none ↦ none
    | some f ↦ elim (f row) [
      | none ↦ none
      | some g ↦
          some (record z { double_indirect = some (update f row (some (update g column zone))) })
    ]
  ]

  -- The last part of `setZone`.
  pub set_double : Zones → S → ℕ → ℕ → ℕ → Option (Zones × S)
  unfolding ensure_double ensure_inner store_inner count_zone
  set_double z s row column zone =
      let (z1, s1) = ensure_double z s in
      elim z1.double_indirect [
        | none ↦ none
        | some f ↦
            let (z2, s2) = ensure_inner z1 s1 f row in
            elim (store_inner z2 row column zone) [
              | none ↦ none
              | some z3 ↦ some (count_zone z3, s2)
            ]
      ]

  pub set_single : Zones → S → ℕ → ℕ → Option (Zones × S)
  unfolding ensure_indirect count_zone
  set_single z s single zone =
      let (z1, s1) = ensure_indirect z s in
      elim z1.indirect [
        | none ↦ none
        | some f ↦ some (count_zone (record z1 { indirect = some (update f single zone) }), s1)
      ]

  pub set_zone : Bool → Zones → S → ℕ → ℕ → Option (Zones × S)
  unfolding set_single set_double count_zone
  set_zone v3 z s index zone =
      let n = num_zone_addresses v3 in
      let single = index - 7 in
      let double = index - 7 - n in
      if ltb index 7
      then some (count_zone (record z { direct = update z.direct index zone }), s)
      else if ltb single n
      then set_single z s single zone
      else if ltb (double / n) n
      then set_double z s (double / n) (double % n) zone
      else none

  pub add_zone : Bool → Zones → S → ℕ → Option (Zones × S)
  unfolding set_zone
  add_zone v3 z s zone = set_zone v3 z s z.num_zones zone

-- NUM_ZONES
abbrev pub num_direct : Bool → ℕ
num_direct v3 = if v3 then 10 else 9

-- `for (i = from; rounds--; i++) if (zones[i]) superblock_->freeZone(zones[i]);`: what is freed.
pub used_zones : ℕ → ℕ → (ℕ → ℕ) → List ℕ
used_zones zero from f = []
used_zones (suc n) from f =
    let rest = used_zones n (from + 1) f in if f from == 0 then rest else f from ∷ rest

-- The two loops over the double indirect zones.
pub used_rows : ℕ → ℕ → ℕ → (ℕ → Option (ℕ → ℕ)) → List ℕ
unfolding used_zones
used_rows zero from n f = []
used_rows (suc k) from n f =
    let row : List ℕ = elim (f from) [ none ↦ [] | some g ↦ used_zones n 0 g ] in
    row ++ used_rows k (from + 1) n f

-- The zones that `freeZones` gives to freeZone of the superblock, in order.
pub free_zones : Bool → Zones → List ℕ
unfolding used_zones used_rows
free_zones v3 z =
    let n = num_zone_addresses v3 in
    used_zones (num_direct v3) 0 z.direct ++ elim z.indirect [
      | none ↦ []
      | some f ↦ used_zones n 0 f ++ elim z.double_indirect [
        | none ↦ []
        | some d ↦ used_zones n 0 z.linking ++ used_rows n 0 n d
      ]
    ]
