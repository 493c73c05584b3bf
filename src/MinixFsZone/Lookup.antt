-- ===== src/MinixFsZone/Lookup.antt =====
-- What `getZone` reads after `setZone`.
use k_panic.Base.{
  ℕ, ◌+◌, ◌-◌, ◌*◌, ◌/◌, ◌%◌, ◌^◌, ◌<◌, ◌≤◌, ◌≡◌, ◌≢◌, refl, Bool, true, false, none, some, ltb,
  if◌then◌else◌, arith, dec_lt,
}
use k_panic.MinixFsZone.{Zones, num_zone_addresses, update, zone_at, set_zone}
use k_panic.MinixFsZone.Tables.{double_at, single_at, StoredAt, set_double_lem, set_single_lem}

-- The largest file: as many zones as the three ranges hold.
abbrev pub max_zones : Bool → ℕ
max_zones v3 = 7 + num_zone_addresses v3 + num_zone_addresses v3 * num_zone_addresses v3

-- A row of the array and a column in it say which index it is.
row_column :
    (v3 : Bool) (i j : ℕ)
    → i / num_zone_addresses v3 ≡ j / num_zone_addresses v3
    → i % num_zone_addresses v3 ≡ j % num_zone_addresses v3
    → i ≡ j
row_column true i j = λ p q. omega arith
row_column false i j = λ p q. omega arith

row_below :
    (v3 : Bool) (i : ℕ) → let n = num_zone_addresses v3 in i < max_zones v3 → (i - 7 - n) / n < n
row_below true i = λ h. omega arith
row_below false i = λ h. omega arith

-- `zone_at` by the three ranges.
pub zone_at_lem :
    (v3 : Bool) (z : Zones) (j : ℕ)
    → let n = num_zone_addresses v3 in
      zone_at v3 z j ≡ (
        if ltb j 7
        then some (z.direct j)
        else if ltb (j - 7) n
        then single_at z.indirect (j - 7)
        else if ltb ((j - 7 - n) / n) n
        then double_at z.double_indirect ((j - 7 - n) / n) ((j - 7 - n) % n)
        else none)
unfolding zone_at
zone_at_lem v3 z j = ground arith

read_single :
    (v3 : Bool) (z z' : Zones) (index zone : ℕ)
    → 7 ≤ index
    → index - 7 < num_zone_addresses v3
    → z'.double_indirect ≡ z.double_indirect
    → ((i : ℕ) → i < 7 → z'.direct i ≡ z.direct i)
    → single_at z'.indirect (index - 7) ≡ some zone
    → ((i x : ℕ)
        → index - 7 ≢ i
        → single_at z.indirect i ≡ some x
        → single_at z'.indirect i ≡ some x)
    → (zone_at v3 z' index ≡ some zone)
      × ((j x : ℕ) → j ≢ index → zone_at v3 z j ≡ some x → zone_at v3 z' j ≡ some x)
read_single v3 z z' index zone low high double direct here others = (
  ground (arith, zone_at_lem v3 z' index, here),
  λ j x ne h. ground (arith, zone_at_lem v3 z j, zone_at_lem v3 z' j, direct j, others (j - 7) x),
)

read_double :
    (v3 : Bool) (z z' : Zones) (index zone : ℕ)
    → let n = num_zone_addresses v3 in
      7 + n ≤ index
      → (index - 7 - n) / n < n
      → z'.indirect ≡ z.indirect
      → ((i : ℕ) → i < 7 → z'.direct i ≡ z.direct i)
      → StoredAt z.double_indirect z'.double_indirect
          ((index - 7 - n) / n)
          ((index - 7 - n) % n)
          zone
      → (zone_at v3 z' index ≡ some zone)
        × ((j x : ℕ) → j ≢ index → zone_at v3 z j ≡ some x → zone_at v3 z' j ≡ some x)
read_double v3 z z' index zone low high single direct (here, others) =
    let n = num_zone_addresses v3 in
    (
      ground (arith, zone_at_lem v3 z' index, here),
      λ j x ne h. ground (
        arith,
        zone_at_lem v3 z j,
        zone_at_lem v3 z' j,
        direct j,
        row_column v3 (j - 7 - n) (index - 7 - n),
        others ((j - 7 - n) / n) ((j - 7 - n) % n) x,
      ),
    )

module _ {ℓ} {S : Type ℓ} (allocate : S → ℕ × S) where
  abbrev pub ZoneAssigned : Bool → Zones → S → ℕ → ℕ → Zones → S → Type ℓ
  ZoneAssigned v3 z s index zone z' s' =
      (set_zone allocate v3 z s index zone ≡ some (z', s'))
      × (z'.num_zones ≡ (z.num_zones + 1) % 2 ^ 32)
      × (zone_at v3 z' index ≡ some zone)
      × ((j x : ℕ) → j ≢ index → zone_at v3 z j ≡ some x → zone_at v3 z' j ≡ some x)

  set_zone_direct :
      (v3 : Bool) (z : Zones) (s : S) (index zone : ℕ)
      → index < 7
      → (z' : Zones) × (s' : S) × ZoneAssigned v3 z s index zone z' s'
  unfolding set_zone zone_at
  set_zone_direct v3 z s index zone low = (
    record z { direct = update z.direct index zone; num_zones = (z.num_zones + 1) % 2 ^ 32 },
    s,
    (ground arith, refl, ground arith, λ j x ne h. ground arith),
  )

  set_zone_single :
      (v3 : Bool) (z : Zones) (s : S) (index zone : ℕ)
      → 7 ≤ index
      → index - 7 < num_zone_addresses v3
      → (z' : Zones) × (s' : S) × ZoneAssigned v3 z s index zone z' s'
  unfolding set_zone
  set_zone_single v3 z s index zone low high =
      let (z', s', (ran, double, direct, count, here, others)) =
        set_single_lem allocate z s (index - 7) zone in
      let (now, rest) = read_single v3 z z' index zone low high double direct here others in
      (z', s', (ground (arith, ran), count, now, rest))

  set_zone_double :
      (v3 : Bool) (z : Zones) (s : S) (index zone : ℕ)
      → let n = num_zone_addresses v3 in
        7 + n ≤ index
        → (index - 7 - n) / n < n
        → (z' : Zones) × (s' : S) × ZoneAssigned v3 z s index zone z' s'
  unfolding set_zone
  set_zone_double v3 z s index zone low high =
      let n = num_zone_addresses v3 in
      let (z', s', (ran, single, direct, count, written)) =
        set_double_lem allocate z s ((index - 7 - n) / n) ((index - 7 - n) % n) zone in
      let (now, rest) = read_double v3 z z' index zone low high single direct written in
      (z', s', (ground (arith, ran), count, now, rest))

  -- Below the largest size, `setZone` succeeds, allocating what tables it needs; `getZone` then
  -- finds the zone at its index and at every other index what it found before.
  pub set_zone_lem :
      (v3 : Bool) (z : Zones) (s : S) (index zone : ℕ)
      → index < max_zones v3
      → (z' : Zones) × (s' : S) × ZoneAssigned v3 z s index zone z' s'
  set_zone_lem v3 z s index zone fits = elim (dec_lt index 7) [
    | yes low ↦ set_zone_direct v3 z s index zone low
    | no high ↦ elim (dec_lt (index - 7) (num_zone_addresses v3)) [
      | yes single ↦ set_zone_single v3 z s index zone (omega arith) single
      | no double ↦ set_zone_double v3 z s index zone (omega arith) (row_below v3 index fits)
    ]
  ]
