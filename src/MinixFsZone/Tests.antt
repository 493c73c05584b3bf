-- ===== src/MinixFsZone/Tests.antt =====
-- A file of three zones, and the zones of a longer one.
use k_panic.Base.{
  ℕ, ◌+◌, ◌≡◌, true, some, List, [], ◌∷◌, get_elem?, arith, ◌==◌, if◌then◌else◌, ◌≢◌, ◌↔◌, none,
}
use k_panic.MinixFsZone.{Zones, no_zones, zone_at, get_zone, free_zones}
use k_panic.MinixFsZone.Freed.{Freed}
use k_panic.MinixFsZone.Free.{Owns, free_zones_lem}
use k_panic.MinixFsZone.Append.{add_zones, get_zone-add_zones}

-- Zones for the tables are handed out from 100 on.
abbrev next_zone : ℕ → ℕ × ℕ
next_zone k = (100 + k, k + 1)

abbrev ten : List ℕ
ten = 11 ∷ 12 ∷ 13 ∷ 14 ∷ 15 ∷ 16 ∷ 17 ∷ 18 ∷ 19 ∷ 20 ∷ []

get_zone-add_zones_example :
    (z : Zones) × (s' : ℕ) × (add_zones next_zone true no_zones 0 ten ≡ some (z, s'))
    × ((i : ℕ) → get_zone true z i ≡ get_elem? ten i)
get_zone-add_zones_example = get_zone-add_zones next_zone true 0 ten (omega arith)

-- A file with a zone of each kind: 30 direct, 32 single and 35 double indirect, and 31, 33 and 34
-- for the tables.
abbrev six_zones : Zones
six_zones = record {
  direct = λ i. if i == 0 then 30 else if i == 7 then 31 else if i == 8 then 33 else 0;
  indirect = some (λ i. if i == 2 then 32 else 0);
  double_indirect = some (λ i. if i == 1 then some (λ j. if j == 4 then 35 else 0) else none);
  linking = λ i. if i == 1 then 34 else 0;
  num_zones = 524;
}

free_zones_lem_example :
    ((◌≢◌ {A = ℕ} 34 0) × Owns true six_zones 34 ↔ Freed 34 (free_zones true six_zones))
    × ((i : ℕ) → zone_at true six_zones i ≡ some 34 → Owns true six_zones 34)
free_zones_lem_example = free_zones_lem true six_zones 34 (λ e. absurd (ground arith))
