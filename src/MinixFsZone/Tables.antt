-- ===== src/MinixFsZone/Tables.antt =====
-- The tables of single and double indirect zones after `setZone`.
use mathlib.Core.Path.{subst}
use k_panic.Base.{
  ℕ, ◌+◌, ◌%◌, ◌^◌, ◌<◌, ◌≡◌, ◌≢◌, ◌⊎◌, inl, inr, refl, sym, Option, none, some, arith,
  Option-cases,
}
use k_panic.MinixFsZone.{Zones, update, set_double, set_single}

abbrev pub double_at : Option (ℕ → Option (ℕ → ℕ)) → ℕ → ℕ → Option ℕ
double_at none row column = none
double_at (some f) row column = elim (f row) [ none ↦ none | some g ↦ some (g column) ]

abbrev pub single_at : Option (ℕ → ℕ) → ℕ → Option ℕ
single_at none i = none
single_at (some f) i = some (f i)

-- The tables after a write to one place of the double indirect zones.
abbrev pub StoredAt : Option (ℕ → Option (ℕ → ℕ)) → Option (ℕ → Option (ℕ → ℕ)) → ℕ → ℕ → ℕ → Type 0
StoredAt old new row column zone =
    (double_at new row column ≡ some zone)
    × ((r c x : ℕ)
        → (row ≢ r) ⊎ (column ≢ c)
        → double_at old r c ≡ some x
        → double_at new r c ≡ some x)

written_there :
    (f : ℕ → Option (ℕ → ℕ)) (g : ℕ → ℕ) (row column zone : ℕ)
    → f row ≡ some g
    → StoredAt (some f) (some (update f row (some (update g column zone)))) row column zone
written_there f g row column zone e = (ground arith, λ r c x ne h. ground (arith, e))

written_new :
    (old : Option (ℕ → Option (ℕ → ℕ))) (f : ℕ → Option (ℕ → ℕ)) (g : ℕ → ℕ) (row column zone : ℕ)
    → ((r c x : ℕ) → double_at old r c ≡ some x → (row ≢ r) × (double_at (some f) r c ≡ some x))
    → StoredAt old
        (some (update (update f row (some g)) row (some (update g column zone))))
        row
        column
        zone
written_new old f g row column zone kept =
    (ground arith, λ r c x ne h. ground (arith, kept r c x h))

module _ {ℓ} {S : Type ℓ} (allocate : S → ℕ × S) where
  abbrev pub DoubleAssigned : Zones → S → ℕ → ℕ → ℕ → Zones → S → Type ℓ
  DoubleAssigned z s row column zone z' s' =
      (set_double allocate z s row column zone ≡ some (z', s'))
      × (z'.indirect ≡ z.indirect)
      × ((i : ℕ) → i < 7 → z'.direct i ≡ z.direct i)
      × (z'.num_zones ≡ (z.num_zones + 1) % 2 ^ 32)
      × StoredAt z.double_indirect z'.double_indirect row column zone

  pub set_double_lem :
      (z : Zones) (s : S) (row column zone : ℕ)
      → (z' : Zones) × (s' : S) × DoubleAssigned z s row column zone z' s'
  unfolding set_double
  set_double_lem z s row column zone = elim (Option-cases z.double_indirect) [
    | inl empty ↦
        let f : ℕ → Option (ℕ → ℕ) = λ i. none in
        let g : ℕ → ℕ = λ i. 0 in
        let (first, s1) = allocate s in
        let (second, s2) = allocate s1 in
        let all = update (update f row (some g)) row (some (update g column zone)) in
        (
          record z {
            direct = update z.direct 8 first;
            linking = update (λ i. 0) row second;
            double_indirect = some all;
            num_zones = (z.num_zones + 1) % 2 ^ 32;
          },
          s2,
          (
            ground (arith, empty),
            refl,
            λ i h. ground arith,
            refl,
            written_new z.double_indirect f g row column zone
                (λ r c x h. absurd (ground (arith, empty))),
          ),
        )
    | inr (f, there) ↦ elim (Option-cases (f row)) [
      | inl empty ↦
          let g : ℕ → ℕ = λ i. 0 in
          let (first, s1) = allocate s in
          let all = update (update f row (some g)) row (some (update g column zone)) in
          (
            record z {
              linking = update z.linking row first;
              double_indirect = some all;
              num_zones = (z.num_zones + 1) % 2 ^ 32;
            },
            s1,
            (
              ground (arith, empty, there),
              refl,
              λ i h. refl,
              refl,
              written_new z.double_indirect f g row column zone
                  (λ r c x h. (ground (arith, empty, there), ground (arith, there))),
            ),
          )
      | inr (g, full) ↦ (
        record z {
          double_indirect = some (update f row (some (update g column zone)));
          num_zones = (z.num_zones + 1) % 2 ^ 32;
        },
        s,
        (
          ground (arith, full, there),
          refl,
          λ i h. refl,
          refl,
          subst
              (λ d. StoredAt d (some (update f row (some (update g column zone)))) row column zone)
              (sym there) (written_there f g row column zone full),
        ),
      )
    ]
  ]

  abbrev pub SingleAssigned : Zones → S → ℕ → ℕ → Zones → S → Type ℓ
  SingleAssigned z s single zone z' s' =
      (set_single allocate z s single zone ≡ some (z', s'))
      × (z'.double_indirect ≡ z.double_indirect)
      × ((i : ℕ) → i < 7 → z'.direct i ≡ z.direct i)
      × (z'.num_zones ≡ (z.num_zones + 1) % 2 ^ 32)
      × (single_at z'.indirect single ≡ some zone)
      × ((i x : ℕ)
          → single ≢ i
          → single_at z.indirect i ≡ some x
          → single_at z'.indirect i ≡ some x)

  pub set_single_lem :
      (z : Zones) (s : S) (single zone : ℕ)
      → (z' : Zones) × (s' : S) × SingleAssigned z s single zone z' s'
  unfolding set_single
  set_single_lem z s single zone = elim (Option-cases z.indirect) [
    | inl empty ↦
        let (first, s1) = allocate s in
        (
          record z {
            direct = update z.direct 7 first;
            indirect = some (update (λ i. 0) single zone);
            num_zones = (z.num_zones + 1) % 2 ^ 32;
          },
          s1,
          (
            ground (arith, empty),
            refl,
            λ i h. ground arith,
            refl,
            ground arith,
            λ i x ne h. absurd (ground (arith, empty)),
          ),
        )
    | inr (f, there) ↦ (
      record z { indirect = some (update f single zone); num_zones = (z.num_zones + 1) % 2 ^ 32 },
      s,
      (
        ground (arith, there),
        refl,
        λ i h. refl,
        refl,
        ground arith,
        λ i x ne h. ground (arith, there),
      ),
    )
  ]
