-- ===== src/FiFo/Count.antt =====
-- What `countElementsAhead` counts.
use k_panic.Base.{
  ℕ, ◌+◌, ◌-◌, ◌%◌, ◌^◌, ◌<◌, ◌==◌, ◌≡◌, ap, ◌∙◌, ◌↔◌, List, length, arith, ltb, if◌then◌else◌,
  Bool-cases, inl, inr, ℕ_discrete,
}
use k_panic.RingBuffer.Refine.{Represents, wrap}
use k_panic.FiFo.{FiFo, count_elements_ahead}
use k_panic.FiFo.Refine.{as_ring}

abbrev counted : ℕ → ℕ → ℕ → ℕ
counted w r size = let count = (w + 2 ^ 32 - r) % 2 ^ 32 in if count == 0 then size else count - 1

difference_above : (w r : ℕ) → w < 2 ^ 32 → r < w → (w + 2 ^ 32 - r) % 2 ^ 32 ≡ w - r
difference_above w r h k = omega (arith, h, k)

difference_below : (w r : ℕ) → r < 2 ^ 32 → w < r → (w + 2 ^ 32 - r) % 2 ^ 32 ≡ w + 2 ^ 32 - r
difference_below w r h k = omega (arith, h, k)

difference_same : (w : ℕ) → (w + 2 ^ 32 - w) % 2 ^ 32 ≡ 0
difference_same w = omega arith

count_of :
    (w r size len : ℕ)
    → size < 2 ^ 32
    → r < size
    → len < size
    → w ≡ (if ltb (r + (1 + len)) size then r + (1 + len) else r + (1 + len) - size)
    → (counted w r size ≡ len) ↔ (r < w)
count_of w r size len s h l e = elim (Bool-cases (ltb (r + (1 + len)) size)) [
  | inl above ↦
      let at : w ≡ r + (1 + len) = ground arith in
      let d = difference_above w r (ground arith) (omega (arith, at)) in
      (λ _. omega (arith, at), λ _. ground (arith, d))
  | inr round ↦
      let at : w ≡ r + (1 + len) - size = ground arith in
      elim (ℕ_discrete w r) [
        | yes same ↦
            let d : (w + 2 ^ 32 - r) % 2 ^ 32 ≡ 0 = omega (arith, same) in
            (λ c. absurd (ground (arith, d)), λ k. absurd (omega (arith, same, k)))
        | no other ↦
            let below : w < r = ground arith in
            let d = difference_below w r (omega (arith, h, s)) below in
            (λ c. absurd (ground (arith, d)), λ k. absurd (omega (arith, below, k)))
      ]
]

module _ {ℓ} {T : Type ℓ} where
  -- The position to write, seen from the position to read.
  write_place :
      (f : FiFo T) (q : List T)
      → Represents (as_ring f) q
      → f.ib_write_pos ≡ (
          if ltb (f.ib_read_pos + (1 + length q)) f.input_buffer_size
          then f.ib_read_pos + (1 + length q)
          else f.ib_read_pos + (1 + length q) - f.input_buffer_size)
  write_place f q v =
      let room = v.room in
      let place = v.write_at in
      place
      ∙ ap (λ k. k % f.input_buffer_size) (omega arith)
      ∙ wrap f.ib_read_pos (1 + length q) f.input_buffer_size v.read_in (omega (arith, room))

  -- `count_elements_ahead` of a buffer of fewer than 2 ^ 32 places that holds `q` is the number of its
  -- items exactly where the position to write is above the position to read: it is wrong in a full
  -- buffer and in one whose items go round its end.
  pub count_elements_ahead_iff :
      (f : FiFo T) (q : List T)
      → f.input_buffer_size < 2 ^ 32
      → Represents (as_ring f) q
      → (count_elements_ahead f ≡ length q) ↔ (f.ib_read_pos < f.ib_write_pos)
  unfolding count_elements_ahead
  count_elements_ahead_iff f q small v =
      let place = write_place f q v in
      let room = v.room in
      let inside = v.read_in in
      (
        λ e. (count_of _ _ _ (length q) small inside room place).0 e,
        λ h. (count_of _ _ _ (length q) small inside room place).1 h,
      )
