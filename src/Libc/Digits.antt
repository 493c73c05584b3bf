-- ===== src/Libc/Digits.antt =====
-- The digits that `writeNumber` writes: what they spell, how many there are, and where the padding
-- goes.
use k_panic.Base.{
  ℕ, zero, suc, ◌+◌, ◌-◌, ◌*◌, ◌/◌, ◌%◌, ◌^◌, ◌≤◌, ◌<◌, ◌≡◌, Bool, List, [], ◌∷◌, ◌++◌, arith, leb,
  if◌then◌else◌, length, length-append,
}
use native.Mathlib.Nat.{div-add-mod, mod-lt, pow-suc, div-lt_iff_lt-mul}
use k_panic.Libc.Number.{Flags, digit, digits_loop, digits_of, marks, pad_loop, emit}

-- The value of a digit's character.
abbrev digit_value : ℕ → ℕ
digit_value c = if leb c b'9' then c - b'0' else if leb b'a' c then c - b'a' + 10 else c - b'A' + 10

digit_value-digit : (large : Bool) (n : ℕ) → n < 36 → digit_value (digit large n) ≡ n
unfolding digit
digit_value-digit large n h = ground arith

-- The number that digits spell, lowest first.
abbrev pub value_of : ℕ → List ℕ → ℕ
value_of base [] = 0
value_of base (c ∷ ds) = value_of base ds * base + digit_value c

quotient_lt : (n base fuel : ℕ) → 2 ≤ base → n < 2 ^ suc fuel → n / base < 2 ^ fuel
quotient_lt n base fuel h k =
    (div-lt_iff_lt-mul {k = base} {x = n} {y = 2 ^ fuel} (omega arith)).1
      (below (2 ^ fuel) (pow-suc 2 fuel))
  where
    below : (p : ℕ) → 2 ^ suc fuel ≡ p * 2 → n < p * base
    below p e = grind arith

value_of-digits_loop :
    (fuel : ℕ) (large : Bool) (base number : ℕ)
    → 2 ≤ base
    → base ≤ 36
    → number < 2 ^ fuel
    → value_of base (digits_loop fuel large base number) ≡ number
unfolding digits_loop
value_of-digits_loop zero large base number h1 h2 h3 = omega arith
value_of-digits_loop (suc fuel) large base number h1 h2 h3 = ground (
  arith,
  value_of-digits_loop fuel large base (number / base) h1 h2 (quotient_lt number base fuel h1 h3),
  digit_value-digit large (number % base),
  mod-lt number {m = base},
  div-add-mod number base,
)

-- In every base from 2 to 36, the digits of a 64-bit number spell it: the loop is long enough, and
-- no digit is lost.
pub value_of-digits_of :
    (large : Bool) (base number : ℕ)
    → 2 ≤ base
    → base ≤ 36
    → number < 2 ^ 64
    → value_of base (digits_of large base number) ≡ number
unfolding digits_of
value_of-digits_of large base number h1 h2 h3 =
    ground (arith, value_of-digits_loop 64 large base number h1 h2 h3)

length-digits_loop :
    (fuel : ℕ) (large : Bool) (base number : ℕ) → length (digits_loop fuel large base number) ≤ fuel
unfolding digits_loop
length-digits_loop zero large base number = omega arith
length-digits_loop (suc fuel) large base number =
    ground (arith, length-digits_loop fuel large base (number / base))

length-emit : (tmp out : List ℕ) → length (emit tmp out) ≡ length tmp + length out
unfolding emit
length-emit [] out = omega arith
length-emit (c ∷ tmp) out = omega (arith, length-emit tmp (c ∷ out))

length-pad_loop : (size i c : ℕ) → size < 2 ^ 32 → length (pad_loop size 0 i c) ≡ size - i
unfolding pad_loop
length-pad_loop zero i c h = omega arith
length-pad_loop (suc size) i c h = ground (arith, length-pad_loop size i c (omega arith))

length-digits_of : (large : Bool) (base number : ℕ) → length (digits_of large base number) ≤ 64
unfolding digits_of
length-digits_of large base number = ground (arith, length-digits_loop 64 large base number)

length-marks : (type : Flags) (base sign : ℕ) → length (marks type base sign) ≤ 3
unfolding marks
length-marks type base sign = ground arith

-- The array `tmp` of 70 characters is never left: whatever the number, the base and the flags, at
-- most 67 characters are put into it.
pub tmp_bound :
    (type : Flags) (base sign number : ℕ)
    → length (digits_of type.large base number ++ marks type base sign) ≤ 67
tmp_bound type base sign number = omega (
  arith,
  length-append (digits_of type.large base number) (marks type base sign),
  length-digits_of type.large base number,
  length-marks type base sign,
)
