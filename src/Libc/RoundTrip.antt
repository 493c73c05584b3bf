-- ===== src/Libc/RoundTrip.antt =====
-- `writeNumber` and `atoi`: a number that is printed in decimal is read back.
use k_panic.Base.{
  ℕ, zero, suc, ◌+◌, ◌-◌, ◌/◌, ◌%◌, ◌^◌, ◌<◌, ◌≡◌, refl, ◌≢◌, ◌∙◌, ap, true, false, List, [], ◌∷◌,
  ◌++◌, arith, ltb, dec_lt, if◌then◌else◌, some, append-nil,
}
use k_panic.Libc.Text.{atoi, parse, AllDigits, decimal}
use k_panic.Libc.Atoi.{parse_lem}
use k_panic.Libc.Number.{
  Flags, plain, digit, digits_loop, digits_of, split_sign, marks, pad_loop, zero_loop, emit,
  write_number,
}
use k_panic.Libc.Digits.{value_of, value_of-digits_of}

emit-append : (a b out : List ℕ) → emit (a ++ b) out ≡ emit b (emit a out)
unfolding emit
emit-append [] b out = refl
emit-append (c ∷ a) b out = emit-append a b (c ∷ out)

emit-AllDigits : (tmp out : List ℕ) → AllDigits tmp → AllDigits out → AllDigits (emit tmp out)
unfolding emit
emit-AllDigits [] out h k = k
emit-AllDigits (c ∷ tmp) out (hc, h) k = emit-AllDigits tmp (c ∷ out) h (hc, k)

digits_loop-AllDigits : (fuel number : ℕ) → AllDigits (digits_loop fuel false 10 number)
unfolding digits_loop digit
digits_loop-AllDigits zero number = tt
digits_loop-AllDigits (suc fuel) number = ground (arith, digits_loop-AllDigits fuel (number / 10))

digits_of-AllDigits : (number : ℕ) → AllDigits (digits_of false 10 number)
unfolding digits_of
digits_of-AllDigits number = ground (arith, digits_loop-AllDigits 64 number)

-- Read from the left, the characters written spell what the array spells from the right.
decimal-emit :
    (tmp out : List ℕ) → AllDigits tmp → decimal 0 (emit tmp out) ≡ decimal (value_of 10 tmp) out
unfolding emit
decimal-emit [] out h = refl
decimal-emit (c ∷ tmp) out (hc, h) =
    decimal-emit tmp (c ∷ out) h ∙ ap (λ n. decimal n out) (ground arith)

-- What `%d` writes with no width.
abbrev pub decimal_flags : Flags
decimal_flags = record plain { sign = true }

write_number_decimal :
    (number : ℕ)
    → write_number number 10 0 0 decimal_flags
      ≡ emit
          (digits_of false 10 (split_sign decimal_flags number).1
            ++ marks decimal_flags 10 (split_sign decimal_flags number).0)
          []
unfolding write_number pad_loop zero_loop
write_number_decimal number = refl

-- An `int` as `va_arg(args, size_t)` gives it.
abbrev pub extended : ℕ → ℕ
extended n = if ltb n (2 ^ 31) then n else n + (2 ^ 64 - 2 ^ 32)

split_pos : (n : ℕ) → n < 2 ^ 31 → split_sign decimal_flags (extended n) ≡ (0, n)
unfolding split_sign
split_pos n h = ground arith

split_neg :
    (n : ℕ) → 2 ^ 31 < n → n < 2 ^ 32 → split_sign decimal_flags (extended n) ≡ (b'-', 2 ^ 32 - n)
unfolding split_sign
split_neg n h k = ground arith

written_pos :
    (n : ℕ)
    → n < 2 ^ 31
    → write_number (extended n) 10 0 0 decimal_flags ≡ emit (digits_of false 10 n) []
unfolding marks
written_pos n h = write_number_decimal (extended n) ∙ rw (split_pos n h, append-nil)

written_neg :
    (n : ℕ)
    → 2 ^ 31 < n
    → n < 2 ^ 32
    → write_number (extended n) 10 0 0 decimal_flags
      ≡ b'-' ∷ emit (digits_of false 10 (2 ^ 32 - n)) []
unfolding marks
written_neg n h k =
    write_number_decimal (extended n)
    ∙ rw (split_neg n h k)
        (emit-append (digits_of false 10 (2 ^ 32 - n)) (b'-' ∷ []) [] ∙ unfold emit in refl)

-- Every `int` but the least one, printed by `%d`, is read back by `atoi`, whatever stands behind
-- the end of the text.
pub atoi-write_number :
    (n : ℕ) (rest : List ℕ)
    → n < 2 ^ 32
    → n ≢ 2 ^ 31
    → atoi (write_number (extended n) 10 0 0 decimal_flags ++ (0 ∷ rest)) ≡ some n
unfolding atoi
atoi-write_number n rest h ne = elim (dec_lt n (2 ^ 31)) [
  | yes p ↦ rw (written_pos n p) (reads n p).0
  | no p ↦
      rw (written_neg n (omega arith) h)
        ((reads (2 ^ 32 - n) (omega arith)).1 ∙ ap some (omega arith))
]
  where
    reads :
        (m : ℕ)
        → m < 2 ^ 31
        → (parse 32 (emit (digits_of false 10 m) [] ++ (0 ∷ rest)) ≡ some m)
          × (parse 32 (b'-' ∷ (emit (digits_of false 10 m) [] ++ (0 ∷ rest)))
              ≡ some ((2 ^ 32 - m) % 2 ^ 32))
    reads m q =
        let ds = digits_of false 10 m in
        let spelled : decimal 0 (emit ds []) ≡ m =
          decimal-emit ds [] (digits_of-AllDigits m)
          ∙ value_of-digits_of false 10 m (omega arith) (omega arith) (omega arith) in
        let (plus, _, minus) =
          parse_lem 32 (emit ds []) rest 0 (emit-AllDigits ds [] (digits_of-AllDigits m) tt)
            (λ d. omega arith) (λ e. omega arith) (λ e. omega arith) (omega (arith, spelled)) in
        (plus ∙ ap some spelled, minus ∙ ap (λ k. some ((2 ^ 32 - k) % 2 ^ 32)) spelled)
