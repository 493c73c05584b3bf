-- ===== src/Libc/Number.antt =====
-- `writeFillChars` and `writeNumber` of userspace/libc/src/printf.c. The output is the list of the
-- characters written; a number is the 64-bit pattern that `va_arg` gives.
use k_panic.Base.{
  ℕ, zero, suc, ◌+◌, ◌-◌, ◌/◌, ◌%◌, ◌^◌, ◌==◌, Bool, false, not, ◌&&◌, ◌||◌, List, [], ◌∷◌, ◌++◌,
  ltb, leb, if◌then◌else◌, length,
}

-- The bits of `type`: ZEROPAD, SIGN, PLUS, SPACE, LEFT, SPECIAL, LARGE, LONG.
pub record Flags : Type 0 where
  pub zeropad : Bool
  pub sign : Bool
  pub plus : Bool
  pub space : Bool
  pub left : Bool
  pub special : Bool
  pub large : Bool
  pub long : Bool

-- `while( size-- > 0 ) *ptr++ = fill;`
unfoldable pub write_fill_chars : ℕ → ℕ → List ℕ
write_fill_chars zero fill = []
write_fill_chars (suc size) fill = fill ∷ write_fill_chars size fill

-- `small_digits` and `large_digits` at an index below 36
unfoldable pub digit : Bool → ℕ → ℕ
digit large n = if ltb n 10 then b'0' + n else if large then b'A' + (n - 10) else b'a' + (n - 10)

-- `while (number != 0) { tmp[i++] = digits[number%base]; number /= base; }`: the digits, lowest first.
unfoldable pub digits_loop : ℕ → Bool → ℕ → ℕ → List ℕ
digits_loop zero large base number = []
digits_loop (suc fuel) large base number =
    let rest = digits_loop fuel large base (number / base) in
    if number == 0 then [] else digit large (number % base) ∷ rest

-- `if (number == 0) tmp[i++]='0'; else while …`; 64 rounds are enough for 64 bits.
unfoldable pub digits_of : Bool → ℕ → ℕ → List ℕ
unfolding digits_loop
digits_of large base number = if number == 0 then b'0' ∷ [] else digits_loop 64 large base number

-- The sign character (0 for none) and the number behind it.
unfoldable pub split_sign : Flags → ℕ → ℕ × ℕ
split_sign type number =
    let low = number % 2 ^ 32 in
    let negated = (2 ^ 32 - low) % 2 ^ 32 in
    if not type.sign
    then (0, number)
    else if type.long && leb (2 ^ 63) number
    then (b'-', (2 ^ 64 - number) % 2 ^ 64)
    else if not type.long && leb (2 ^ 31) low
    then (b'-', if ltb negated (2 ^ 31) then negated else negated + (2 ^ 64 - 2 ^ 32))
    else if type.plus
    then (b'+', number)
    else if type.space
    then (b' ', number)
    else (0, number)

-- `tmp` behind the digits: the sign, and the mark of the base.
unfoldable pub marks : Flags → ℕ → ℕ → List ℕ
unfolding digit
marks type base sign =
    let base_mark =
      if not type.special
      then []
      else if base == 8
      then b'0' ∷ []
      else if base == 16
      then digit type.large 33 ∷ b'0' ∷ []
      else [] in
    if sign == 0 then base_mark else sign ∷ base_mark

-- `while (size-- - precision > i) *ptr++ = c;`, in 32 bits
unfoldable pub pad_loop : ℕ → ℕ → ℕ → ℕ → List ℕ
pad_loop zero precision i c = []
pad_loop (suc size) precision i c =
    let rest = pad_loop size precision i c in
    if ltb i ((suc size + 2 ^ 32 - precision) % 2 ^ 32) then c ∷ rest else []

-- `while (precision-- > i) *ptr++ = '0';`
unfoldable pub zero_loop : ℕ → ℕ → List ℕ
zero_loop zero i = []
zero_loop (suc precision) i =
    let rest = zero_loop precision i in if ltb i (suc precision) then b'0' ∷ rest else []

-- `while (i-- > 0) *ptr++ = tmp[i];`
unfoldable pub emit : List ℕ → List ℕ → List ℕ
emit [] out = out
emit (c ∷ tmp) out = emit tmp (c ∷ out)

unfoldable pub write_number : ℕ → ℕ → ℕ → ℕ → Flags → List ℕ
unfolding digits_of split_sign marks pad_loop zero_loop emit digit
write_number number base size precision type =
    let width = if type.left then 0 else size in
    let c = if type.zeropad && not type.left then b'0' else b' ' in
    let (sign, magnitude) = split_sign type number in
    let tmp = digits_of type.large base magnitude ++ marks type base sign in
    let wanted = if type.special then 0 else precision in
    let precision' = if ltb width wanted then width else wanted in
    if ltb base 2 || ltb 36 base
    then []
    else pad_loop width precision' (length tmp) c
      ++ (zero_loop precision' (length tmp) ++ emit tmp [])

abbrev pub plain : Flags
plain = record {
  zeropad = false;
  sign = false;
  plus = false;
  space = false;
  left = false;
  special = false;
  large = false;
  long = false;
}
