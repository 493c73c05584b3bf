-- ===== src/Libc/Strtoul.antt =====
-- The numbers that scanf reads: `simple_strtoul` and `simple_strtol` of userspace/libc/src/scanf.c,
-- over the classes of ctype.c. A text is the list of bytes from the pointer on; a result has the number
-- and the text that `endp` points to, and `none` is a read behind the list.
pub mod Reads
use k_panic.Base.{
  ℕ, zero, suc, ◌+◌, ◌-◌, ◌*◌, ◌%◌, ◌^◌, ◌≤◌, ◌<◌, ◌==◌, ◌≡◌, ◌≢◌, refl, ap, ◌∙◌, Bool, true, false,
  not, ◌&&◌, ◌||◌, Option, none, some, List, [], ◌∷◌, ◌++◌, map, ltb, leb, if◌then◌else◌, arith,
  Bool-cases, inl, inr,
}
use native.Mathlib.Nat.{mod-eq_of_lt, mul-suc}

pub is_digit : ℕ → Bool
is_digit c = leb b'0' c && leb c b'9'

unfoldable pub is_xdigit : ℕ → Bool
unfolding is_digit
is_xdigit c = is_digit c || (leb b'A' c && leb c b'F') || (leb b'a' c && leb c b'f')

-- The letters of Latin-1 are in the table too.
pub to_upper : ℕ → ℕ
to_upper c =
    if (leb b'a' c && leb c b'z') || (leb 223 c && leb c 255 && not (c == 247)) then c - 32 else c

-- `isdigit(*cp) ? *cp-'0' : toupper(*cp)-'A'+10`
pub xdigit_value : ℕ → ℕ
unfolding is_digit to_upper
xdigit_value c = if is_digit c then c - b'0' else to_upper c - b'A' + 10

pub strtoul_loop : ℕ → List ℕ → ℕ → Option (ℕ × List ℕ)
unfolding is_xdigit xdigit_value
strtoul_loop base [] result = none
strtoul_loop base (c ∷ cp) result =
    let rest = strtoul_loop base cp ((result * base + xdigit_value c) % 2 ^ 64) in
    if is_xdigit c && ltb (xdigit_value c) base then rest else some (result, c ∷ cp)

-- The base, and where the digits start.
pub find_base : ℕ → List ℕ → Option (ℕ × List ℕ)
find_base base [] = none
find_base base (c ∷ []) =
    if base == 0
    then (if c == b'0' then none else some (10, c ∷ []))
    else if base == 16 && c == b'0'
    then none
    else some (base, c ∷ [])
find_base base (c ∷ d ∷ cp) =
    let x = to_upper d == b'X' in
    if base == 0
    then if c == b'0' then (if x then after_x cp else some (8, d ∷ cp)) else some (10, c ∷ d ∷ cp)
    else if base == 16 && c == b'0' && x
    then some (16, cp)
    else some (base, c ∷ d ∷ cp)
  where
    after_x : List ℕ → Option (ℕ × List ℕ)
    after_x [] = none
    after_x (e ∷ cp') = if is_xdigit e then some (16, e ∷ cp') else some (8, d ∷ e ∷ cp')

unfoldable pub simple_strtoul : List ℕ → ℕ → Option (ℕ × List ℕ)
unfolding find_base strtoul_loop
simple_strtoul cp base = elim (find_base base cp) [
  | none ↦ none
  | some (b, digits) ↦ strtoul_loop b digits 0
]

unfoldable pub simple_strtol : List ℕ → ℕ → Option (ℕ × List ℕ)
unfolding simple_strtoul
simple_strtol [] base = none
simple_strtol (c ∷ cp) base =
    let positive = simple_strtoul (c ∷ cp) base in
    let negative = simple_strtoul cp base in
    if c == b'-'
    then elim negative [ none ↦ none | some (n, end) ↦ some ((2 ^ 64 - n) % 2 ^ 64, end) ]
    else positive
