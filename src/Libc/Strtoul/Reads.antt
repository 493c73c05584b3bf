-- ===== src/Libc/Strtoul/Reads.antt =====
-- What `simple_strtoul` and `simple_strtol` read.
use k_panic.Base.{
  ℕ, zero, suc, ◌+◌, ◌-◌, ◌*◌, ◌%◌, ◌^◌, ◌≤◌, ◌<◌, ◌==◌, ◌≡◌, ◌≢◌, refl, ap, ◌∙◌, Bool, true, false,
  ◌&&◌, Option, none, some, List, [], ◌∷◌, ◌++◌, map, ltb, if◌then◌else◌, arith, Bool-cases, inl,
  inr,
}
use native.Mathlib.Nat.{mod-eq_of_lt, mul-suc}
use k_panic.Libc.Strtoul.{
  is_xdigit, to_upper, xdigit_value, strtoul_loop, find_base, simple_strtoul, simple_strtol,
}

-- A digit below sixteen, with letters of either case.
abbrev pub xdigit : Bool → ℕ → ℕ
xdigit capital d =
    if ltb d 10 then b'0' + d else (if capital then b'A' + (d - 10) else b'a' + (d - 10))

abbrev pub AllBelow : ℕ → List ℕ → Type 0
AllBelow base [] = Unit
AllBelow base (d ∷ ds) = (d < base) × AllBelow base ds

abbrev pub positional : ℕ → ℕ → List ℕ → ℕ
positional base n [] = n
positional base n (d ∷ ds) = positional base (n * base + d) ds

xdigit-value :
    (capital : Bool) (d : ℕ)
    → d < 16
    → (is_xdigit (xdigit capital d) ≡ true) × (xdigit_value (xdigit capital d) ≡ d)
unfolding is_xdigit xdigit_value
xdigit-value capital d h = elim (Bool-cases capital) [
  | inl big ↦ (ground arith, ground arith)
  | inr small ↦ (ground arith, ground arith)
]

le-times : (n base : ℕ) → 0 < base → n ≤ n * base
le-times n zero h = absurd (omega (arith, h))
le-times n (suc b) h = let more = mul-suc n b in omega (arith, more)

le-positional : (base n : ℕ) (ds : List ℕ) → 0 < base → n ≤ positional base n ds
le-positional base n [] h = omega arith
le-positional base n (d ∷ ds) h =
    let rest = le-positional base (n * base + d) ds h in
    let more = le-times n base h in omega (arith, rest, more)

digit_step :
    (a b : Bool) (x y z : Option (ℕ × List ℕ))
    → a ≡ true
    → b ≡ true
    → x ≡ y
    → (if a && b then x else z) ≡ y
digit_step a b x y z e f g = ground arith

strtoul_loop-next :
    (base c d : ℕ) (cp : List ℕ) (n : ℕ)
    → is_xdigit c ≡ true
    → xdigit_value c ≡ d
    → d < base
    → strtoul_loop base (c ∷ cp) n ≡ strtoul_loop base cp ((n * base + d) % 2 ^ 64)
unfolding strtoul_loop
strtoul_loop-next base c d cp n is value h =
    let less : ltb (xdigit_value c) base ≡ true = ground arith in
    let result : (n * base + xdigit_value c) % 2 ^ 64 ≡ (n * base + d) % 2 ^ 64 =
      ap (λ v. (n * base + v) % 2 ^ 64) value in
    digit_step _ _ _ _ _ is less (ap (strtoul_loop base cp) result)

strtoul_loop_lem :
    (base : ℕ) (capital : Bool) (ds : List ℕ) (n e : ℕ) (rest : List ℕ)
    → 0 < base
    → base ≤ 16
    → AllBelow base ds
    → (is_xdigit e && ltb (xdigit_value e) base) ≡ false
    → positional base n ds < 2 ^ 64
    → strtoul_loop base (map (xdigit capital) ds ++ e ∷ rest) n
      ≡ some (positional base n ds, e ∷ rest)
unfolding strtoul_loop
strtoul_loop_lem base capital [] n e rest p h all stop fits = rw stop refl
strtoul_loop_lem base capital (d ∷ ds) n e rest p h (small, all) stop fits =
    let m = n * base + d in
    let (is, value) = xdigit-value capital d (omega (arith, h, small)) in
    let le = le-positional base m ds p in
    let same = mod-eq_of_lt {n = m} {m = 2 ^ 64} (omega (arith, le, fits)) in
    let later = strtoul_loop_lem base capital ds m e rest p h all stop fits in
    let next =
      strtoul_loop-next base (xdigit capital d) d (map (xdigit capital) ds ++ e ∷ rest) n is value
        small in
    next ∙ ap (strtoul_loop base (map (xdigit capital) ds ++ e ∷ rest)) same ∙ later

no_minus : (capital : Bool) (d : ℕ) → (xdigit capital d == b'-') ≡ false
no_minus capital d = elim (Bool-cases capital) [ inl big ↦ ground arith | inr small ↦ ground arith ]

find_base-plain :
    (base c : ℕ) (cp : List ℕ)
    → base ≢ 0
    → base ≢ 16
    → find_base base (c ∷ cp) ≡ some (base, c ∷ cp)
unfolding find_base
find_base-plain base c [] z h = ground arith
find_base-plain base c (d ∷ cp) z h = ground arith

find_base-hex :
    (x c : ℕ) (cp : List ℕ)
    → to_upper x ≡ b'X'
    → is_xdigit c ≡ true
    → find_base 0 (b'0' ∷ x ∷ c ∷ cp) ≡ some (16, c ∷ cp)
unfolding find_base
find_base-hex x c cp e is = ground (arith, e, is)

strtoul-plain :
    (base c : ℕ) (cp : List ℕ)
    → base ≢ 0
    → base ≢ 16
    → simple_strtoul (c ∷ cp) base ≡ strtoul_loop base (c ∷ cp) 0
unfolding simple_strtoul
strtoul-plain base c cp z h =
    ap (λ o. elim o [ none ↦ none | some (b, digits) ↦ strtoul_loop b digits 0 ])
      (find_base-plain base c cp z h)

-- Digits of a base below sixteen, one at least, in front of a byte that is no digit of the base, are
-- read as their number, up to that byte, as long as it fits in 64 bits; behind a minus sign, as its
-- negation.
pub simple_strtol_lem :
    (base : ℕ) (capital : Bool) (d : ℕ) (ds : List ℕ) (e : ℕ) (rest : List ℕ)
    → 0 < base
    → base < 16
    → AllBelow base (d ∷ ds)
    → (is_xdigit e && ltb (xdigit_value e) base) ≡ false
    → positional base 0 (d ∷ ds) < 2 ^ 64
    → let text = map (xdigit capital) (d ∷ ds) ++ e ∷ rest in
      let n = positional base 0 (d ∷ ds) in
      (simple_strtol text base ≡ some (n, e ∷ rest))
      × (simple_strtol (b'-' ∷ text) base ≡ some ((2 ^ 64 - n) % 2 ^ 64, e ∷ rest))
unfolding simple_strtol
simple_strtol_lem base capital d ds e rest p h all stop fits =
    let read =
      strtoul-plain base (xdigit capital d) (map (xdigit capital) ds ++ e ∷ rest) (omega (arith, p))
        (omega (arith, h))
      ∙ strtoul_loop_lem base capital (d ∷ ds) 0 e rest p (omega (arith, h)) all stop fits in
    let no_sign : (xdigit capital d == b'-') ≡ false = no_minus capital d in
    (
      rw no_sign read,
      ap (λ o. elim o [ none ↦ none | some (v, end) ↦ some ((2 ^ 64 - v) % 2 ^ 64, end) ]) read,
    )

-- Hexadecimal digits behind 0x or 0X are read with the base 0.
pub simple_strtoul-hex :
    (capital : Bool) (x d : ℕ) (ds : List ℕ) (e : ℕ) (rest : List ℕ)
    → to_upper x ≡ b'X'
    → AllBelow 16 (d ∷ ds)
    → is_xdigit e ≡ false
    → positional 16 0 (d ∷ ds) < 2 ^ 64
    → simple_strtoul (b'0' ∷ x ∷ (map (xdigit capital) (d ∷ ds) ++ e ∷ rest)) 0
      ≡ some (positional 16 0 (d ∷ ds), e ∷ rest)
unfolding simple_strtoul
simple_strtoul-hex capital x d ds e rest up all stop fits =
    let first = (xdigit-value capital d all.0).0 in
    ap (λ o. elim o [ none ↦ none | some (b, digits) ↦ strtoul_loop b digits 0 ])
      (find_base-hex x (xdigit capital d) (map (xdigit capital) ds ++ e ∷ rest) up first)
    ∙ strtoul_loop_lem 16 capital (d ∷ ds) 0 e rest (omega arith) (omega arith) all
        (ap (λ b. b && ltb (xdigit_value e) 16) stop) fits
