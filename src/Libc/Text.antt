-- ===== src/Libc/Text.antt =====
-- `strlen`, `strcmp` of userspace/libc/src/string.c and `atoi`, `atol` of userspace/libc/src/atoi.c.
-- A text is the list of the bytes from its address on; `none` is a read behind the list's end, so a
-- text that ends has a 0 in it.
use k_panic.Base.{
  ℕ, ◌+◌, ◌-◌, ◌*◌, ◌%◌, ◌^◌, ◌≤◌, ◌<◌, ◌==◌, ◌≡◌, refl, ◌≢◌, true, false, ◌&&◌, List, [], ◌∷◌,
  ◌++◌, arith, ltb, leb, if◌then◌else◌, length, Option, none, some, ◌⊎◌, inl, inr, ap, sym, dec_lt,
}
use mathlib.Core.Path.{subst}
use k_panic.Base.Int.{ℤ, pos, negsuc}

-- `while(str[count] != '\0') count++;`
pub strlen : List ℕ → ℕ → Option ℕ
strlen [] count = none
strlen (c ∷ s) count = elim (c == 0) [ true ↦ some count | false ↦ strlen s (count + 1) ]

-- `strcmp`; the bytes compare as unsigned.
pub strcmp : List ℕ → List ℕ → Option ℤ
strcmp [] r = none
strcmp (a ∷ l) [] = none
strcmp (a ∷ l) (b ∷ r) =
    let rest = strcmp l r in
    if a == b
    then if a == 0 then some (pos 0) else rest
    else some (if ltb a b then negsuc 0 else pos 1)

-- The bytes of a text before its end.
abbrev pub NoZero : List ℕ → Type 0
NoZero [] = Unit
NoZero (c ∷ s) = (c ≢ 0) × NoZero s

-- `strlen` counts the bytes before the first 0, whatever stands behind it.
pub strlen_lem :
    (s rest : List ℕ) (count : ℕ)
    → NoZero s
    → strlen (s ++ (0 ∷ rest)) count ≡ some (count + length s)
unfolding strlen
strlen_lem [] rest count h = ground arith
strlen_lem (c ∷ s) rest count h = ground (arith, strlen_lem s rest (count + 1) h.1)

-- The order of a dictionary on texts.
abbrev pub LexLt : List ℕ → List ℕ → Type 0
LexLt [] [] = ⊥
LexLt [] (b ∷ r) = Unit
LexLt (a ∷ l) [] = ⊥
LexLt (a ∷ l) (b ∷ r) = (a < b) ⊎ ((a ≡ b) × LexLt l r)

-- What `strcmp` may say of two texts.
abbrev pub Verdict : List ℕ → List ℕ → Option ℤ → Type 0
Verdict l r z =
    ((z ≡ some (pos 0)) × (l ≡ r))
    ⊎ (((z ≡ some (negsuc 0)) × LexLt l r) ⊎ ((z ≡ some (pos 1)) × LexLt r l))

Verdict-cons : (a : ℕ) (l r : List ℕ) (z : Option ℤ) → Verdict l r z → Verdict (a ∷ l) (a ∷ r) z
Verdict-cons a l r z (inl (e, same)) = inl (e, ap (λ t. a ∷ t) same)
Verdict-cons a l r z (inr (inl (e, less))) = inr (inl (e, inr (refl, less)))
Verdict-cons a l r z (inr (inr (e, more))) = inr (inr (e, inr (refl, more)))

strcmp_step : (a : ℕ) (l r : List ℕ) → a ≢ 0 → strcmp (a ∷ l) (a ∷ r) ≡ strcmp l r
unfolding strcmp
strcmp_step a l r h = ground arith

strcmp_less : (a b : ℕ) (l r : List ℕ) → a < b → strcmp (a ∷ l) (b ∷ r) ≡ some (negsuc 0)
unfolding strcmp
strcmp_less a b l r h = ground arith

strcmp_more : (a b : ℕ) (l r : List ℕ) → b < a → strcmp (a ∷ l) (b ∷ r) ≡ some (pos 1)
unfolding strcmp
strcmp_more a b l r h = ground arith

-- `strcmp` of two texts that end always returns: 0, and the texts are the same, or -1, and the first
-- comes before the second in the order of a dictionary on unsigned bytes, or 1, and it comes behind.
pub strcmp-Verdict :
    (l r : List ℕ) → NoZero l → NoZero r → Verdict l r (strcmp (l ++ (0 ∷ [])) (r ++ (0 ∷ [])))
strcmp-Verdict [] [] hl hr = inl (unfold strcmp in refl, refl)
strcmp-Verdict [] (b ∷ r) hl hr = inr (inl (strcmp_less 0 b [] (r ++ (0 ∷ [])) (ground arith), tt))
strcmp-Verdict (a ∷ l) [] hl hr = inr (inr (strcmp_more a 0 (l ++ (0 ∷ [])) [] (ground arith), tt))
strcmp-Verdict (a ∷ l) (b ∷ r) (ha, hl) (hb, hr) = elim (dec_lt a b) [
  | yes p ↦ inr (inl (strcmp_less a b (l ++ (0 ∷ [])) (r ++ (0 ∷ [])) p, inl p))
  | no p ↦ elim (dec_lt b a) [
    | yes q ↦ inr (inr (strcmp_more a b (l ++ (0 ∷ [])) (r ++ (0 ∷ [])) q, inl q))
    | no q ↦
        let e : a ≡ b = omega arith in
        subst (λ x. Verdict (a ∷ l) (x ∷ r) (strcmp (a ∷ (l ++ (0 ∷ []))) (x ∷ (r ++ (0 ∷ []))))) e
          (subst (Verdict (a ∷ l) (a ∷ r)) (sym (strcmp_step a (l ++ (0 ∷ [])) (r ++ (0 ∷ [])) ha))
            (Verdict-cons a l r _ (strcmp-Verdict l r hl hr)))
  ]
]

-- The loop of `atoi`, on a number as its pattern of `w` bits.
unfoldable pub digits_from : ℕ → List ℕ → ℕ → Option ℕ
digits_from w [] number = none
digits_from w (c ∷ s) number =
    let rest = digits_from w s ((number * 10 + (c - b'0')) % 2 ^ w) in
    if leb b'0' c && leb c b'9' then rest else some number

-- `number *= -1`
abbrev pub negated : ℕ → Option ℕ → Option ℕ
negated w none = none
negated w (some n) = some ((2 ^ w - n) % 2 ^ w)

-- `atoi` at 32 bits and `atol` at 64: the result as its pattern. A signed product or sum that leaves
-- the range wraps.
unfoldable pub parse : ℕ → List ℕ → Option ℕ
unfolding digits_from
parse w [] = none
parse w (c ∷ s) =
    let minus = negated w (digits_from w s 0) in
    let plus = digits_from w s 0 in
    let plain = digits_from w (c ∷ s) 0 in
    if c == b'-' then minus else if c == b'+' then plus else plain

unfoldable pub atoi : List ℕ → Option ℕ
unfolding parse
atoi s = parse 32 s

unfoldable pub atol : List ℕ → Option ℕ
unfolding parse
atol s = parse 64 s

abbrev pub IsDigit : ℕ → Type 0
IsDigit c = (b'0' ≤ c) × (c ≤ b'9')

abbrev pub AllDigits : List ℕ → Type 0
AllDigits [] = Unit
AllDigits (c ∷ s) = IsDigit c × AllDigits s

-- The number that digits spell behind `n`.
abbrev pub decimal : ℕ → List ℕ → ℕ
decimal n [] = n
decimal n (c ∷ s) = decimal (n * 10 + (c - b'0')) s
