-- ===== src/Libc/Atoi.antt =====
-- What `atoi` and `atol` read.
use k_panic.Base.{ℕ, ◌+◌, ◌-◌, ◌*◌, ◌%◌, ◌^◌, ◌≤◌, ◌<◌, ◌≡◌, ◌≢◌, List, [], ◌∷◌, ◌++◌, arith, some}
use native.Mathlib.Nat.{mod-eq_of_lt}
use k_panic.Libc.Text.{digits_from, parse, IsDigit, AllDigits, decimal}

le-decimal : (s : List ℕ) (n : ℕ) → n ≤ decimal n s
le-decimal [] n = omega arith
le-decimal (c ∷ s) n = omega (arith, le-decimal s (n * 10 + (c - b'0')))

digits_from_lem :
    (w : ℕ) (s rest : List ℕ) (e n : ℕ)
    → AllDigits s
    → ¬ IsDigit e
    → decimal n s < 2 ^ w
    → digits_from w (s ++ (e ∷ rest)) n ≡ some (decimal n s)
unfolding digits_from
digits_from_lem w [] rest e n h stop fits = ground arith
digits_from_lem w (c ∷ s) rest e n (hc, hs) stop fits =
    let m = n * 10 + (c - b'0') in
    ground (
      arith,
      digits_from_lem w s rest e m hs stop fits,
      mod-eq_of_lt {n = m} {m = 2 ^ w} (omega (arith, le-decimal s m)),
    )

-- A decimal text that stands before a byte that is no digit and no sign is read as its number, as
-- long as that fits in the bits of the type; behind a minus sign, as its negation.
pub parse_lem :
    (w : ℕ) (s rest : List ℕ) (e : ℕ)
    → AllDigits s
    → ¬ IsDigit e
    → e ≢ b'-'
    → e ≢ b'+'
    → decimal 0 s < 2 ^ w
    → (parse w (s ++ (e ∷ rest)) ≡ some (decimal 0 s))
      × (parse w (b'+' ∷ (s ++ (e ∷ rest))) ≡ some (decimal 0 s))
      × (parse w (b'-' ∷ (s ++ (e ∷ rest))) ≡ some ((2 ^ w - decimal 0 s) % 2 ^ w))
unfolding parse
parse_lem w [] rest e h stop minus plus fits =
    let d = digits_from_lem w [] rest e 0 h stop fits in
    (ground (arith, d), ground (arith, d), ground (arith, d))
parse_lem w (c ∷ s) rest e h stop minus plus fits =
    let d = digits_from_lem w (c ∷ s) rest e 0 h stop fits in
    (ground (arith, d), ground (arith, d), ground (arith, d))
