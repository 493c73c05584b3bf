-- ===== src/KString/Copy.antt =====
-- What `strncpy` leaves in memory.
use k_panic.Base.{
  ℕ, zero, suc, ◌+◌, ◌≤◌, ◌<◌, ◌==◌, ◌≡◌, ◌⊎◌, refl, ap, ◌∙◌, Bool, false, ◌||◌, if◌then◌else◌,
  arith, length, get_or, set, length-set,
}
use k_panic.Libc.Memory.{Bytes, get_or-set}
use k_panic.KString.{strncpy_loop, strncpy}

-- Whether one of the first `n` bytes from an address on is 0.
abbrev pub ends_within : ℕ → Bytes → ℕ → Bool
ends_within zero m src = false
ends_within (suc n) m src = get_or m src 0 == 0 || ends_within n m (src + 1)

ends_within-set :
    (n : ℕ) (m : Bytes) (src at v : ℕ)
    → (at < src) ⊎ (src + n ≤ at)
    → ends_within n (set m at v) src ≡ ends_within n m src
ends_within-set zero m src at v h = refl
ends_within-set (suc n) m src at v h =
    ground (arith, get_or-set m at src v, ends_within-set n m (src + 1) at v (nearer h))
  where
    nearer : (at < src) ⊎ (src + suc n ≤ at) → (at < src + 1) ⊎ (src + 1 + n ≤ at)
    nearer e = omega arith

strncpy_loop_outside :
    (n : ℕ) (filling : Bool) (m : Bytes) (dest src j : ℕ)
    → (j < dest) ⊎ (dest + n ≤ j)
    → get_or (strncpy_loop n filling m dest src) j 0 ≡ get_or m j 0
unfolding strncpy_loop
strncpy_loop_outside zero filling m dest src j out = refl
strncpy_loop_outside (suc n) filling m dest src j out =
    let c = if filling then 0 else get_or m src 0 in
    strncpy_loop_outside n (filling || c == 0) (set m dest c) (dest + 1) (src + 1) j (omega arith)
    ∙ ground (arith, get_or-set m dest j c)

strncpy_loop_inside :
    (n : ℕ) (filling : Bool) (m : Bytes) (dest src i : ℕ)
    → (src + n ≤ dest) ⊎ (dest + n ≤ src)
    → dest + n ≤ length m
    → i < n
    → get_or (strncpy_loop n filling m dest src) (dest + i) 0
      ≡ (if filling || ends_within i m src then 0 else get_or m (src + i) 0)
unfolding strncpy_loop
strncpy_loop_inside zero filling m dest src i apart fits h = absurd (omega arith)
strncpy_loop_inside (suc n) filling m dest src zero apart fits h =
    let c = if filling then 0 else get_or m src 0 in
    strncpy_loop_outside n (filling || c == 0) (set m dest c) (dest + 1) (src + 1) (dest + 0)
      (omega arith)
    ∙ ground (arith, get_or-set m dest (dest + 0) c)
strncpy_loop_inside (suc n) filling m dest src (suc i) apart fits h =
    let c = if filling then 0 else get_or m src 0 in
    let next : dest + suc i ≡ dest + 1 + i = omega arith in
    ap (λ j. get_or (strncpy_loop n (filling || c == 0) (set m dest c) (dest + 1) (src + 1)) j 0)
      next
    ∙ strncpy_loop_inside n (filling || c == 0) (set m dest c) (dest + 1) (src + 1) i (omega arith)
        (omega (arith, length-set m dest c)) (omega arith)
    ∙ ground (
      arith,
      ends_within-set i m (src + 1) dest c (omega arith),
      get_or-set m dest (src + 1 + i) c,
    )

-- `strncpy` between areas inside the memory that do not overlap: the destination gets the bytes of
-- the text up to its end, and zeros behind that up to the size; every byte outside the destination
-- stays. The text need not end within the size.
pub strncpy_lem :
    (m : Bytes) (dest src n : ℕ)
    → (src + n ≤ dest) ⊎ (dest + n ≤ src)
    → dest + n ≤ length m
    → ((i : ℕ)
        → i < n
        → get_or (strncpy m dest src n) (dest + i) 0
          ≡ (if ends_within i m src then 0 else get_or m (src + i) 0))
      × ((j : ℕ) → (j < dest) ⊎ (dest + n ≤ j) → get_or (strncpy m dest src n) j 0 ≡ get_or m j 0)
unfolding strncpy
strncpy_lem m dest src n apart fits = (
  λ i h. strncpy_loop_inside n false m dest src i apart fits h,
  λ j out. strncpy_loop_outside n false m dest src j out,
)
