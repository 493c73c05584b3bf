-- ===== src/KString/Move.antt =====
-- What `memmove` and `bcopy` leave in memory.
use k_panic.Base.{
  ℕ, zero, suc, ◌+◌, ◌-◌, ◌≤◌, ◌<◌, ◌≡◌, ◌⊎◌, inl, inr, ◌&&◌, leb, ltb, if◌then◌else◌, arith,
  length, get_or, set, length-set, ℕ_discrete,
}
use k_panic.Libc.Memory.{Bytes, get_or-set}
use k_panic.KString.{copy_up, copy_down, memmove, bcopy}

pub get_or-copy_up :
    (n : ℕ) (m : Bytes) (dest src j : ℕ)
    → dest < src
    → dest + n ≤ length m
    → get_or (copy_up n m dest src) j 0
      ≡ (if leb dest j && ltb j (dest + n) then get_or m (src + (j - dest)) 0 else get_or m j 0)
unfolding copy_up
get_or-copy_up zero m dest src j below fits = ground arith
get_or-copy_up (suc n) m dest src j below fits =
    let v = get_or m src 0 in
    ground (
      arith,
      get_or-copy_up n (set m dest v) (dest + 1) (src + 1) j (omega arith)
          (omega (arith, length-set m dest v)),
      get_or-set m dest j v,
      get_or-set m dest (src + 1 + (j - (dest + 1))) v,
    )

-- `d` and `s` are the last addresses of the areas.
pub get_or-copy_down :
    (n : ℕ) (m : Bytes) (dest src d s j : ℕ)
    → (src < dest) ⊎ (dest + n ≤ src)
    → dest + n ≤ length m
    → (n ≡ 0) ⊎ ((d + 1 ≡ dest + n) × (s + 1 ≡ src + n))
    → get_or (copy_down n m d s) j 0
      ≡ (if leb dest j && ltb j (dest + n) then get_or m (src + (j - dest)) 0 else get_or m j 0)
unfolding copy_down
get_or-copy_down zero m dest src d s j above fits ends = ground arith
get_or-copy_down (suc n) m dest src d s j above fits (inl none) = absurd (omega arith)
get_or-copy_down (suc n) m dest src d s j above fits (inr ends) =
    let v = get_or m s 0 in
    ground (
      arith,
      get_or-copy_down n (set m d v) dest src (d - 1) (s - 1) j (weaker above)
          (omega (arith, length-set m d v)) (shorter ends),
      get_or-set m d j v,
      get_or-set m d (src + (j - dest)) v,
    )
  where
    weaker : (src < dest) ⊎ (dest + suc n ≤ src) → (src < dest) ⊎ (dest + n ≤ src)
    weaker (inl e) = inl e
    weaker (inr e) = inr (omega arith)

    shorter :
        (d + 1 ≡ dest + suc n) × (s + 1 ≡ src + suc n)
        → (n ≡ 0) ⊎ ((d - 1 + 1 ≡ dest + n) × (s - 1 + 1 ≡ src + n))
    shorter e = elim (ℕ_discrete n 0) [ yes last ↦ inl last | no more ↦ inr (omega arith) ]

-- `memmove` inside the memory, however the areas overlap: every byte of the destination is what the
-- source had there before the call, and every other byte stays.
pub memmove_lem :
    (m : Bytes) (dest src n j : ℕ)
    → dest + n ≤ length m
    → src + n ≤ length m
    → get_or (memmove m dest src n) j 0
      ≡ (if leb dest j && ltb j (dest + n) then get_or m (src + (j - dest)) 0 else get_or m j 0)
unfolding memmove
memmove_lem m dest src n j h k = ground (
  arith,
  get_or-copy_up n m dest src j,
  get_or-copy_down n m dest src (dest + n - 1) (src + n - 1) j,
)

-- `bcopy` towards lower addresses is off by one: where the source stands behind the destination
-- with room between, the byte at the destination's start is not copied, and the one behind its end
-- is overwritten with the one behind the source.
pub bcopy_off_by_one :
    (m : Bytes) (src dest n : ℕ)
    → 0 < n
    → dest + n < src
    → src + n < length m
    → (get_or (bcopy m src dest n) dest 0 ≡ get_or m dest 0)
      × (get_or (bcopy m src dest n) (dest + n) 0 ≡ get_or m (src + n) 0)
unfolding bcopy
bcopy_off_by_one m src dest n pos apart inside =
    let moved = λ (j : ℕ).
      get_or-copy_down n m (dest + 1) (src + 1) (dest + n) (src + n) j (inr (omega arith))
        (omega arith) (inr (omega arith)) in
    (ground (arith, moved dest), ground (arith, moved (dest + n)))
