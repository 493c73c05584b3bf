-- ===== src/Libc/Memory.antt =====
-- `memcpy`, `memset` and `memcmp` of userspace/libc/src/string.c over a flat memory: an address is
-- an index into the list of bytes. A store out of the memory changes nothing, and a load out of it
-- gives 0; the theorems ask for ranges inside.
use k_panic.Base.{
  ℕ, zero, suc, ◌+◌, ◌-◌, ◌%◌, ◌≤◌, ◌<◌, ◌==◌, ◌≡◌, refl, ◌≢◌, ◌↔◌, ◌∙◌, Bool, ◌&&◌, ◌||◌, List, [],
  ◌∷◌, arith, ltb, leb, if◌then◌else◌, length, get_or, set, length-set, ◌⊎◌, inl, inr, sym, dec_lt,
  ℕ_discrete,
}
use k_panic.Base.Int.{ℤ, pos, ◌-ℤ◌, signed}

abbrev pub Bytes : Type 0
Bytes = List ℕ

-- `while(number_of_bytes--) *byte_destination++ = *byte_source++;`
copy : ℕ → Bytes → ℕ → ℕ → Bytes
copy zero m dst src = m
copy (suc n) m dst src = copy n (set m dst (get_or m src 0)) (dst + 1) (src + 1)

-- The test for areas that overlap.
overlap : ℕ → ℕ → ℕ → Bool
overlap dst src n = ltb src (dst + n) && ltb dst src || ltb dst (src + n) && ltb src dst

pub memcpy : Bytes → ℕ → ℕ → ℕ → Bytes
unfolding copy overlap
memcpy m dst src n =
    if overlap dst src n then m else if n == 0 || src == dst then m else copy n m dst src

-- `while(number_of_bytes--) *byte_block++ = (char) value;`
fill : ℕ → Bytes → ℕ → ℕ → Bytes
fill zero m at value = m
fill (suc n) m at value = fill n (set m at (value % 256)) (at + 1) value

pub memset : Bytes → ℕ → ℕ → ℕ → Bytes
unfolding fill
memset m at value n = fill n m at value

-- The loop of `memcmp`; a `char` is signed.
pub memcmp : ℕ → Bytes → ℕ → ℕ → ℤ
memcmp zero m a b = pos 0
memcmp (suc n) m a b =
    let rest = memcmp n m (a + 1) (b + 1) in
    if get_or m a 0 == get_or m b 0
    then rest
    else signed 8 (get_or m a 0) -ℤ signed 8 (get_or m b 0)

-- One byte of a memory in which one was stored.
pub get_or-set :
    (m : Bytes) (i j v : ℕ)
    → get_or (set m i v) j 0 ≡ (if (i == j) && ltb i (length m) then v else get_or m j 0)
get_or-set [] i j v = ground arith
get_or-set (x ∷ m) zero zero v = ground arith
get_or-set (x ∷ m) zero (suc j) v = ground arith
get_or-set (x ∷ m) (suc i) zero v = ground arith
get_or-set (x ∷ m) (suc i) (suc j) v = ground (arith, get_or-set m i j v)

-- The byte at `j` after `n` bytes were copied upwards between areas that do not overlap.
get_or-copy :
    (n : ℕ) (m : Bytes) (dst src j : ℕ)
    → dst + n ≤ length m
    → (src + n ≤ dst) ⊎ (dst + n ≤ src)
    → get_or (copy n m dst src) j 0
      ≡ (if leb dst j && ltb j (dst + n) then get_or m (src + (j - dst)) 0 else get_or m j 0)
unfolding copy
get_or-copy zero m dst src j h apart = ground arith
get_or-copy (suc n) m dst src j h apart =
    let v = get_or m src 0 in
    let m' = set m dst v in
    ground (
      arith,
      get_or-copy n m' (dst + 1) (src + 1) j (omega (arith, length-set m dst v)) (step apart),
      get_or-set m dst j v,
      get_or-set m dst (src + 1 + (j - (dst + 1))) v,
    )
  where
    step :
        (src + suc n ≤ dst) ⊎ (dst + suc n ≤ src)
        → (src + 1 + n ≤ dst + 1) ⊎ (dst + 1 + n ≤ src + 1)
    step h = omega arith

-- `memcpy` inside the memory, byte by byte: between areas that do not overlap the destination gets
-- the source's bytes and all else stays; between areas that overlap nothing is copied at all.
pub memcpy_lem :
    (m : Bytes) (dst src n j : ℕ)
    → dst + n ≤ length m
    → src + n ≤ length m
    → get_or (memcpy m dst src n) j 0 ≡ (
        if leb (src + n) dst || leb (dst + n) src
        then if leb dst j && ltb j (dst + n) then get_or m (src + (j - dst)) 0 else get_or m j 0
        else get_or m j 0)
unfolding memcpy
memcpy_lem m dst src n j h k = elim (dec_lt dst (src + n)) [
  | yes p ↦ elim (dec_lt src (dst + n)) [
    | yes q ↦ ground arith
    | no q ↦ ground (arith, get_or-copy n m dst src j h (inr (omega arith)))
  ]
  | no p ↦ ground (arith, get_or-copy n m dst src j h (inl (omega arith)))
]

-- `memset` inside the memory sets exactly the bytes of the area, to the low byte of the value.
pub memset_lem :
    (m : Bytes) (at value n j : ℕ)
    → at + n ≤ length m
    → get_or (memset m at value n) j 0
      ≡ (if leb at j && ltb j (at + n) then value % 256 else get_or m j 0)
unfolding memset
memset_lem m at value zero j h = ground arith
memset_lem m at value (suc n) j h = ground (
  arith,
  memset_lem (set m at (value % 256)) (at + 1) value n j
      (omega (arith, length-set m at (value % 256))),
  get_or-set m at j (value % 256),
)

diff_ne : (x y : ℕ) → x < 256 → y < 256 → x ≢ y → signed 8 x -ℤ signed 8 y ≢ pos 0
unfolding ◌-ℤ◌
diff_ne x y hx hy ne = ground arith

all_from :
    (n : ℕ) (m : Bytes) (a b : ℕ)
    → get_or m a 0 ≡ get_or m b 0
    → ((i : ℕ) → i < n → get_or m (a + 1 + i) 0 ≡ get_or m (b + 1 + i) 0)
    → (i : ℕ) → i < suc n
    → get_or m (a + i) 0 ≡ get_or m (b + i) 0
all_from n m a b e same zero h = ground arith
all_from n m a b e same (suc i) h = ground (arith, same i (omega arith))

memcmp_same :
    (n : ℕ) (m : Bytes) (a b : ℕ)
    → get_or m a 0 ≡ get_or m b 0
    → memcmp (suc n) m a b ≡ memcmp n m (a + 1) (b + 1)
unfolding memcmp
memcmp_same n m a b e = ground arith

-- In a memory of bytes, `memcmp` gives 0 exactly for two areas that hold the same bytes.
pub memcmp-zero_iff :
    (n : ℕ) (m : Bytes) (a b : ℕ)
    → ((i : ℕ) → get_or m i 0 < 256)
    → (memcmp n m a b ≡ pos 0) ↔ ((i : ℕ) → i < n → get_or m (a + i) 0 ≡ get_or m (b + i) 0)
unfolding memcmp
memcmp-zero_iff zero m a b bytes = ((λ _ i h. elim h [ ]), (λ _. refl))
memcmp-zero_iff (suc n) m a b bytes = elim (ℕ_discrete (get_or m a 0) (get_or m b 0)) [
  | yes e ↦
      let ih = memcmp-zero_iff n m (a + 1) (b + 1) bytes in
      (
        (λ h. all_from n m a b e (ih.0 (sym (memcmp_same n m a b e) ∙ h))),
        (λ h. memcmp_same n m a b e ∙ ih.1 (λ i lt. ground (arith, h (suc i) (omega arith)))),
      )
  | no e ↦ (
    (λ h i lt. absurd (diff_ne (get_or m a 0) (get_or m b 0) (bytes a) (bytes b) e (ground arith))),
    (λ h. absurd (e (ground (arith, h 0)))),
  )
]
