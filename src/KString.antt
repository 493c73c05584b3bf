-- ===== src/KString.antt =====
-- The kernel's functions on areas of memory that may overlap, common/source/util/kstring.cpp: an
-- address is an index into the list of bytes, as in Libc/Memory. A store out of the memory changes
-- nothing, and a load out of it gives 0. A pointer that steps below address 0 behind its last use
-- stays at 0.
pub mod Move
pub mod Copy
mod Tests
use k_panic.Base.{
  ℕ, zero, suc, ◌+◌, ◌-◌, ◌==◌, Bool, true, false, ◌||◌, Option, none, some, ltb, if◌then◌else◌,
  get_or, set,
}
use k_panic.Libc.Memory.{Bytes}

-- `while (length--) *dest8++ = *src8++;`
pub copy_up : ℕ → Bytes → ℕ → ℕ → Bytes
copy_up zero m dest src = m
copy_up (suc n) m dest src = copy_up n (set m dest (get_or m src 0)) (dest + 1) (src + 1)

-- `while (length--) *dest8-- = *src8--;`
pub copy_down : ℕ → Bytes → ℕ → ℕ → Bytes
copy_down zero m dest src = m
copy_down (suc n) m dest src = copy_down n (set m dest (get_or m src 0)) (dest - 1) (src - 1)

pub memmove : Bytes → ℕ → ℕ → ℕ → Bytes
unfolding copy_up copy_down
memmove m dest src n =
    if n == 0 || src == dest
    then m
    else if ltb dest src
    then copy_up n m dest src
    else copy_down n m (dest + n - 1) (src + n - 1)

-- The source comes first.
pub bcopy : Bytes → ℕ → ℕ → ℕ → Bytes
unfolding copy_up copy_down
bcopy m src dest n =
    if n == 0 || src == dest
    then m
    else if ltb src dest
    then copy_up n m dest src
    else copy_down n m (dest + n) (src + n)

-- The memory, and the address behind the byte `c` if it was copied.
pub memccpy : ℕ → Bytes → ℕ → ℕ → ℕ → Bytes × Option ℕ
memccpy zero m dest src c = (m, none)
memccpy (suc n) m dest src c =
    let m' = set m dest (get_or m src 0) in
    let rest = memccpy n m' (dest + 1) (src + 1) c in
    if get_or m src 0 == c then (m', some (dest + 1)) else rest

-- The loop of `strncpy`; `fill` is set from the end of the text on.
pub strncpy_loop : ℕ → Bool → Bytes → ℕ → ℕ → Bytes
strncpy_loop zero fill m dest src = m
strncpy_loop (suc n) fill m dest src =
    let c = if fill then 0 else get_or m src 0 in
    strncpy_loop n (fill || c == 0) (set m dest c) (dest + 1) (src + 1)

pub strncpy : Bytes → ℕ → ℕ → ℕ → Bytes
unfolding strncpy_loop
strncpy m dest src n = strncpy_loop n false m dest src
