-- ===== src/MinixStorageManager/Search.antt =====
-- The loops of `allocZone` and `allocInode` look at the bits in a circle.
use mathlib.Core.Path.{subst}
use k_panic.Base.{
  ℕ, zero, suc, ◌+◌, ◌-◌, ◌≤◌, ◌<◌, ◌==◌, ◌≡◌, refl, ap, sym, ◌∙◌, Bool, true, false, ◌⊎◌, inl, inr,
  ◌&&◌, arith, ltb, leb, if◌then◌else◌, Bool-cases,
}
use k_panic.Bitmap.{Bitmap, get_bit}
use k_panic.MinixStorageManager.{
  SearchResult, clear_at, exhausted, still_searching, search_zone, search_inode,
}

-- The position that is looked at after `k` others, by a search that starts behind `curr`.
abbrev pub circle : ℕ → ℕ → ℕ → ℕ
circle n curr k = if ltb (curr + 1 + k) n then curr + 1 + k else curr + 1 + k - n

-- The search looked at `steps` bits that are set, and then at a clear one.
pub record FirstClear (b : Bitmap) (curr k n p : ℕ) : Type 0 where
  pub steps : ℕ
  pub in_range : steps < n
  pub place : p ≡ circle b.size curr (k + steps)
  pub is_clear : get_bit b p ≡ false
  pub others_set : (i : ℕ) → i < steps → get_bit b (circle b.size curr (k + i)) ≡ true

-- The `n` bits from the `k`th on are set.
unfoldable pub AllSet : Bitmap → ℕ → ℕ → ℕ → Type 0
AllSet b curr k n = (i : ℕ) → i < n → get_bit b (circle b.size curr (k + i)) ≡ true

pub data Outcome (b : Bitmap) (curr k n : ℕ) : SearchResult → Type 0 where
  finds : (p : ℕ) → FirstClear b curr k n p → Outcome b curr k n (clear_at p)
  finds_none : AllSet b curr k n → Outcome b curr k n exhausted

circle-suc : (n curr k i : ℕ) → circle n curr (k + suc i) ≡ circle n curr (suc k + i)
circle-suc n curr k i = ap (circle n curr) (omega arith)

later_AllSet :
    (b : Bitmap) (curr k n : ℕ)
    → get_bit b (circle b.size curr k) ≡ true
    → AllSet b curr (suc k) n
    → AllSet b curr k (suc n)
unfolding AllSet
later_AllSet b curr k n first all zero h =
    let same : circle b.size curr (k + 0) ≡ circle b.size curr k =
      ap (circle b.size curr) (omega arith) in
    ap (get_bit b) same ∙ first
later_AllSet b curr k n first all (suc i) h =
    ap (get_bit b) (circle-suc b.size curr k i) ∙ all i (omega (arith, h))

later_FirstClear :
    (b : Bitmap) (curr k n p : ℕ)
    → get_bit b (circle b.size curr k) ≡ true
    → FirstClear b curr (suc k) n p
    → FirstClear b curr k (suc n) p
unfolding AllSet
later_FirstClear b curr k n p first f = record {
  steps = suc f.steps;
  in_range = omega (arith, f.in_range);
  place = f.place ∙ sym (circle-suc b.size curr k f.steps);
  is_clear = f.is_clear;
  others_set = later_AllSet b curr k f.steps first f.others_set;
}

later_Outcome :
    (b : Bitmap) (curr k n : ℕ) (r : SearchResult)
    → get_bit b (circle b.size curr k) ≡ true
    → Outcome b curr (suc k) n r
    → Outcome b curr k (suc n) r
later_Outcome b curr k n _ first (finds p f) = finds p (later_FirstClear b curr k n p first f)
later_Outcome b curr k n _ first (finds_none all) = finds_none (later_AllSet b curr k n first all)

none_left : (b : Bitmap) (curr k : ℕ) → Outcome b curr k 0 exhausted
unfolding AllSet
none_left b curr k = finds_none λ i h. absurd (omega (arith, h))

here_FirstClear :
    (b : Bitmap) (curr k n : ℕ)
    → get_bit b (circle b.size curr k) ≡ false
    → FirstClear b curr k (suc n) (circle b.size curr k)
here_FirstClear b curr k n free = record {
  steps = 0;
  in_range = omega arith;
  place = ap (circle b.size curr) (omega arith);
  is_clear = free;
  others_set = λ i h. absurd (omega (arith, h));
}

finds_here :
    (b : Bitmap) (curr k n : ℕ)
    → get_bit b (circle b.size curr k) ≡ false
    → Outcome b curr k (suc n) (clear_at (circle b.size curr k))
finds_here b curr k n free = finds _ (here_FirstClear b curr k n free)

-- The position that the loop is at before it looks at the `k`th bit.
abbrev loop_pos : ℕ → ℕ → ℕ → ℕ
loop_pos n curr k = if leb (curr + 1 + k) n then curr + 1 + k else curr + 1 + k - n

loop_pos-circle :
    (n curr k : ℕ)
    → curr < n
    → suc k < n
    → ((if leb n (loop_pos n curr k) then 0 else loop_pos n curr k) ≡ circle n curr k)
      × (circle n curr k + 1 ≡ loop_pos n curr (suc k))
loop_pos-circle n curr k h l = (ground arith, ground arith)

search_zone-turn :
    (fuel curr pos at next : ℕ) (b : Bitmap)
    → (pos == curr) ≡ false
    → (leb b.size pos && curr == 0) ≡ false
    → (if leb b.size pos then 0 else pos) ≡ at
    → at + 1 ≡ next
    → search_zone (suc fuel) b curr pos
      ≡ (if get_bit b at then search_zone fuel b curr next else clear_at at)
unfolding search_zone
search_zone-turn fuel curr pos at next b e1 e2 e3 e4 = ground arith

search_zone-step :
    (fuel curr k : ℕ) (b : Bitmap)
    → curr < b.size
    → suc k < b.size
    → search_zone (suc fuel) b curr (loop_pos b.size curr k) ≡ (
        if get_bit b (circle b.size curr k)
        then search_zone fuel b curr (loop_pos b.size curr (suc k))
        else clear_at (circle b.size curr k))
unfolding search_zone
search_zone-step fuel curr k b h l =
    let (at, next) = loop_pos-circle b.size curr k h l in
    search_zone-turn fuel curr _ _ _ b (ground arith) (ground arith) at next

search_zone-end :
    (fuel curr k : ℕ) (b : Bitmap)
    → curr < b.size
    → suc k ≡ b.size
    → search_zone (suc fuel) b curr (loop_pos b.size curr k) ≡ exhausted
unfolding search_zone
search_zone-end fuel curr k b h l = ground arith

if_either :
    (P : SearchResult → Type 0) (x : Bool) (r s : SearchResult)
    → (x ≡ true → P r)
    → (x ≡ false → P s)
    → P (if x then r else s)
if_either P true r s h g = h refl
if_either P false r s h g = g refl

-- With fuel for the bits that are left and one turn more, the loop of `allocZone` ends, at the first
-- clear bit in its circle or where it began.
pub search_zone-Outcome :
    (fuel curr k n : ℕ) (b : Bitmap)
    → n < fuel
    → curr < b.size
    → suc k + n ≡ b.size
    → Outcome b curr k n (search_zone fuel b curr (loop_pos b.size curr k))
search_zone-Outcome zero curr k n b f h l = absurd (omega (arith, f))
search_zone-Outcome (suc fuel) curr k zero b f h l =
    subst (Outcome b curr k zero) (sym (search_zone-end fuel curr k b h (omega (arith, l))))
      (none_left b curr k)
search_zone-Outcome (suc fuel) curr k (suc n) b f h l =
    subst (Outcome b curr k (suc n)) (sym (search_zone-step fuel curr k b h (omega (arith, l)))) (
      if_either (Outcome b curr k (suc n)) (get_bit b (circle b.size curr k)) _ _
        (λ used.
          later_Outcome b curr k n _ used
            (search_zone-Outcome fuel curr (suc k) n b (omega (arith, f)) h (omega (arith, l))))
        (finds_here b curr k n))

-- Away from the position 0 the two loops are the same.
pub search_inode-search_zone :
    (fuel curr pos : ℕ) (b : Bitmap)
    → 0 < curr
    → search_inode fuel b curr pos ≡ search_zone fuel b curr pos
unfolding search_inode search_zone
search_inode-search_zone zero curr pos b h = refl
search_inode-search_zone (suc fuel) curr pos b h =
    let rest = search_inode-search_zone fuel curr ((if leb b.size pos then 0 else pos) + 1) b h in
    ground (arith, rest)

-- From the position 0 the loop of `allocInode` never stops at a full table.
pub search_inode_endless :
    (fuel pos : ℕ) (b : Bitmap)
    → 0 < b.size
    → 0 < pos
    → ((q : ℕ) → q < b.size → get_bit b q ≡ true)
    → search_inode fuel b 0 pos ≡ still_searching
unfolding search_inode
search_inode_endless zero pos b s h all = refl
search_inode_endless (suc fuel) pos b s h all =
    let at = if leb b.size pos then 0 else pos in
    let rest = search_inode_endless fuel (at + 1) b s (omega arith) all in
    let used = all at (ground arith) in ground (arith, rest, used)

search_inode-used :
    (fuel k : ℕ) (b : Bitmap)
    → suc k < b.size
    → get_bit b (circle b.size 0 k) ≡ true
    → search_inode (suc fuel) b 0 (suc k) ≡ search_inode fuel b 0 (suc (suc k))
unfolding search_inode
search_inode-used fuel k b h used =
    let at : (if leb b.size (suc k) then 0 else suc k) ≡ circle b.size 0 k = ground arith in
    let next : circle b.size 0 k + 1 ≡ suc (suc k) = ground arith in ground (arith, at, next, used)

search_inode-clear :
    (fuel k : ℕ) (b : Bitmap)
    → k < b.size
    → get_bit b (circle b.size 0 k) ≡ false
    → search_inode (suc fuel) b 0 (suc k) ≡ clear_at (circle b.size 0 k)
unfolding search_inode
search_inode-clear fuel k b h free =
    let at : (if leb b.size (suc k) then 0 else suc k) ≡ circle b.size 0 k = ground arith in
    ground (arith, at, free)

-- From the position 0 it finds the first clear bit, if there is one.
pub search_inode-first :
    (fuel k n : ℕ) (b : Bitmap)
    → n ≤ fuel
    → k + n ≡ b.size
    → AllSet b 0 k n
      ⊎ ((p : ℕ) × (FirstClear b 0 k n p × (search_inode fuel b 0 (suc k) ≡ clear_at p)))
unfolding AllSet
search_inode-first fuel k zero b h l = inl (λ i j. absurd (omega (arith, j)))
search_inode-first zero k (suc n) b h l = absurd (omega (arith, h))
search_inode-first (suc fuel) k (suc n) b h l = elim (Bool-cases (get_bit b (circle b.size 0 k))) [
  | inl used ↦ elim (search_inode-first fuel (suc k) n b (omega (arith, h)) (omega (arith, l))) [
    | inl all ↦ inl (later_AllSet b 0 k n used all)
    | inr (p, (f, e)) ↦
        let more : suc k < b.size = omega (arith, f.in_range, l) in
        inr (p, (later_FirstClear b 0 k n p used f, search_inode-used fuel k b more used ∙ e))
  ]
  | inr free ↦ inr (
    circle b.size 0 k,
    (here_FirstClear b 0 k n free, search_inode-clear fuel k b (omega (arith, l)) free),
  )
]
