-- ===== src/RingBuffer/Refine.antt =====
-- A ring behaves as the bounded queue of what it holds.
use k_panic.Base.{
  ℕ, suc, ◌+◌, ◌-◌, ◌%◌, ◌≤◌, ◌<◌, ◌==◌, ◌≡◌, refl, sym, ap, ◌∙◌, ◌≢◌, true, false, none, some,
  List, [], ◌∷◌, ◌++◌, length, get_elem?, set, arith, ltb, if◌then◌else◌, length-set, length-append,
  get_elem?-set_self, get_elem?-set_ne, dec_lt,
}
use native.Mathlib.Nat.{mod-eq_of_lt, mod-eq-sub-mod, mod-lt, mod-add-mod, add_assoc, add-zero}
use k_panic.RingBuffer.{RingBuffer, create, put, get, clear, inc_proc_count}

-- One turn round a ring of `n` places, from a place of it.
pub wrap : (a b n : ℕ) → a < n → b ≤ n → (a + b) % n ≡ (if ltb (a + b) n then a + b else a + b - n)
wrap a b n h k = elim (dec_lt (a + b) n) [
  | yes p ↦ ground (arith, mod-eq_of_lt p)
  | no p ↦ ground (
    arith,
    mod-eq-sub-mod {n = a + b} {m = n} (omega arith),
    mod-eq_of_lt {n = a + b - n} {m = n} (omega arith),
  )
]

-- Fewer than `n` steps round a ring do not come back to the start.
pub step_ne : {n h k : ℕ} → h < n → suc k < n → (h + suc k) % n ≢ h
step_ne {n} {h} {k} p q = ground (arith, wrap h (suc k) n p (omega arith))

-- The places of a ring are used up exactly when the position to write meets the position to read.
pub full_iff : (n r len : ℕ) → r < n → len < n → (((r + 1 + len) % n == r) ≡ (len + 1 == n))
full_iff n r len p q = ground (arith, wrap r (1 + len) n p (omega arith), add_assoc r 1 len)

pub empty_iff : (n r len : ℕ) → r < n → len < n → (((r + 1 + len) % n == (r + 1) % n) ≡ (len == 0))
empty_iff n r len p q =
    ground
      (arith, wrap r (1 + len) n p (omega arith), add_assoc r 1 len, wrap r 1 n p (omega arith))

module _ {ℓ} {T : Type ℓ} where
  -- The places from `h` on hold the items of the list.
  abbrev pub Holds : List T → ℕ → ℕ → List T → Type ℓ
  Holds buf n h [] = Unit
  Holds buf n h (x ∷ q) = (get_elem? buf h ≡ some x) × Holds buf n ((h + 1) % n) q

  -- The ring `r` holds the items `q`, oldest first.
  pub record Represents (r : RingBuffer T) (q : List T) : Type ℓ where
    pub storage : length r.buffer ≡ r.buffer_size
    pub read_in : r.read_pos < r.buffer_size
    pub room : length q < r.buffer_size
    pub write_at : r.write_pos ≡ (r.read_pos + 1 + length q) % r.buffer_size
    pub holds : Holds r.buffer r.buffer_size ((r.read_pos + 1) % r.buffer_size) q

  pub create-Represents :
      (storage : List T) (size : ℕ)
      → 1 < size
      → length storage ≡ size
      → Represents (create storage size) []
  unfolding create
  create-Represents storage size h e = record {
    storage = e;
    read_in = omega arith;
    room = omega arith;
    write_at = omega (arith, mod-eq_of_lt {n = 1} {m = size} h);
    holds = tt;
  }

  pub inc_proc_count-Represents :
      (r : RingBuffer T) (q : List T) → Represents r q → Represents (inc_proc_count r) q
  unfolding inc_proc_count
  inc_proc_count-Represents r q v = record {
    storage = v.storage;
    read_in = v.read_in;
    room = v.room;
    write_at = v.write_at;
    holds = v.holds;
  }

  -- Writing at the first free place appends the item.
  Holds-set :
      (buf : List T) (n : ℕ) (x : T) (q : List T) (h i : ℕ)
      → length buf ≡ n
      → h < n
      → length q < n
      → i ≡ (h + length q) % n
      → Holds buf n h q
      → Holds (set buf i x) n h (q ++ (x ∷ []))
  Holds-set buf n x [] h i e p r w _ =
      let at : i ≡ h = w ∙ (rw add-zero (mod-eq_of_lt p)) in
      (rw at (get_elem?-set_self buf h x (omega arith)), tt)
  Holds-set buf n x (y ∷ q) h i e p r w (first, rest) = (
    get_elem?-set_ne buf x (λ at. step_ne p r (sym w ∙ at)) ∙ first,
    Holds-set buf n x q ((h + 1) % n) i e (mod-lt (h + 1) (omega arith)) (omega arith) (w ∙ shift)
        rest,
  )
    where
      shift : (h + suc (length q)) % n ≡ ((h + 1) % n + length q) % n
      shift = rw mod-add-mod (ap (λ k. k % n) (omega arith))

  put_open :
      (r : RingBuffer T) (x : T)
      → (r.write_pos == r.read_pos) ≡ false
      → put r x ≡ (
        true,
        record r {
          buffer = set r.buffer r.write_pos x;
          write_pos = (r.write_pos + 1) % r.buffer_size;
        },
      )
  unfolding put
  put_open r x e = rw e

  put_full : (r : RingBuffer T) (x : T) → (r.write_pos == r.read_pos) ≡ true → put r x ≡ (false, r)
  unfolding put
  put_full r x e = rw e

  -- `put` on a ring with room stores the item behind the others.
  pub put-Represents :
      (r : RingBuffer T) (q : List T) (x : T)
      → Represents r q
      → length q + 1 < r.buffer_size
      → ((put r x).0 ≡ true) × Represents (put r x).1 (q ++ (x ∷ []))
  put-Represents r q x v h =
      rw
        (put_open r x (
          rw v.write_at
            (full_iff r.buffer_size r.read_pos (length q) v.read_in v.room ∙ ground arith)))
        (
          refl,
          record {
            storage = length-set r.buffer r.write_pos x ∙ v.storage;
            read_in = v.read_in;
            room = omega (arith, length-append q (x ∷ []));
            write_at =
                rw (v.write_at, mod-add-mod, length-append)
                  (ap (λ k. k % r.buffer_size) (omega arith));
            holds =
                Holds-set r.buffer r.buffer_size x q ((r.read_pos + 1) % r.buffer_size) r.write_pos
                  v.storage (mod-lt (r.read_pos + 1) (omega arith)) v.room
                  (v.write_at ∙ (rw mod-add-mod)) v.holds;
          },
        )

  -- `put` on a full ring stores nothing.
  pub put-full :
      (r : RingBuffer T) (q : List T) (x : T)
      → Represents r q
      → length q + 1 ≡ r.buffer_size
      → put r x ≡ (false, r)
  put-full r q x v h =
      put_full r x (
        rw v.write_at
          (full_iff r.buffer_size r.read_pos (length q) v.read_in v.room ∙ ground arith))

  get_next :
      (r : RingBuffer T)
      → (r.write_pos == (r.read_pos + 1) % r.buffer_size) ≡ false
      → get r ≡ (
        get_elem? r.buffer ((r.read_pos + 1) % r.buffer_size),
        record r { read_pos = (r.read_pos + 1) % r.buffer_size },
      )
  unfolding get
  get_next r e = rw e

  get_nothing :
      (r : RingBuffer T)
      → (r.write_pos == (r.read_pos + 1) % r.buffer_size) ≡ true
      → get r ≡ (none, r)
  unfolding get
  get_nothing r e = rw e

  -- `get` on a ring that holds nothing gives nothing.
  pub get-empty : (r : RingBuffer T) → Represents r [] → get r ≡ (none, r)
  get-empty r v =
      get_nothing r
        (rw v.write_at (empty_iff r.buffer_size r.read_pos 0 v.read_in v.room ∙ ground arith))

  -- `get` gives the oldest item, and keeps the others.
  pub get-Represents :
      (r : RingBuffer T) (x : T) (q : List T)
      → Represents r (x ∷ q)
      → ((get r).0 ≡ some x) × Represents (get r).1 q
  get-Represents r x q v =
      rw
        (get_next r (
          rw v.write_at
            (empty_iff r.buffer_size r.read_pos (suc (length q)) v.read_in v.room ∙ ground arith)))
        (
          v.holds.0,
          record {
            storage = v.storage;
            read_in = mod-lt (r.read_pos + 1) (omega arith);
            room = omega arith;
            write_at = v.write_at ∙ shift;
            holds = v.holds.1;
          },
        )
    where
      shift :
          (r.read_pos + 1 + suc (length q)) % r.buffer_size
          ≡ ((r.read_pos + 1) % r.buffer_size + 1 + length q) % r.buffer_size
      shift =
          rw (add_assoc ((r.read_pos + 1) % r.buffer_size) 1 (length q), mod-add-mod)
            (ap (λ k. k % r.buffer_size) (omega arith))

  pub clear-Represents :
      (r : RingBuffer T) (q : List T) → 1 < r.buffer_size → Represents r q → Represents (clear r) []
  unfolding clear
  clear-Represents r q h v = record {
    storage = v.storage;
    read_in = omega arith;
    room = omega arith;
    write_at = omega (arith, mod-eq_of_lt {n = 1} {m = r.buffer_size} h);
    holds = tt;
  }

  pub buffer_size-put : (r : RingBuffer T) (x : T) → (put r x).1.buffer_size ≡ r.buffer_size
  unfolding put
  buffer_size-put r x = ground arith

  pub buffer_size-get : (r : RingBuffer T) → (get r).1.buffer_size ≡ r.buffer_size
  unfolding get
  buffer_size-get r = ground arith
