-- ===== src/RingBuffer/Transfer.antt =====
-- Whole buffers through a ring: the loops of `readFromPipe` and `writeToPipe` in
-- common/source/kernel/UserProcess.cpp.
use Prim.Native.Nat.{min}
use k_panic.Base.{
  ℕ, zero, suc, ◌+◌, ◌-◌, ◌<◌, ◌≡◌, refl, sym, ap, ◌∙◌, true, false, none, some, List, [], ◌∷◌,
  ◌++◌, length, take, drop, arith, append-nil, append_assoc, dec_lt, length-append, Option-cases,
  inl, inr,
}
use mathlib.Core.Path.{subst}
use k_panic.RingBuffer.{RingBuffer, put, get}
use k_panic.RingBuffer.Refine.{
  Represents, put-Represents, put-full, get-empty, get-Represents, buffer_size-put, buffer_size-get,
}

module _ {ℓ} {T : Type ℓ} where
  -- `while (character < count && get(…)) character++`, with the items that were read.
  pub get_items : ℕ → RingBuffer T → List T × RingBuffer T
  get_items zero r = ([], r)
  get_items (suc count) r =
      let (out, r') = get r in
      elim out [ none ↦ ([], r') | some c ↦ let (cs, r'') = get_items count r' in (c ∷ cs, r'') ]

  -- `while (character < count && put(…)) character++`, over the items of the buffer.
  pub put_items : List T → RingBuffer T → ℕ × RingBuffer T
  put_items [] r = (0, r)
  put_items (c ∷ cs) r =
      let (done, r') = put r c in
      elim done [ false ↦ (0, r') | true ↦ let (n, r'') = put_items cs r' in (n + 1, r'') ]

  take-nil : (n : ℕ) → take {A = T} n [] ≡ []
  take-nil zero = refl
  take-nil (suc n) = refl

  -- What a loop of `put` leaves: as many items as there is room for.
  pub record Put (capacity : ℕ) (q cs : List T) (out : ℕ × RingBuffer T) : Type ℓ where
    pub count : out.0 ≡ min (length cs) (capacity - length q)
    pub holds : Represents out.1 (q ++ take (capacity - length q) cs)
    pub size : out.1.buffer_size ≡ capacity + 1

  put_items_stop :
      (c : T) (cs : List T) (r : RingBuffer T)
      → put r c ≡ (false, r)
      → put_items (c ∷ cs) r ≡ (0, r)
  unfolding put_items
  put_items_stop c cs r e = ground arith

  put_items_step :
      (c : T) (cs : List T) (r : RingBuffer T)
      → (put r c).0 ≡ true
      → put_items (c ∷ cs) r ≡ ((put_items cs (put r c).1).0 + 1, (put_items cs (put r c).1).1)
  unfolding put_items
  put_items_step c cs r e = rw (e, put_items)

  take_one_more : (n : ℕ) (c : T) (cs : List T) → 0 < n → take n (c ∷ cs) ≡ c ∷ take (n - 1) cs
  take_one_more zero c cs h = elim h [ ]
  take_one_more (suc n) c cs h = ap (λ k. c ∷ take k cs) (omega arith)

  regroup :
      (capacity : ℕ) (q : List T) (c : T) (cs : List T)
      → length q < capacity
      → (q ++ (c ∷ [])) ++ take (capacity - length (q ++ (c ∷ []))) cs
        ≡ q ++ take (capacity - length q) (c ∷ cs)
  regroup capacity q c cs h =
      rw (append_assoc, take_one_more (capacity - length q) c cs (omega arith))
        (ap (λ k. q ++ (c ∷ take k cs)) (omega (arith, length-append q (c ∷ []))))

  -- The loop of `put` stores as many items as there is room for, the first ones, in order.
  pub put_items-Put :
      (capacity : ℕ) (cs : List T) (r : RingBuffer T) (q : List T)
      → r.buffer_size ≡ capacity + 1
      → Represents r q
      → Put capacity q cs (put_items cs r)
  put_items-Put capacity [] r q e v =
      unfold put_items in
      record { count = omega arith; holds = rw (take-nil, append-nil) v; size = e }
  put_items-Put capacity (c ∷ cs) r q e v = elim (dec_lt (length q) capacity) [
    | yes p ↦
        let (done, w) = put-Represents r q c v (omega arith) in
        let ih =
          put_items-Put capacity cs (put r c).1 (q ++ (c ∷ [])) (buffer_size-put r c ∙ e) w in
        subst (Put capacity q (c ∷ cs)) (sym (put_items_step c cs r done)) (record {
          count = omega (arith, ih.count, length-append q (c ∷ []));
          holds =
              subst (Represents (put_items cs (put r c).1).1) (regroup capacity q c cs p) ih.holds;
          size = ih.size;
        })
    | no p ↦
        let full : capacity - length q ≡ 0 = omega arith in
        subst (Put capacity q (c ∷ cs))
          (sym (put_items_stop c cs r (put-full r q c v (omega (arith, v.room)))))
          (record { count = omega arith; holds = rw (full, append-nil) v; size = e })
  ]

  get_items_stop :
      (count : ℕ) (r : RingBuffer T) → get r ≡ (none, r) → get_items (suc count) r ≡ ([], r)
  unfolding get_items
  get_items_stop count r e = ground arith

  get_items_step :
      (count : ℕ) (r : RingBuffer T) (x : T)
      → (get r).0 ≡ some x
      → get_items (suc count) r ≡ (x ∷ (get_items count (get r).1).0, (get_items count (get r).1).1)
  unfolding get_items
  get_items_step count r x e = rw (e, get_items)

  -- The loop of `get` reads the oldest items, in order, and leaves the others.
  pub get_items_lem :
      (count : ℕ) (r : RingBuffer T) (q : List T)
      → Represents r q
      → ((get_items count r).0 ≡ take count q) × Represents (get_items count r).1 (drop count q)
  get_items_lem zero r q v = unfold get_items in (refl, v)
  get_items_lem (suc count) r [] v = rw (get_items_stop count r (get-empty r v)) (refl, v)
  get_items_lem (suc count) r (x ∷ q) v =
      let (out, w) = get-Represents r x q v in
      let (cs, u) = get_items_lem count (get r).1 q w in
      rw (get_items_step count r x out) (ap (λ l. x ∷ l) cs, u)

  get_items_end :
      (count : ℕ) (r : RingBuffer T) → (get r).0 ≡ none → get_items (suc count) r ≡ ([], (get r).1)
  unfolding get_items
  get_items_end count r e = rw (e, get_items)

  pub buffer_size-get_items :
      (count : ℕ) (r : RingBuffer T) → (get_items count r).1.buffer_size ≡ r.buffer_size
  buffer_size-get_items zero r = unfold get_items in refl
  buffer_size-get_items (suc count) r = elim (Option-cases (get r).0) [
    | inl e ↦ rw (get_items_end count r e) (buffer_size-get r)
    | inr (x, e) ↦
        rw (get_items_step count r x e) (buffer_size-get_items count (get r).1 ∙ buffer_size-get r)
  ]
