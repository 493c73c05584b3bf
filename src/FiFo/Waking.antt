-- ===== src/FiFo/Waking.antt =====
-- `put` and `get` lose no wake-up: turn by turn.
use mathlib.Core.Path.{subst}
use k_panic.Base.{
  ℕ, ◌+◌, ◌-◌, ◌≤◌, ◌<◌, ◌≡◌, ◌≢◌, refl, sym, ap, ◌∙◌, Bool, true, none, some, List, [], ◌∷◌, ◌++◌,
  length, drop, arith, ltb, if◌then◌else◌, length-append, ℕ_discrete,
}
use k_panic.RingBuffer.{clear}
use k_panic.RingBuffer.Refine.{Represents, clear-Represents}
use k_panic.FiFo.{PutResult, put_item, get_item, clear_items}
use k_panic.FiFo.Queue
use k_panic.FiFo.Queue.{Policy, waits, drops_new, drops_old}
use k_panic.FiFo.Refine.{
  as_ring, skip_oldest, PutEnds, ends_waiting, ends_dropped, ends_stored, put_item-PutEnds,
  get_item-empty, get_item-next, skip-Represents,
}
use k_panic.FiFo.Monitor.{
  Monitor, Turn, new_put, woken_put, new_get, woken_get, new_clear, signal_reader, signal_writer,
  end_put, end_get, turn, Attended,
}

module _ {ℓ} {T : Type ℓ} where
  some_inj : {a b : Monitor T} → some a ≡ some b → a ≡ b
  some_inj e = cc

  length-drop_one : (q : List T) → length (drop 1 q) ≡ length q - 1
  length-drop_one [] = omega arith
  length-drop_one (x ∷ q) = omega arith

  length-snoc : (q : List T) (x : T) → length (q ++ x ∷ []) ≡ length q + 1
  length-snoc q x = length-append q (x ∷ []) ∙ omega arith

  length-put :
      (p : Policy) (n : ℕ) (q q' : List T) (x : T)
      → 0 < n
      → length q ≤ n
      → Queue.put p n q x ≡ some q'
      → length q' ≡ (if ltb (length q) n then length q + 1 else length q)
  length-put waits n q q' x h l e = let snoc = length-snoc q x in ground (arith, snoc)
  length-put drops_new n q q' x h l e = let snoc = length-snoc q x in ground (arith, snoc)
  length-put drops_old n q q' x h l e =
      let snoc = length-snoc q x in
      let moved : length (drop 1 q ++ x ∷ []) ≡ length q - 1 + 1 =
        length-snoc (drop 1 q) x ∙ ap (λ k. k + 1) (length-drop_one q) in
      ground (arith, snoc, moved)

  put-none : (p : Policy) (n : ℕ) (q : List T) (x : T) → Queue.put p n q x ≡ none → n ≤ length q
  put-none waits n q x e = ground arith
  put-none drops_new n q x e = ground arith
  put-none drops_old n q x e = ground arith

  signal_reader-Attended :
      (strict : Bool) (m : Monitor T) (q : List T)
      → Represents (as_ring m.fifo) q
      → 1 < m.fifo.input_buffer_size
      → (0 < m.readers → length q ≤ m.woken_readers + 1)
      → (strict ≡ true → 0 < m.writers → m.fifo.input_buffer_size ≤ m.woken_writers + length q + 1)
      → Attended strict (signal_reader m)
  signal_reader-Attended strict m q v h rs ws = elim (ℕ_discrete m.readers 0) [
    | yes nobody ↦
        let same : signal_reader m ≡ m = ground arith in
        subst (Attended strict) (sym same) (record {
          items = q;
          holds = v;
          large = h;
          readers_ok = λ k. absurd (omega (arith, k, nobody));
          writers_ok = ws;
        })
    | no somebody ↦
        let wakes : signal_reader m
            ≡ record m { readers = m.readers - 1; woken_readers = m.woken_readers + 1 } =
          ground arith in
        subst (Attended strict) (sym wakes) (record {
          items = q;
          holds = v;
          large = h;
          readers_ok = λ k. rs (omega (arith, somebody));
          writers_ok = ws;
        })
  ]

  signal_writer-Attended :
      (strict : Bool) (m : Monitor T) (q : List T)
      → Represents (as_ring m.fifo) q
      → 1 < m.fifo.input_buffer_size
      → (0 < m.readers → length q ≤ m.woken_readers)
      → (strict ≡ true → 0 < m.writers → m.fifo.input_buffer_size ≤ m.woken_writers + length q + 2)
      → Attended strict (signal_writer m)
  signal_writer-Attended strict m q v h rs ws = elim (ℕ_discrete m.writers 0) [
    | yes nobody ↦
        let same : signal_writer m ≡ m = ground arith in
        subst (Attended strict) (sym same) (record {
          items = q;
          holds = v;
          large = h;
          readers_ok = rs;
          writers_ok = λ _ k. absurd (omega (arith, k, nobody));
        })
    | no somebody ↦
        let wakes : signal_writer m
            ≡ record m { writers = m.writers - 1; woken_writers = m.woken_writers + 1 } =
          ground arith in
        subst (Attended strict) (sym wakes) (record {
          items = q;
          holds = v;
          large = h;
          readers_ok = rs;
          writers_ok =
              λ is_strict k. let old = ws is_strict (omega (arith, somebody)) in omega (arith, old);
        })
  ]

  -- Writing down what a thread in `put` does, by one writer less on its way than before.
  end_put-Attended :
      (strict : Bool) (m : Monitor T) (q : List T) (c : T) (r : PutResult T)
      → Represents (as_ring m.fifo) q
      → 1 < m.fifo.input_buffer_size
      → (0 < m.readers → length q ≤ m.woken_readers)
      → (strict ≡ true → 0 < m.writers → m.fifo.input_buffer_size ≤ m.woken_writers + length q + 2)
      → PutEnds m.fifo q c r
      → Attended strict (end_put m r)
  end_put-Attended strict m q c _ v h rs ws (ends_waiting e) =
      let full = put-none _ _ q c e in
      record {
        items = q;
        holds = v;
        large = h;
        readers_ok = rs;
        writers_ok = λ _ _. omega (arith, full, h);
      }
  end_put-Attended strict m q c _ v h rs ws (ends_dropped e) =
      let room = v.room in
      let full = length-put _ _ q q c (omega (arith, h)) (omega (arith, room)) e in
      record {
        items = q;
        holds = v;
        large = h;
        readers_ok = rs;
        writers_ok = λ _ _. ground (arith, full);
      }
  end_put-Attended strict m q c _ v h rs ws (ends_stored f' q' e w size p) =
      let room = v.room in
      let len = length-put _ _ q q' c (omega (arith, h)) (omega (arith, room)) e in
      signal_reader-Attended strict (record m { fifo = f' }) q' w (omega (arith, h, size))
        (λ some_asleep. let old = rs some_asleep in ground (arith, old, len))
        (λ is_strict some_asleep.
          let old = ws is_strict some_asleep in ground (arith, old, len, size, h, room))

  end_get-Attended :
      (strict : Bool) (m : Monitor T) (q : List T)
      → Represents (as_ring m.fifo) q
      → 1 < m.fifo.input_buffer_size
      → (0 < m.readers → length q ≤ m.woken_readers + 1)
      → (strict ≡ true → 0 < m.writers → m.fifo.input_buffer_size ≤ m.woken_writers + length q + 1)
      → Attended strict (end_get m (get_item m.fifo))
  end_get-Attended strict m [] v h rs ws =
      subst (λ o. Attended strict (end_get m o)) (sym (get_item-empty m.fifo v).0)
        (record {
          items = [];
          holds = v;
          large = h;
          readers_ok = λ _. omega arith;
          writers_ok = ws;
        })
  end_get-Attended strict m (x ∷ q) v h rs ws =
      subst (λ o. Attended strict (end_get m o)) (sym (get_item-next m.fifo x q v).0)
        (signal_writer-Attended strict (record m { fifo = skip_oldest m.fifo }) q
          (skip-Represents m.fifo x q v).1 h (λ k. let old = rs k in omega (arith, old))
          (λ is_strict k. let old = ws is_strict k in omega (arith, old)))

  -- A turn of any thread leaves it so that, while a reader sleeps, there are no more items than readers
  -- on their way, and, but for `clear`, while a writer sleeps, no more free places than writers on
  -- their way: `put` and `get` lose no wake-up.
  pub turn-Attended :
      (strict : Bool) (m m' : Monitor T) (t : Turn T)
      → turn m t ≡ some m'
      → (strict ≡ true → t ≢ new_clear)
      → Attended strict m
      → Attended strict m'
  unfolding turn
  turn-Attended strict m m' (new_put c) e allowed a = subst (Attended strict) (some_inj e) (
      end_put-Attended strict m a.items c _ a.holds a.large a.readers_ok
        (λ is_strict k. let old = a.writers_ok is_strict k in omega (arith, old))
        (put_item-PutEnds m.fifo a.items c a.large a.holds))
  turn-Attended strict m m' (woken_put c) e allowed a = elim (ℕ_discrete m.woken_writers 0) [
    | yes nobody ↦ absurd (ground arith)
    | no somebody ↦
        let goes : end_put (record m { woken_writers = m.woken_writers - 1 }) (put_item m.fifo c)
            ≡ m' =
          ground arith in
        subst (Attended strict) goes (
          end_put-Attended strict (record m { woken_writers = m.woken_writers - 1 }) a.items c _
            a.holds a.large a.readers_ok
            (λ is_strict k. let old = a.writers_ok is_strict k in omega (arith, old, somebody))
            (put_item-PutEnds m.fifo a.items c a.large a.holds))
  ]
  turn-Attended strict m m' new_get e allowed a = subst (Attended strict) (some_inj e) (
      end_get-Attended strict m a.items a.holds a.large
        (λ k. let old = a.readers_ok k in omega (arith, old)) a.writers_ok)
  turn-Attended strict m m' woken_get e allowed a = elim (ℕ_discrete m.woken_readers 0) [
    | yes nobody ↦ absurd (ground arith)
    | no somebody ↦
        let goes : end_get (record m { woken_readers = m.woken_readers - 1 }) (get_item m.fifo)
            ≡ m' =
          ground arith in
        subst (Attended strict) goes (
          end_get-Attended strict (record m { woken_readers = m.woken_readers - 1 }) a.items a.holds
            a.large (λ k. let old = a.readers_ok k in omega (arith, old, somebody)) a.writers_ok)
  ]
  turn-Attended strict m m' new_clear e allowed a = subst (Attended strict) (some_inj e) (record {
    items = [];
    holds = (unfold clear_items clear in clear-Represents (as_ring m.fifo) a.items a.large a.holds);
    large = (unfold clear_items in a.large);
    readers_ok = λ _. omega arith;
    writers_ok = λ is_strict _. absurd (allowed is_strict refl);
  })
