-- ===== src/FiFo/Runs.antt =====
-- No sequence of calls tells the buffer from the queue of what it holds.
use k_panic.Base.{
  ℕ, ◌-◌, ◌<◌, ◌≡◌, refl, sym, ap, ap₂, ◌⊎◌, ◌∙◌, Option, none, some, List, [], ◌∷◌, arith, inl,
  inr,
}
use k_panic.RingBuffer.{clear}
use k_panic.RingBuffer.Refine.{Represents, clear-Represents}
use k_panic.FiFo.{FiFo, PutResult, put_item, get_item, peek_ahead, clear_items}
use k_panic.FiFo.Queue
use k_panic.FiFo.Queue.{Policy, Call, puts, gets, peeks, clears, Reply, asleep, finished, fetched}
use k_panic.FiFo.Refine.{
  as_ring, policy, after_put, skip_oldest, PutEnds, ends_waiting, ends_dropped, ends_stored,
  put_item-PutEnds, get_item-empty, get_item-next, skip-Represents,
}

module _ {ℓ} {T : Type ℓ} where
  -- The calls of all clients, in order, with what each comes back with.
  unfoldable pub run : FiFo T → List (Call T) → List (Reply T)
  run f [] = []
  run f (puts x ∷ calls) = elim (after_put f (put_item f x)) [
    | none ↦ asleep ∷ run f calls
    | some f' ↦ finished ∷ run f' calls
  ]
  run f (gets ∷ calls) = elim (get_item f) [
    | none ↦ asleep ∷ run f calls
    | some (x, f') ↦ fetched x ∷ run f' calls
  ]
  run f (peeks ∷ calls) = fetched (peek_ahead f) ∷ run f calls
  run f (clears ∷ calls) = finished ∷ run (clear_items f) calls

  -- A buffer and a queue that have done the same.
  record Goes (f f' : FiFo T) (q' : List T) : Type ℓ where
    represents : Represents (as_ring f') q'
    same_size : f'.input_buffer_size ≡ f.input_buffer_size
    same_policy : policy f' ≡ policy f

  put-Goes :
      (f : FiFo T) (q : List T) (x : T) (r : PutResult T)
      → Represents (as_ring f) q
      → PutEnds f q x r
      → ((after_put f r ≡ none) × (Queue.put (policy f) (f.input_buffer_size - 1) q x ≡ none))
        ⊎ ((f' : FiFo T) × ((q' : List T) × ((after_put f r ≡ some f')
                × ((Queue.put (policy f) (f.input_buffer_size - 1) q x ≡ some q') × Goes f f' q'))))
  put-Goes f q x _ v (ends_waiting e) = inl (refl, e)
  put-Goes f q x _ v (ends_dropped e) =
      inr (f, (q, (refl, (e, record { represents = v; same_size = refl; same_policy = refl }))))
  put-Goes f q x _ v (ends_stored f' q' e w size p) =
      inr (f', (q', (refl, (e, record { represents = w; same_size = size; same_policy = p }))))

  run_put :
      (f : FiFo T) (x : T) (calls : List (Call T)) (o : Option (FiFo T))
      → after_put f (put_item f x) ≡ o
      → run f (puts x ∷ calls)
        ≡ elim o [ none ↦ asleep ∷ run f calls | some f' ↦ finished ∷ run f' calls ]
  unfolding run
  run_put f x calls o e =
      ap (λ o'. elim o' [ none ↦ asleep ∷ run f calls | some f' ↦ finished ∷ run f' calls ]) e

  run_get :
      (f : FiFo T) (calls : List (Call T)) (o : Option (Option T × FiFo T))
      → get_item f ≡ o
      → run f (gets ∷ calls)
        ≡ elim o [ none ↦ asleep ∷ run f calls | some (x, f') ↦ fetched x ∷ run f' calls ]
  unfolding run
  run_get f calls o e =
      ap (λ o'. elim o' [ none ↦ asleep ∷ run f calls | some (x, f') ↦ fetched x ∷ run f' calls ]) e

  queue_put :
      (p : Policy) (n : ℕ) (q : List T) (x : T) (calls : List (Call T)) (o : Option (List T))
      → Queue.put p n q x ≡ o
      → Queue.run p n q (puts x ∷ calls) ≡ elim o [
        | none ↦ asleep ∷ Queue.run p n q calls
        | some q' ↦ finished ∷ Queue.run p n q' calls
      ]
  unfolding Queue.run
  queue_put p n q x calls o e =
      ap
        (λ o'. elim o' [
          | none ↦ asleep ∷ Queue.run p n q calls
          | some q' ↦ finished ∷ Queue.run p n q' calls
        ])
        e

  -- No sequence of calls tells the buffer, of at least two places, from the queue that it holds, of
  -- one item less than it has places, under the policy of its flags: every reply is the same.
  pub run_lem :
      (calls : List (Call T)) (f : FiFo T) (q : List T)
      → 1 < f.input_buffer_size
      → Represents (as_ring f) q
      → run f calls ≡ Queue.run (policy f) (f.input_buffer_size - 1) q calls
  unfolding run Queue.run
  run_lem [] f q h v = refl
  run_lem (puts x ∷ calls) f q h v =
      elim (put-Goes f q x (put_item f x) v (put_item-PutEnds f q x h v)) [
        | inl (e, a) ↦
            run_put f x calls none e
            ∙ ap (λ l. asleep ∷ l) (run_lem calls f q h v)
            ∙ sym (queue_put (policy f) (f.input_buffer_size - 1) q x calls none a)
        | inr (f', (q', (e, (a, g)))) ↦
            let size = g.same_size in
            let rest = run_lem calls f' q' (omega (arith, h, size)) g.represents in
            run_put f x calls (some f') e
            ∙ ap (λ l. finished ∷ l)
                (rest ∙ ap₂ (λ p n. Queue.run p (n - 1) q' calls) g.same_policy g.same_size)
            ∙ sym (queue_put (policy f) (f.input_buffer_size - 1) q x calls (some q') a)
      ]
  run_lem (gets ∷ calls) f [] h v =
      run_get f calls none (get_item-empty f v).0 ∙ ap (λ l. asleep ∷ l) (run_lem calls f [] h v)
  run_lem (gets ∷ calls) f (x ∷ q) h v =
      run_get f calls (some (some x, skip_oldest f)) (get_item-next f x q v).0
      ∙ ap (λ l. fetched (some x) ∷ l)
          (run_lem calls (skip_oldest f) q h (skip-Represents f x q v).1)
  run_lem (peeks ∷ calls) f [] h v =
      ap₂ (λ o l. fetched o ∷ l) (get_item-empty f v).1 (run_lem calls f [] h v)
  run_lem (peeks ∷ calls) f (x ∷ q) h v =
      ap₂ (λ o l. fetched o ∷ l) (get_item-next f x q v).1 (run_lem calls f (x ∷ q) h v)
  run_lem (clears ∷ calls) f q h v =
      ap (λ l. finished ∷ l)
        (run_lem calls (clear_items f) [] (unfold clear_items in h)
            (unfold clear_items clear in clear-Represents (as_ring f) q h v)
          ∙ (unfold clear_items in refl))
