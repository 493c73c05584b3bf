-- ===== src/FiFo/Queue.antt =====
-- What the buffer promises: a bounded queue, oldest item first, which either lets a writer wait, or
-- drops the new item, or drops the oldest one.
use k_panic.Base.{ℕ, Option, none, some, List, [], ◌∷◌, ◌++◌, length, drop, ltb, if◌then◌else◌}

pub data Policy : Type 0 where
  waits drops_new drops_old : Policy

pub data Call {ℓ} (T : Type ℓ) : Type ℓ where
  puts : T → Call T
  gets peeks clears : Call T

-- What a call comes back with; `asleep` is one that has to be tried again.
pub data Reply {ℓ} (T : Type ℓ) : Type ℓ where
  asleep finished : Reply T
  fetched : Option T → Reply T

module _ {ℓ} {T : Type ℓ} where
  -- The queue after a `put`, if it does not wait.
  abbrev pub put : Policy → ℕ → List T → T → Option (List T)
  put waits capacity q x = if ltb (length q) capacity then some (q ++ x ∷ []) else none
  put drops_new capacity q x = if ltb (length q) capacity then some (q ++ x ∷ []) else some q
  put drops_old capacity q x =
      if ltb (length q) capacity then some (q ++ x ∷ []) else some (drop 1 q ++ x ∷ [])

  abbrev pub head : List T → Option T
  head [] = none
  head (x ∷ q) = some x

  unfoldable pub run : Policy → ℕ → List T → List (Call T) → List (Reply T)
  run p capacity q [] = []
  run p capacity q (puts x ∷ calls) = elim (put p capacity q x) [
    | none ↦ asleep ∷ run p capacity q calls
    | some q' ↦ finished ∷ run p capacity q' calls
  ]
  run p capacity [] (gets ∷ calls) = asleep ∷ run p capacity [] calls
  run p capacity (x ∷ q) (gets ∷ calls) = fetched (some x) ∷ run p capacity q calls
  run p capacity q (peeks ∷ calls) = fetched (head q) ∷ run p capacity q calls
  run p capacity q (clears ∷ calls) = finished ∷ run p capacity [] calls
