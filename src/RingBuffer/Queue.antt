-- ===== src/RingBuffer/Queue.antt =====
-- What a ring promises: a queue of bounded length, oldest item first.
use k_panic.Base.{
  ℕ, Bool, true, false, Option, none, some, List, [], ◌∷◌, ◌++◌, length, ltb, if◌then◌else◌,
}

-- A call of a client, and what it returns.
pub data Call {ℓ} (T : Type ℓ) : Type ℓ where
  puts : T → Call T
  gets clears : Call T

pub data Reply {ℓ} (T : Type ℓ) : Type ℓ where
  stored : Bool → Reply T
  fetched : Option T → Reply T
  cleared : Reply T

module _ {ℓ} {T : Type ℓ} where
  unfoldable pub put : ℕ → List T → T → Bool × List T
  put capacity q x = if ltb (length q) capacity then (true, q ++ (x ∷ [])) else (false, q)

  unfoldable pub get : List T → Option T × List T
  get [] = (none, [])
  get (x ∷ q) = (some x, q)

  unfoldable pub run : ℕ → List T → List (Call T) → List (Reply T)
  unfolding put get
  run capacity q [] = []
  run capacity q (puts x ∷ calls) =
      let (done, q') = put capacity q x in stored done ∷ run capacity q' calls
  run capacity q (gets ∷ calls) = let (out, q') = get q in fetched out ∷ run capacity q' calls
  run capacity q (clears ∷ calls) = cleared ∷ run capacity [] calls
