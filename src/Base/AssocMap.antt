-- ===== src/Base/AssocMap.antt =====
-- `ustl::map` with a number as key: an association list in which a key stands once.
-- `lookup` is `find`, `insert` is the assignment `map[key] = value`, `erase` removes the key.
use Prim.Native.Nat.{ℕ, ◌≤◌, ◌<◌}
use mathlib.Core.Path.{◌≡◌, refl}
use mathlib.Core.Logic.{◌≢◌}
use mathlib.Core.Bool.{Bool, true, false}
use mathlib.Core.List.{List, [], ◌∷◌}
use mathlib.Core.Option.{Option, none, some}
use native.Mathlib.Omega.{arith}
use k_panic.Base.Tests.{◌==◌, if◌then◌else◌}
use k_panic.Base.Lists.{length}

abbrev pub AssocMap {ℓ} : Type ℓ → Type ℓ
AssocMap V = List (ℕ × V)

module _ {ℓ} {V : Type ℓ} where
  unfoldable pub contains : ℕ → AssocMap V → Bool
  contains k [] = false
  contains k ((j, w) ∷ m) = if j == k then true else contains k m

  unfoldable pub lookup : ℕ → AssocMap V → Option V
  lookup k [] = none
  lookup k ((i, v) ∷ m) = if i == k then some v else lookup k m

  unfoldable pub erase : ℕ → AssocMap V → AssocMap V
  erase k [] = []
  erase k ((i, w) ∷ m) = if i == k then erase k m else (i, w) ∷ erase k m

  unfoldable pub insert : ℕ → V → AssocMap V → AssocMap V
  insert k v [] = (k, v) ∷ []
  insert k v ((i, old) ∷ m) = if i == k then (k, v) ∷ m else (i, old) ∷ insert k v m

  pub lookup-insert :
      (key other : ℕ) (new : V) (m : AssocMap V)
      → lookup other (insert key new m) ≡ (if key == other then some new else lookup other m)
  unfolding insert lookup
  lookup-insert key other new [] = refl
  lookup-insert key other new (entry ∷ m) = ground (arith, lookup-insert key other new m)

  pub lookup-erase :
      (k j : ℕ) (m : AssocMap V) → lookup j (erase k m) ≡ (if k == j then none else lookup j m)
  unfolding lookup erase
  lookup-erase k j [] = ground arith
  lookup-erase k j ((i, w) ∷ m) = ground (arith, lookup-erase k j m)

  pub contains-lookup : (k : ℕ) (m : AssocMap V) → contains k m ≡ false → lookup k m ≡ none
  unfolding lookup contains
  contains-lookup k [] h = refl
  contains-lookup k ((i, w) ∷ m) h = ground (arith, contains-lookup k m)

  pub lookup-contains : (k : ℕ) (m : AssocMap V) {v : V} → lookup k m ≡ some v → contains k m ≡ true
  unfolding lookup contains
  lookup-contains k [] h = ground arith
  lookup-contains k ((i, w) ∷ m) {v} h = ground (arith, lookup-contains k m {v = v})

  pub length-erase-le : (k : ℕ) (m : AssocMap V) → length (erase k m) ≤ length m
  unfolding erase
  length-erase-le k [] = omega arith
  length-erase-le k ((i, w) ∷ m) = ground (arith, length-erase-le k m)

  pub length-erase-lt : (k : ℕ) (m : AssocMap V) → lookup k m ≢ none → length (erase k m) < length m
  unfolding erase lookup
  length-erase-lt k [] h = absurd (h refl)
  length-erase-lt k ((i, w) ∷ m) h = ground (arith, length-erase-le k m, length-erase-lt k m)

  pub contains-insert :
      (k j : ℕ) (v : V) (m : AssocMap V)
      → contains j (insert k v m) ≡ (if k == j then true else contains j m)
  unfolding contains insert
  contains-insert k j v [] = refl
  contains-insert k j v ((i, w) ∷ m) = ground (arith, contains-insert k j v m)

  pub contains-erase :
      (k j : ℕ) (m : AssocMap V) → contains j (erase k m) ≡ (if k == j then false else contains j m)
  unfolding contains erase
  contains-erase k j [] = ground arith
  contains-erase k j ((i, w) ∷ m) = ground (arith, contains-erase k j m)

  pub contains-none : (k : ℕ) (m : AssocMap V) → lookup k m ≡ none → contains k m ≡ false
  unfolding lookup contains
  contains-none k [] h = refl
  contains-none k ((i, w) ∷ m) h = ground (arith, contains-none k m)
