-- ===== src/Common/Assoc.antt =====
-- A map from numbers as an association list.
use Prim.Native.Nat.{ℕ}
use mathlib.Core.Path.{◌≡◌}
use mathlib.Core.Bool.{false}
use mathlib.Core.Option.{Option, none, some}
use mathlib.Core.List.{List, [], ◌∷◌}
use native.Mathlib.Omega.{arith}
use codechiev.Common.Tests.{◌==◌, if◌then◌else◌}

module _ {ℓ} {V : Type ℓ} where
  unfoldable pub lookup : ℕ → List (ℕ × V) → Option V
  lookup k [] = none
  lookup k ((j, v) ∷ m) = if j == k then some v else lookup k m

  unfoldable pub insert : ℕ → V → List (ℕ × V) → List (ℕ × V)
  insert k v [] = (k, v) ∷ []
  insert k v ((j, w) ∷ m) = if j == k then (k, v) ∷ m else (j, w) ∷ insert k v m

  -- Every entry of the key goes.
  unfoldable pub erase : ℕ → List (ℕ × V) → List (ℕ × V)
  erase k [] = []
  erase k ((j, w) ∷ m) = if j == k then erase k m else (j, w) ∷ erase k m

  -- What was put last under a key is what is found there.
  pub lookup-insert_self : (k : ℕ) (v : V) (m : List (ℕ × V)) → lookup k (insert k v m) ≡ some v
  unfolding lookup insert
  lookup-insert_self k v [] = ground arith
  lookup-insert_self k v ((i, w) ∷ m) = ground (arith, lookup-insert_self k v m)

  pub lookup-insert_other :
      (k other : ℕ) (v : V) (m : List (ℕ × V))
      → (other == k) ≡ false
      → lookup other (insert k v m) ≡ lookup other m
  unfolding lookup insert
  lookup-insert_other k other v [] h = ground arith
  lookup-insert_other k other v ((i, w) ∷ m) h = ground (arith, lookup-insert_other k other v m h)

  pub lookup-erase_self : (k : ℕ) (m : List (ℕ × V)) → lookup k (erase k m) ≡ none
  unfolding lookup erase
  lookup-erase_self k [] = ground arith
  lookup-erase_self k ((i, w) ∷ m) = ground (arith, lookup-erase_self k m)

  pub insert-insert :
      (k : ℕ) (v w : V) (m : List (ℕ × V)) → insert k v (insert k w m) ≡ insert k v m
  unfolding insert
  insert-insert k v w [] = ground arith
  insert-insert k v w ((i, u) ∷ m) = ground (arith, insert-insert k v w m)

  pub insert-lookup : (k : ℕ) (v : V) (m : List (ℕ × V)) → lookup k m ≡ some v → insert k v m ≡ m
  unfolding lookup insert
  insert-lookup k v [] e = cc
  insert-lookup k v ((i, u) ∷ m) e = ground (arith, insert-lookup k v m)
