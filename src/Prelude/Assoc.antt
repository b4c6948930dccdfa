-- ===== src/Prelude/Assoc.antt =====
-- Go's maps with int64 keys, as association lists that hold a key at most once. A map that the source
-- ranges over is ranged over in the list's order; the source's results do not depend on it.
use pg_sprite.Prelude.Int64.{Int64}
use mathlib.Core.Path.{◌≡◌}
use mathlib.Core.Option.{Option, none, some}
use mathlib.Core.List.{List, [], ◌∷◌}
use native.Mathlib.Omega.{arith}
use pg_sprite.Prelude.Tests.{◌==◌, if◌then◌else◌}

abbrev pub Assoc {ℓ} : Type ℓ → Type ℓ
Assoc V = List (Int64 × V)

module _ {ℓ} {V : Type ℓ} where
  -- m[k], the comma-ok form
  unfoldable pub lookup : Int64 → Assoc V → Option V
  lookup k [] = none
  lookup k ((j, v) ∷ m) = if j == k then some v else lookup k m

  -- delete(m, k)
  unfoldable pub delete : Int64 → Assoc V → Assoc V
  delete k [] = []
  delete k ((j, v) ∷ m) = let rest = delete k m in if j == k then rest else (j, v) ∷ rest

  -- m[k] = v
  unfoldable pub insert : Int64 → V → Assoc V → Assoc V
  insert k v m = (k, v) ∷ delete k m

  pub lookup-delete :
      (k j : Int64) (m : Assoc V) → lookup j (delete k m) ≡ (if k == j then none else lookup j m)
  unfolding lookup delete
  lookup-delete k j [] = ground arith
  lookup-delete k j ((i, v) ∷ m) = ground (arith, lookup-delete k j m)

  pub lookup-insert :
      (k j : Int64) (v : V) (m : Assoc V)
      → lookup j (insert k v m) ≡ (if k == j then some v else lookup j m)
  unfolding insert lookup
  lookup-insert k j v m = ground (arith, lookup-delete k j m)

  -- Every key stands once in the list.
  abbrev pub HasKeysOnce : Assoc V → Type ℓ
  HasKeysOnce [] = Unit
  HasKeysOnce ((k, v) ∷ m) = (lookup k m ≡ none) × HasKeysOnce m

  pub delete-HasKeysOnce : (k : Int64) (m : Assoc V) → HasKeysOnce m → HasKeysOnce (delete k m)
  unfolding delete
  delete-HasKeysOnce k [] h = tt
  delete-HasKeysOnce k ((j, v) ∷ m) h =
      ground (arith, lookup-delete k j m, delete-HasKeysOnce k m h.1)

  pub insert-HasKeysOnce :
      (k : Int64) (v : V) (m : Assoc V) → HasKeysOnce m → HasKeysOnce (insert k v m)
  unfolding insert
  insert-HasKeysOnce k v m h = (ground (arith, lookup-delete k k m), delete-HasKeysOnce k m h)

ruleset assoc_laws = (lookup-delete, lookup-insert)
