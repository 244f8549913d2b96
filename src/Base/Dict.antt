-- ===== src/Base/Dict.antt =====
-- A table keyed by its primary key, as an association list: a lookup and an update act on the row
-- with the key, and `insert` of a new key appends.
use Prim.Native.Nat.{ℕ, ◌+◌}
use mathlib.Core.Path.{◌≡◌, refl}
use mathlib.Core.Option.{Option, none, some}
use mathlib.Core.List.{List, [], ◌∷◌}
use native.Mathlib.Omega.{arith}
use pokedrop.Base.Tests.{◌==◌, if◌then◌else◌}

abbrev pub Dict {ℓ} : Type ℓ → Type ℓ
Dict V = List (ℕ × V)

module _ {ℓ} {V : Type ℓ} where
  unfoldable pub lookup : ℕ → Dict V → Option V
  lookup k [] = none
  lookup k ((j, v) ∷ d) = if j == k then some v else lookup k d

  unfoldable pub insert : ℕ → V → Dict V → Dict V
  insert k v [] = (k, v) ∷ []
  insert k v ((j, w) ∷ d) = if j == k then (j, v) ∷ d else (j, w) ∷ insert k v d

  pub lookup-insert :
      (k j : ℕ) (v : V) (d : Dict V)
      → lookup j (insert k v d) ≡ (if k == j then some v else lookup j d)
  unfolding lookup insert
  lookup-insert k j v [] = refl
  lookup-insert k j v ((i, w) ∷ d) = ground (arith, lookup-insert k j v d)

  -- The sum of a measure over the rows.
  unfoldable pub sum_rows : (V → ℕ) → Dict V → ℕ
  sum_rows f [] = 0
  sum_rows f ((j, v) ∷ d) = f v + sum_rows f d

  pub sum_rows-insert :
      (f : V → ℕ) (k : ℕ) (v old : V) (d : Dict V)
      → lookup k d ≡ some old
      → sum_rows f (insert k v d) + f old ≡ sum_rows f d + f v
  unfolding lookup insert sum_rows
  sum_rows-insert f k v old [] e = cc
  sum_rows-insert f k v old ((j, w) ∷ d) e = ground (arith, sum_rows-insert f k v old d)

  pub sum_rows-insert_new :
      (f : V → ℕ) (k : ℕ) (v : V) (d : Dict V)
      → lookup k d ≡ none
      → sum_rows f (insert k v d) ≡ sum_rows f d + f v
  unfolding lookup insert sum_rows
  sum_rows-insert_new f k v [] e = omega arith
  sum_rows-insert_new f k v ((j, w) ∷ d) e = ground (arith, sum_rows-insert_new f k v d)
