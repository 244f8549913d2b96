-- ===== src/Base/Sorting.antt =====
-- A sort by a total and transitive order gives a sorted list.
use mathlib.Core.Path.{◌≡◌}
use mathlib.Core.Bool.{Bool, true, false}
use mathlib.Core.List.{List, [], ◌∷◌}
use mathlib.Core.Logic.{inl, inr}
use pokedrop.Base.Tests.{Bool-cases}
use pokedrop.Base.Lists.{All, insert_by, sort_by}

module _ {ℓ} {A : Type ℓ} (le : A → A → Bool) where
  -- Every element stands before those that follow it.
  abbrev pub IsSorted : List A → Type 0
  IsSorted [] = Unit
  IsSorted (x ∷ xs) = All (λ y. le x y ≡ true) xs × IsSorted xs

  module _ (le_total : (a b : A) → le a b ≡ false → le b a ≡ true)
      (le_trans : (a b c : A) → le a b ≡ true → le b c ≡ true → le a c ≡ true) where
    All-above :
        (a b : A) (xs : List A)
        → le a b ≡ true
        → All (λ y. le b y ≡ true) xs
        → All (λ y. le a y ≡ true) xs
    All-above a b [] h k = tt
    All-above a b (x ∷ xs) h k = (le_trans a b x h k.0, All-above a b xs h k.1)

    All-insert_by :
        (a b : A) (xs : List A)
        → le b a ≡ true
        → All (λ y. le b y ≡ true) xs
        → All (λ y. le b y ≡ true) (insert_by le a xs)
    unfolding insert_by
    All-insert_by a b [] h k = (h, tt)
    All-insert_by a b (x ∷ xs) h k = elim (Bool-cases (le a x)) [
      | inl e ↦ rw e (h, k)
      | inr e ↦ rw e (k.0, All-insert_by a b xs h k.1)
    ]

    insert_by-IsSorted : (a : A) (xs : List A) → IsSorted xs → IsSorted (insert_by le a xs)
    unfolding insert_by
    insert_by-IsSorted a [] h = (tt, tt)
    insert_by-IsSorted a (x ∷ xs) h = elim (Bool-cases (le a x)) [
      | inl e ↦ rw e ((e, All-above a x xs e h.0), h)
      | inr e ↦ rw e (All-insert_by a x xs (le_total a x e) h.0, insert_by-IsSorted a xs h.1)
    ]

    pub sort_by-IsSorted : (xs : List A) → IsSorted (sort_by le xs)
    unfolding sort_by
    sort_by-IsSorted [] = tt
    sort_by-IsSorted (x ∷ xs) = insert_by-IsSorted x (sort_by le xs) (sort_by-IsSorted xs)
