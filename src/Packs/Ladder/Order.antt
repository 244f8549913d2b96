-- ===== src/Packs/Ladder/Order.antt =====
-- A ladder runs from the heaviest weight down, holds positive weights only, and leaves no weight out.
use pokedrop.Base.{
  ℕ, ◌≤◌, ◌<◌, List, ◌==◌, if◌then◌else◌, ◌≡◌, refl, true, false, [], ◌∷◌, ltb, sum_of,
  sum_of-sort_by, filter_by, All, All-sort_by, arith, ◌∙◌,
}
use pokedrop.Base.Sorting.{IsSorted, sort_by-IsSorted}
use pokedrop.Base.Dict.{Dict}
use pokedrop.Packs.Ladder.{Rarity, Rung, rung_le, to_rungs, ladder_of, total_weight}

rung_le_total : (a b : Rung) → rung_le a b ≡ false → rung_le b a ≡ true
unfolding rung_le
rung_le_total a b h = ground arith

rung_le_trans : (a b c : Rung) → rung_le a b ≡ true → rung_le b c ≡ true → rung_le a c ≡ true
unfolding rung_le
rung_le_trans a b c h k = ground arith

-- The heavier rung comes first, and of two that weigh the same the one of the smaller rarity.
abbrev pub IsBefore : Rung → Rung → Type 0
IsBefore a b = (b.weight ≤ a.weight) × (a.weight ≡ b.weight → a.rarity ≤ b.rarity)

abbrev pub IsByWeight : List Rung → Type 0
IsByWeight [] = Unit
IsByWeight (x ∷ xs) = All (IsBefore x) xs × IsByWeight xs

sorted-IsByWeight : (xs : List Rung) → IsSorted rung_le xs → IsByWeight xs
unfolding rung_le
sorted-IsByWeight [] h = tt
sorted-IsByWeight (x ∷ xs) h = (go xs h.0, sorted-IsByWeight xs h.1)
  where
    go : (ys : List Rung) → All (λ y. rung_le x y ≡ true) ys → All (IsBefore x) ys
    go [] k = tt
    go (y ∷ ys) k = ((ground (arith, k.0), λ e. ground (arith, k.0, e)), go ys k.1)

positive_rungs :
    (ws : Dict ℕ) → All (λ rung. 0 < rung.weight) (to_rungs (filter_by (λ e. ltb 0 e.1) ws))
positive_rungs [] = tt
positive_rungs ((r, w) ∷ ws) = ground (arith, positive_rungs ws)

rarity-rungs :
    (r : Rarity) (ws : Dict ℕ)
    → sum_of
        (λ rung. if rung.rarity == r then rung.weight else 0)
        (to_rungs (filter_by (λ e. ltb 0 e.1) ws))
      ≡ sum_of (λ e. if e.0 == r then e.1 else 0) ws
rarity-rungs r [] = refl
rarity-rungs r ((s, w) ∷ ws) = ground (arith, rarity-rungs r ws)

total-rungs :
    (ws : Dict ℕ) → total_weight (to_rungs (filter_by (λ e. ltb 0 e.1) ws)) ≡ sum_of (λ e. e.1) ws
total-rungs [] = refl
total-rungs ((r, w) ∷ ws) = ground (arith, total-rungs ws)

-- In the ladder of any weights a heavier rarity stands before a lighter one, and of two that
-- weigh the same the smaller one first; every rung weighs something, each rarity weighs as much
-- as in the slot, and so does the whole.
pub ladder_of_lem :
    (ws : Dict ℕ)
    → IsByWeight (ladder_of ws)
      × All (λ rung. 0 < rung.weight) (ladder_of ws)
      × ((r : Rarity)
          → sum_of (λ rung. if rung.rarity == r then rung.weight else 0) (ladder_of ws)
            ≡ sum_of (λ e. if e.0 == r then e.1 else 0) ws)
      × (total_weight (ladder_of ws) ≡ sum_of (λ e. e.1) ws)
unfolding ladder_of
ladder_of_lem ws = (
  sorted-IsByWeight _ (sort_by-IsSorted rung_le rung_le_total rung_le_trans _),
  All-sort_by (λ rung. 0 < rung.weight) rung_le _ (positive_rungs ws),
  λ r.
      sum_of-sort_by (λ rung. if rung.rarity == r then rung.weight else 0) rung_le _
      ∙ rarity-rungs r ws,
  sum_of-sort_by (λ rung. rung.weight) rung_le _ ∙ total-rungs ws,
)
