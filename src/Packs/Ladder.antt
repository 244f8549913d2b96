-- ===== src/Packs/Ladder.antt =====
-- packages/shared/src/packs/odds.ts: a slot's rarities in the order the generator walks them. A
-- rarity is a string that is only compared, so it is a number.
pub mod Order
use pokedrop.Base.{
  ℕ, ◌+◌, Bool, true, false, ◌&&◌, ◌||◌, List, [], ◌∷◌, map, ◌==◌, ltb, leb, if◌then◌else◌, sum_of,
  filter_by, sort_by,
}
use pokedrop.Base.Dict.{Dict}

abbrev pub Rarity : Type 0
Rarity = ℕ

pub record Rung : Type 0 where
  pub rarity : Rarity
  pub weight : ℕ

-- `b.weight - a.weight || compare(a.rarity, b.rarity)` is not positive.
unfoldable pub rung_le : Rung → Rung → Bool
rung_le a b = ltb b.weight a.weight || (a.weight == b.weight && leb a.rarity b.rarity)

abbrev pub to_rungs : Dict ℕ → List Rung
to_rungs = map (λ e. record { rarity = e.0; weight = e.1 })

unfoldable pub ladder_of : Dict ℕ → List Rung
ladder_of weights = sort_by rung_le (to_rungs (filter_by (λ e. ltb 0 e.1) weights))

abbrev pub total_weight : List Rung → ℕ
total_weight = sum_of (λ rung. rung.weight)
