-- ===== src/Composer/Picking.antt =====
-- A picker that heeds the refusals: what it adds leaves the offer within the limits of a trade.
use pokedrop.Base.{
  ℕ, suc, ◌≤◌, ◌<◌, ◌≡◌, refl, true, false, Option, none, List, [], ◌∷◌, ◌++◌, length, arith,
  Bool-cases, inl, inr,
}
use pokedrop.Inventory.{CardId}
use pokedrop.Schema.Trade.{max_trade_line_quantity, max_trade_lines}
use pokedrop.Composer.{
  Side, Line, ComposerState, lines_of, has_card, add_to_first, add_card, count_of, other_side,
  pick_refusal,
}

add_to_first-length : (c : CardId) (ls : List Line) → length (add_to_first c ls) ≡ length ls
unfolding add_to_first
add_to_first-length c [] = refl
add_to_first-length c (l ∷ ls) = ground (arith, add_to_first-length c ls)

added-length : (l : Line) (ls : List Line) → length (ls ++ l ∷ []) ≡ suc (length ls)
added-length l [] = refl
added-length l (x ∷ ls) = ground (arith, added-length l ls)

absent-count_of : (c : CardId) (ls : List Line) → has_card c ls ≡ false → count_of c ls ≡ 0
unfolding count_of
absent-count_of c [] e = refl
absent-count_of c (l ∷ ls) e = ground (arith, e, absent-count_of c ls)

count_of-add_to_first :
    (c : CardId) (ls : List Line)
    → has_card c ls ≡ true
    → count_of c ls < max_trade_line_quantity
    → count_of c (add_to_first c ls) ≡ suc (count_of c ls)
unfolding count_of add_to_first
count_of-add_to_first c [] e h = absurd (ground arith)
count_of-add_to_first c (l ∷ ls) e h = ground (arith, e, h, count_of-add_to_first c ls)

count_of-added :
    (c : CardId) (ls : List Line)
    → has_card c ls ≡ false
    → count_of c (ls ++ record { card = c; count = 1 } ∷ []) ≡ 1
unfolding count_of
count_of-added c [] e = ground arith
count_of-added c (l ∷ ls) e = ground (arith, e, count_of-added c ls)

-- A card that a picker does not refuse is not on the other side, and adding it to a side within
-- the limit of lines keeps the side within it and raises the card's count by one.
pub pick_refusal-none :
    (s : ComposerState) (side : Side) (c : CardId) (available : Option ℕ)
    → pick_refusal s side c available ≡ none
    → length (lines_of side s) ≤ max_trade_lines
    → (has_card c (lines_of (other_side side) s) ≡ false)
      × (length (add_card c (lines_of side s)) ≤ max_trade_lines)
      × (count_of c (add_card c (lines_of side s)) ≡ suc (count_of c (lines_of side s)))
unfolding pick_refusal add_card
pick_refusal-none s side c available e h =
    let ls = lines_of side s in
    elim (Bool-cases (has_card c ls)) [
      | inl there ↦
          ground (arith, there, e, h, add_to_first-length c ls, count_of-add_to_first c ls)
      | inr absent ↦ ground (
        arith,
        absent,
        e,
        h,
        added-length (record { card = c; count = 1 }) ls,
        absent-count_of c ls,
        count_of-added c ls,
      )
    ]
