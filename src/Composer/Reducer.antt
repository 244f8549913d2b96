-- ===== src/Composer/Reducer.antt =====
-- What every action keeps: distinct cards on a side, counts and coins within the bounds.
use pokedrop.Base.{
  ℕ, ◌≤◌, ◌≡◌, refl, false, Option, List, [], ◌∷◌, ◌++◌, ◌==◌, arith, Bool-cases, inl, inr,
}
use pokedrop.Inventory.{UserId, CardId}
use pokedrop.Schema.Trade.{max_trade_currency, max_trade_line_quantity}
use pokedrop.Composer.{
  Side, give, get, Line, Mode, new_offer, counter_offer, ComposerState, ComposerAction, choose, add,
  set_count, remove, set_coins, go_to, empty, lines_of, with_lines, clamp, has_card, add_to_first,
  add_card, set_counts, remove_card, composer_reducer, choose_in, after,
}

-- Distinct cards, each from 1 to the most copies of a line.
abbrev pub IsFormed : List Line → Type 0
IsFormed [] = Unit
IsFormed (l ∷ ls) =
    ((1 ≤ l.count) × (l.count ≤ max_trade_line_quantity))
    × (has_card l.card ls ≡ false)
    × IsFormed ls

pub record IsComposed (s : ComposerState) : Type 0 where
  pub give_formed : IsFormed s.give_lines
  pub get_formed : IsFormed s.get_lines
  pub give_bounded : s.coins_give ≤ max_trade_currency
  pub get_bounded : s.coins_get ≤ max_trade_currency

clamp-le : (n low high : ℕ) → low ≤ high → (low ≤ clamp n low high) × (clamp n low high ≤ high)
unfolding clamp
clamp-le n low high h = ground arith

has_card-add_to_first :
    (c d : CardId) (ls : List Line) → has_card d (add_to_first c ls) ≡ has_card d ls
unfolding add_to_first
has_card-add_to_first c d [] = refl
has_card-add_to_first c d (l ∷ ls) = ground (arith, has_card-add_to_first c d ls)

add_to_first-IsFormed : (c : CardId) (ls : List Line) → IsFormed ls → IsFormed (add_to_first c ls)
unfolding add_to_first
add_to_first-IsFormed c [] h = tt
add_to_first-IsFormed c (l ∷ ls) h = elim (Bool-cases (l.card == c)) [
  | inl here ↦ rw here ((ground (arith, h.0), h.1, h.2))
  | inr later ↦
      rw later (
        h.0,
        ground (arith, h.1, has_card-add_to_first c l.card ls),
        add_to_first-IsFormed c ls h.2,
      )
]

has_card-append :
    (c : CardId) (ls : List Line) (d : CardId)
    → has_card d ls ≡ false
    → (d == c) ≡ false
    → has_card d (ls ++ record { card = c; count = 1 } ∷ []) ≡ false
has_card-append c [] d a b = ground (arith, b)
has_card-append c (l ∷ ls) d a b = ground (arith, has_card-append c ls d, a, b)

append-IsFormed :
    (c : CardId) (ls : List Line)
    → has_card c ls ≡ false
    → IsFormed ls
    → IsFormed (ls ++ record { card = c; count = 1 } ∷ [])
append-IsFormed c [] e h = ((omega arith, omega arith), refl, tt)
append-IsFormed c (l ∷ ls) e h = (
  h.0,
  has_card-append c ls l.card h.1 (ground (arith, e)),
  append-IsFormed c ls (ground (arith, e)) h.2,
)

add_card-IsFormed : (c : CardId) (ls : List Line) → IsFormed ls → IsFormed (add_card c ls)
unfolding add_card
add_card-IsFormed c ls h = elim (Bool-cases (has_card c ls)) [
  | inl there ↦ rw there (add_to_first-IsFormed c ls h)
  | inr absent ↦ rw absent (append-IsFormed c ls absent h)
]

has_card-set_counts :
    (c : CardId) (n : ℕ) (d : CardId) (ls : List Line)
    → has_card d (set_counts c n ls) ≡ has_card d ls
unfolding set_counts
has_card-set_counts c n d [] = refl
has_card-set_counts c n d (l ∷ ls) = ground (arith, has_card-set_counts c n d ls)

set_counts-IsFormed :
    (c : CardId) (n : ℕ) (ls : List Line) → IsFormed ls → IsFormed (set_counts c n ls)
unfolding set_counts
set_counts-IsFormed c n [] h = tt
set_counts-IsFormed c n (l ∷ ls) h = (
  ground (arith, h.0, clamp-le n 1 max_trade_line_quantity (omega arith)),
  ground (arith, h.1, has_card-set_counts c n l.card ls),
  set_counts-IsFormed c n ls h.2,
)

has_card-remove_card :
    (c d : CardId) (ls : List Line) → has_card d ls ≡ false → has_card d (remove_card c ls) ≡ false
unfolding remove_card
has_card-remove_card c d [] e = refl
has_card-remove_card c d (l ∷ ls) e = ground (arith, e, has_card-remove_card c d ls)

remove_card-IsFormed : (c : CardId) (ls : List Line) → IsFormed ls → IsFormed (remove_card c ls)
unfolding remove_card
remove_card-IsFormed c [] h = tt
remove_card-IsFormed c (l ∷ ls) h = elim (Bool-cases (l.card == c)) [
  | inl gone ↦ rw gone (remove_card-IsFormed c ls h.2)
  | inr kept ↦ rw kept (h.0, has_card-remove_card c l.card ls h.1, remove_card-IsFormed c ls h.2)
]

with_lines-IsComposed :
    (s : ComposerState) (side : Side) (ls : List Line)
    → IsComposed s
    → IsFormed ls
    → IsComposed (with_lines s side ls)
with_lines-IsComposed s give ls h f = record {
  give_formed = f;
  get_formed = h.get_formed;
  give_bounded = h.give_bounded;
  get_bounded = h.get_bounded;
}
with_lines-IsComposed s get ls h f = record {
  give_formed = h.give_formed;
  get_formed = f;
  give_bounded = h.give_bounded;
  get_bounded = h.get_bounded;
}

lines_of-IsFormed : (side : Side) (s : ComposerState) → IsComposed s → IsFormed (lines_of side s)
lines_of-IsFormed give s h = h.give_formed
lines_of-IsFormed get s h = h.get_formed

pub empty-IsComposed : IsComposed empty
empty-IsComposed = record {
  give_formed = tt;
  get_formed = tt;
  give_bounded = omega arith;
  get_bounded = omega arith;
}

choose_in-IsComposed :
    (mode : Mode) (party : Option UserId) (s : ComposerState)
    → IsComposed s
    → IsComposed (choose_in mode party s)
choose_in-IsComposed new_offer party s h = record {
  give_formed = h.give_formed;
  get_formed = h.get_formed;
  give_bounded = h.give_bounded;
  get_bounded = h.get_bounded;
}
choose_in-IsComposed counter_offer party s h = h

composer_reducer-IsComposed :
    (s : ComposerState) (action : ComposerAction)
    → IsComposed s
    → IsComposed (composer_reducer s action)
unfolding composer_reducer
composer_reducer-IsComposed s (choose party) h = choose_in-IsComposed s.mode party s h
composer_reducer-IsComposed s (add side c) h =
    with_lines-IsComposed s side (add_card c (lines_of side s)) h
      (add_card-IsFormed c (lines_of side s) (lines_of-IsFormed side s h))
composer_reducer-IsComposed s (set_count side c n) h =
    with_lines-IsComposed s side (set_counts c n (lines_of side s)) h
      (set_counts-IsFormed c n (lines_of side s) (lines_of-IsFormed side s h))
composer_reducer-IsComposed s (remove side c) h =
    with_lines-IsComposed s side (remove_card c (lines_of side s)) h
      (remove_card-IsFormed c (lines_of side s) (lines_of-IsFormed side s h))
composer_reducer-IsComposed s (set_coins give n) h = record {
  give_formed = h.give_formed;
  get_formed = h.get_formed;
  give_bounded = (clamp-le n 0 max_trade_currency (omega arith)).1;
  get_bounded = h.get_bounded;
}
composer_reducer-IsComposed s (set_coins get n) h = record {
  give_formed = h.give_formed;
  get_formed = h.get_formed;
  give_bounded = h.give_bounded;
  get_bounded = (clamp-le n 0 max_trade_currency (omega arith)).1;
}
composer_reducer-IsComposed s (go_to step) h = record {
  give_formed = h.give_formed;
  get_formed = h.get_formed;
  give_bounded = h.give_bounded;
  get_bounded = h.get_bounded;
}

pub after-IsComposed :
    (actions : List ComposerAction) (s : ComposerState)
    → IsComposed s
    → IsComposed (after actions s)
unfolding after
after-IsComposed [] s h = h
after-IsComposed (a ∷ rest) s h =
    after-IsComposed rest (composer_reducer s a) (composer_reducer-IsComposed s a h)
