-- ===== src/Composer.antt =====
-- apps/web/components/trades/composer/composer-state.ts: the state of the form that composes an
-- offer. A card is its id; a text is the problem that it states. A count or an amount is a natural,
-- since the smaller bound of `clamp` takes a negative one to the same value as 0.
pub mod Reducer
pub mod Terms
pub mod Picking
use pokedrop.Base.{
  ℕ, ◌+◌, Bool, true, false, ◌&&◌, ◌||◌, not, Option, none, some, List, [], ◌∷◌, ◌++◌, map, ◌==◌,
  ltb, leb, if◌then◌else◌, length, filter_by, some_of,
}
use pokedrop.Inventory.{UserId, CardId, QuantityChange}
use pokedrop.Schema.Trade.{
  TradeId, TradeInput, max_trade_currency, max_trade_line_quantity, max_trade_lines,
}

pub data Side : Type 0 where
  give get : Side

pub record Line : Type 0 where
  pub card : CardId
  pub count : ℕ

pub data Mode : Type 0 where
  new_offer counter_offer : Mode

pub data ComposerStep : Type 0 where
  compose review : ComposerStep

pub record ComposerState : Type 0 where
  pub mode : Mode
  pub countered_id : Option TradeId
  pub counterparty : Option UserId
  pub give_lines : List Line
  pub get_lines : List Line
  pub coins_give : ℕ
  pub coins_get : ℕ
  pub step : ComposerStep

pub data ComposerAction : Type 0 where
  choose : Option UserId → ComposerAction
  add : Side → CardId → ComposerAction
  set_count : Side → CardId → ℕ → ComposerAction
  remove : Side → CardId → ComposerAction
  set_coins : Side → ℕ → ComposerAction
  go_to : ComposerStep → ComposerAction

abbrev pub empty : ComposerState
empty = record {
  mode = new_offer;
  countered_id = none;
  counterparty = none;
  give_lines = [];
  get_lines = [];
  coins_give = 0;
  coins_get = 0;
  step = compose;
}

abbrev pub lines_of : Side → ComposerState → List Line
lines_of give s = s.give_lines
lines_of get s = s.get_lines

abbrev pub with_lines : ComposerState → Side → List Line → ComposerState
with_lines s give ls = record s { give_lines = ls }
with_lines s get ls = record s { get_lines = ls }

abbrev pub min_of : ℕ → ℕ → ℕ
min_of a b = if leb a b then a else b

-- `Math.max(min, Math.min(value, max))`
unfoldable pub clamp : ℕ → ℕ → ℕ → ℕ
clamp value low high = if leb low (min_of value high) then min_of value high else low

abbrev pub has_card : CardId → List Line → Bool
has_card c = some_of (λ l. l.card == c)

-- The `lines.map` of `add`, which changes the line that `find` found: the first with the card.
unfoldable pub add_to_first : CardId → List Line → List Line
add_to_first c [] = []
add_to_first c (l ∷ ls) =
    let rest = add_to_first c ls in
    if l.card == c
    then record l { count = min_of (l.count + 1) max_trade_line_quantity } ∷ ls
    else l ∷ rest

unfoldable pub add_card : CardId → List Line → List Line
add_card c ls =
    if has_card c ls then add_to_first c ls else ls ++ record { card = c; count = 1 } ∷ []

unfoldable pub set_counts : CardId → ℕ → List Line → List Line
set_counts c n =
    map (λ l. if l.card == c then record l { count = clamp n 1 max_trade_line_quantity } else l)

unfoldable pub remove_card : CardId → List Line → List Line
remove_card c = filter_by (λ l. not (l.card == c))

-- A counter's counterparty is fixed.
abbrev pub choose_in : Mode → Option UserId → ComposerState → ComposerState
choose_in new_offer party s = record s { counterparty = party }
choose_in counter_offer party s = s

unfoldable pub composer_reducer : ComposerState → ComposerAction → ComposerState
composer_reducer s (choose party) = choose_in s.mode party s
composer_reducer s (add side c) = with_lines s side (add_card c (lines_of side s))
composer_reducer s (set_count side c n) = with_lines s side (set_counts c n (lines_of side s))
composer_reducer s (remove side c) = with_lines s side (remove_card c (lines_of side s))
composer_reducer s (set_coins give n) = record s { coins_give = clamp n 0 max_trade_currency }
composer_reducer s (set_coins get n) = record s { coins_get = clamp n 0 max_trade_currency }
composer_reducer s (go_to step) = record s { step = step }

pub data Problem : Type 0 where
  no_counterparty self_counterparty nothing_offered too_many_cards too_many_coins : Problem
  on_both_sides : CardId → Problem
  not_available : CardId → ℕ → Problem

abbrev pub when : Bool → Problem → List Problem
when true p = p ∷ []
when false p = []

abbrev pub party_problems : UserId → Option UserId → List Problem
party_problems me none = no_counterparty ∷ []
party_problems me (some u) = when (u == me) self_counterparty

-- `state.give.find(...)`: the first card that is on both sides.
unfoldable pub both_sides : List Line → List Line → List Problem
both_sides [] ys = []
both_sides (x ∷ xs) ys =
    let rest = both_sides xs ys in if has_card x.card ys then on_both_sides x.card ∷ [] else rest

unfoldable pub unavailable : (CardId → Option ℕ) → List Line → List Problem
unavailable available [] = []
unavailable available (l ∷ ls) =
    elim (available l.card) [
      | none ↦ []
      | some have ↦ when (ltb have l.count) (not_available l.card have)
    ]
    ++ unavailable available ls

abbrev pub coin_problems : ℕ → Option ℕ → List Problem
coin_problems n none = []
coin_problems n (some balance) = when (ltb balance n) too_many_coins

unfoldable pub compose_problems :
    UserId → Option ℕ → (CardId → Option ℕ) → ComposerState → List Problem
compose_problems me balance available s =
    party_problems me s.counterparty
    ++ when
        (length s.give_lines == 0
          && (length s.get_lines == 0 && (s.coins_give == 0 && s.coins_get == 0)))
        nothing_offered
    ++ when (ltb max_trade_lines (length s.give_lines) || ltb max_trade_lines (length s.get_lines))
        too_many_cards
    ++ both_sides s.give_lines s.get_lines
    ++ unavailable available s.give_lines
    ++ coin_problems s.coins_give balance

abbrev pub to_line : Line → QuantityChange
to_line l = record { card = l.card; quantity = l.count }

unfoldable pub terms_of : ComposerState → TradeInput
terms_of s = record {
  offered = map to_line s.give_lines;
  requested = map to_line s.get_lines;
  currency_from_initiator = s.coins_give;
  currency_from_recipient = s.coins_get;
}

-- The state after a sequence of actions.
unfoldable pub after : List ComposerAction → ComposerState → ComposerState
after [] s = s
after (a ∷ rest) s = after rest (composer_reducer s a)

-- Why a picker may not add one more of a card, in the order of the tests.
pub data Refusal : Type 0 where
  on_other_side side_full all_locked all_added line_full : Refusal

abbrev pub other_side : Side → Side
other_side give = get
other_side get = give

-- The count of the first line with the card, 0 if there is none.
unfoldable pub count_of : CardId → List Line → ℕ
count_of c [] = 0
count_of c (l ∷ ls) = if l.card == c then l.count else count_of c ls

abbrev pub none_left : Side → Option ℕ → Bool
none_left give (some n) = n == 0
none_left _ _ = false

abbrev pub all_taken : Side → Option ℕ → ℕ → Bool
all_taken give (some n) taken = leb n taken
all_taken _ _ taken = false

unfoldable pub pick_refusal : ComposerState → Side → CardId → Option ℕ → Option Refusal
pick_refusal s side c available =
    let lines = lines_of side s in
    if has_card c (lines_of (other_side side) s)
    then some on_other_side
    else if not (has_card c lines) && leb max_trade_lines (length lines)
    then some side_full
    else if none_left side available
    then some all_locked
    else if all_taken side available (count_of c lines)
    then some all_added
    else if leb max_trade_line_quantity (count_of c lines)
    then some line_full
    else none
