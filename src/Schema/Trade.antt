-- ===== src/Schema/Trade.antt =====
-- A trade: its row with its items (apps/api/src/trades/trade-row.ts), and the terms that a request
-- states (packages/shared/src/entities/trade.ts).
use pokedrop.Base.{
  ℕ, ◌+◌, Bool, true, false, ◌&&◌, not, Option, List, [], ◌∷◌, ◌++◌, map, ◌==◌, leb, if◌then◌else◌,
  contains, some_of, every, filter_by, length,
}
use pokedrop.Inventory.{UserId, CardId, QuantityChange}

abbrev pub TradeId : Type 0
TradeId = ℕ

pub data TradeStatus : Type 0 where
  pending accepted declined countered cancelled voided : TradeStatus

abbrev pub status_code : TradeStatus → ℕ
status_code pending = 0
status_code accepted = 1
status_code declined = 2
status_code countered = 3
status_code cancelled = 4
status_code voided = 5

abbrev pub same_status : TradeStatus → TradeStatus → Bool
same_status s t = status_code s == status_code t

pub data TradeItemSide : Type 0 where
  offered requested : TradeItemSide

pub record TradeItem : Type 0 where
  pub side : TradeItemSide
  pub card : CardId
  pub quantity : ℕ

-- What a trade is about; no statement of the program updates these columns.
pub record TradeTerms : Type 0 where
  pub initiator : UserId
  pub recipient : UserId
  pub currency_from_initiator : ℕ
  pub currency_from_recipient : ℕ
  pub countered_trade : Option TradeId
  pub created_at : ℕ
  pub items : List TradeItem

pub record TradeRow : Type 0 where
  pub terms : TradeTerms
  pub open terms use *
  pub status : TradeStatus
  pub resolved_at : Option ℕ

abbrev pub is_offered : TradeItem → Bool
is_offered i = elim i.side [ offered ↦ true | requested ↦ false ]

abbrev pub to_change : TradeItem → QuantityChange
to_change i = record { card = i.card; quantity = i.quantity }

unfoldable pub offered_changes : TradeTerms → List QuantityChange
offered_changes t = map to_change (filter_by is_offered t.items)

-- The body of a propose or counter request.
pub record TradeInput : Type 0 where
  pub offered : List QuantityChange
  pub requested : List QuantityChange
  pub currency_from_initiator : ℕ
  pub currency_from_recipient : ℕ

abbrev pub to_item : TradeItemSide → QuantityChange → TradeItem
to_item s l = record { side = s; card = l.card; quantity = l.quantity }

unfoldable pub trade_lines : TradeInput → List TradeItem
trade_lines input = map (to_item offered) input.offered ++ map (to_item requested) input.requested

-- `orderBy: [{ side: 'asc' }, { cardId: 'asc' }]`
unfoldable pub item_le : TradeItem → TradeItem → Bool
item_le a b = elim a.side [
  | offered ↦ elim b.side [ offered ↦ leb a.card b.card | requested ↦ true ]
  | requested ↦ elim b.side [ offered ↦ false | requested ↦ leb a.card b.card ]
]

-- `new Set(xs)` as the list of its elements.
unfoldable pub set_of : List CardId → List CardId
set_of [] = []
set_of (x ∷ xs) = let rest = set_of xs in if contains x xs then rest else x ∷ rest

abbrev pub max_trade_lines : ℕ
max_trade_lines = 20

abbrev pub max_trade_line_quantity : ℕ
max_trade_line_quantity = 100

abbrev pub max_trade_currency : ℕ
max_trade_currency = 1_000_000

abbrev pub max_counter_chain : ℕ
max_counter_chain = 10

-- `TradeLineSchema`
unfoldable pub is_line : QuantityChange → Bool
is_line l = leb 1 l.quantity && leb l.quantity max_trade_line_quantity

abbrev pub cards_of : List QuantityChange → List CardId
cards_of = map (λ l. l.card)

abbrev pub is_side : List QuantityChange → Bool
is_side ls =
    every is_line ls
    && (leb (length ls) max_trade_lines && length (set_of (cards_of ls)) == length ls)

-- `TRADE_TERMS` and `checkTerms`: whether the schema admits a request's terms.
unfoldable pub check_terms : TradeInput → Bool
check_terms t =
    is_side t.offered
    && (is_side t.requested
        && (leb t.currency_from_initiator max_trade_currency
            && (leb t.currency_from_recipient max_trade_currency
                && (not (
                      length t.offered + length t.requested == 0
                      && (t.currency_from_initiator == 0 && t.currency_from_recipient == 0))
                    && not (
                        some_of (λ c. contains c (set_of (cards_of t.requested)))
                          (set_of (cards_of t.offered)))))))
