-- ===== src/Trades/Promises.antt =====
-- What the pending trades promise, and how closing or creating a trade changes it.
use pokedrop.Base.{
  ℕ, ◌+◌, ◌≡◌, refl, true, false, ◌&&◌, some, List, [], ◌∷◌, ◌++◌, map, ◌==◌, if◌then◌else◌, sum_of,
  sum_of-append, sum_of-sort_by, filter_by, sort_by, ok, arith, Option-cases, inl, inr,
}
use pokedrop.Base.Dict.{Dict, lookup, insert, sum_rows, sum_rows-insert}
use pokedrop.Inventory.{UserId, CardId, QuantityChange}
use pokedrop.Inventory.Locking.{asked}
use pokedrop.Schema.Trade.{
  TradeId, TradeStatus, pending, same_status, TradeItem, TradeTerms, TradeRow, TradeInput, offered,
  requested, is_offered, to_change, to_item, offered_changes, trade_lines, item_le,
}
use pokedrop.Trades.{close_row}

-- The copies of a card that the offered items name.
abbrev pub offered_of : CardId → List TradeItem → ℕ
offered_of c = sum_of (λ i. if is_offered i && i.card == c then i.quantity else 0)

pub asked-offered_changes :
    (c : CardId) (t : TradeTerms) → asked c (offered_changes t) ≡ offered_of c t.items
unfolding offered_changes
asked-offered_changes c t = go t.items
  where
    go :
        (items : List TradeItem)
        → asked c (map to_change (filter_by is_offered items)) ≡ offered_of c items
    go [] = refl
    go (i ∷ items) = ground (arith, go items)

offered_of-offered :
    (c : CardId) (ls : List QuantityChange) → offered_of c (map (to_item offered) ls) ≡ asked c ls
offered_of-offered c [] = refl
offered_of-offered c (l ∷ ls) = ground (arith, offered_of-offered c ls)

offered_of-requested :
    (c : CardId) (ls : List QuantityChange) → offered_of c (map (to_item requested) ls) ≡ 0
offered_of-requested c [] = refl
offered_of-requested c (l ∷ ls) = ground (arith, offered_of-requested c ls)

-- The rows that a request creates offer what the request offers.
pub offered_of-new :
    (c : CardId) (input : TradeInput)
    → offered_of c (sort_by item_le (trade_lines input)) ≡ asked c input.offered
unfolding trade_lines
offered_of-new c input = omega (
  arith,
  sum_of-sort_by (λ i. if is_offered i && i.card == c then i.quantity else 0) item_le
      (map (to_item offered) input.offered ++ map (to_item requested) input.requested),
  sum_of-append (λ i. if is_offered i && i.card == c then i.quantity else 0)
      (map (to_item offered) input.offered) (map (to_item requested) input.requested),
  offered_of-offered c input.offered,
  offered_of-requested c input.requested,
)

-- What one row promises of a user's card.
abbrev pub promise : UserId → CardId → TradeRow → ℕ
promise u c row =
    if same_status row.status pending && row.initiator == u then offered_of c row.items else 0

-- docs/DataModel.md: the sum of OFFERED quantities over PENDING trades that the user initiated.
abbrev pub promised : UserId → CardId → Dict TradeRow → ℕ
promised u c = sum_rows (promise u c)

-- The row that a caller read is older than the table at most in its status.
abbrev pub IsSnapshot : TradeId → TradeTerms → Dict TradeRow → Type 0
IsSnapshot id t trades = (row : TradeRow) × (lookup id trades ≡ some row) × (row.terms ≡ t)

-- A guarded status change that goes through found the row in its expected status.
pub close_row-ok :
    (id : TradeId) (from to : TradeStatus) (now : ℕ) (trades : Dict TradeRow)
    {trades' : Dict TradeRow}
    → close_row id from to now trades ≡ ok trades'
    → (row : TradeRow) × (lookup id trades ≡ some row)
      × (same_status row.status from ≡ true)
      × (trades' ≡ insert id (record row { status = to; resolved_at = some now }) trades)
unfolding close_row
close_row-ok id from to now trades e = elim (Option-cases (lookup id trades)) [
  | inl missing ↦ ground (arith, missing)
  | inr (row, there) ↦ (row, there, ground (arith, there), ground (arith, there))
]

-- Closing a trade takes its promise away.
pub promised-close_row :
    (id : TradeId) (t : TradeTerms) (from to : TradeStatus) (now : ℕ) (trades : Dict TradeRow)
    {trades' : Dict TradeRow} (u : UserId) (c : CardId)
    → same_status to pending ≡ false
    → IsSnapshot id t trades
    → close_row id from to now trades ≡ ok trades'
    → promised u c trades'
        + (if same_status from pending && t.initiator == u then offered_of c t.items else 0)
      ≡ promised u c trades
promised-close_row id t from to now trades u c done (cur, here, same) e =
    let (row, there, in_from, next) = close_row-ok id from to now trades e in
    let one : row ≡ cur = cc (here, there) in
    ground (
      arith,
      next,
      one,
      same,
      in_from,
      done,
      sum_rows-insert (promise u c) id (record row { status = to; resolved_at = some now }) row
          trades there,
    )
