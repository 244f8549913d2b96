-- ===== src/Trades/Close.antt =====
-- apps/api/src/trades/trade-close.service.ts: `close`, the only way a trade changes status. The
-- trade's terms are those of the row that the caller read, which may be older than the table.
use pokedrop.Base.{
  ℕ, Bool, true, false, Option, none, some, ◌∷◌, if◌then◌else◌, Result, ok, err, Error,
  trade_not_pending, trade_not_reversible, ◌>>=◌,
}
use pokedrop.Base.Dict.{Dict, lookup, insert}
use pokedrop.Inventory.{UserId, Inventory, release}
use pokedrop.Schema.Trade.{
  TradeId, TradeStatus, pending, same_status, TradeTerms, TradeRow, offered_changes,
}
use pokedrop.Schema.Database.{Database, TradeAction, trade_entry}

pub record CloseOptions : Type 0 where
  pub from : TradeStatus
  pub to : TradeStatus
  pub action : TradeAction
  pub actor : Option UserId
  pub release : Bool

abbrev pub close_error : TradeStatus → Error
close_error from = if same_status from pending then trade_not_pending else trade_not_reversible

-- The guarded `updateMany`, and the refusal where it matched no row.
unfoldable pub close_row :
    TradeId → TradeStatus → TradeStatus → ℕ → Dict TradeRow → Result (Dict TradeRow)
close_row id from to now trades = elim (lookup id trades) [
  | none ↦ err (close_error from)
  | some current ↦
      if same_status current.status from
      then ok (insert id (record current { status = to; resolved_at = some now }) trades)
      else err (close_error from)
]

unfoldable pub release_offered : Bool → TradeTerms → Inventory → Result Inventory
release_offered true t inv = release t.initiator (offered_changes t) inv
release_offered false t inv = ok inv

unfoldable pub close : TradeId → TradeTerms → CloseOptions → ℕ → Database → Result Database
close id t o now db = do
  trades ← close_row id o.from o.to now db.trades
  inventory ← release_offered o.release t db.inventory
  ok (record db {
    trades = trades;
    inventory = inventory;
    audit = trade_entry o.actor o.action id (some o.from) o.to ∷ db.audit;
  })
