-- ===== src/System/Closing.antt =====
-- A trade is closed once, whatever transactions commit in between.
use pokedrop.Base.{ℕ, ◌≡◌, ◌∙◌, true, false, Option, some, ok, err, trade_not_pending, arith}
use pokedrop.Base.Dict.{lookup}
use pokedrop.Schema.Trade.{TradeId, TradeStatus, pending, same_status, TradeTerms, TradeRow}
use pokedrop.Schema.Database.{Database}
use pokedrop.Trades.{CloseOptions, close}
use pokedrop.Trades.Lifecycle.{RowStep, unchanged, created, moved, can_move}
use pokedrop.Trades.Outcomes.{close_after, close-refused}
use pokedrop.System.{Reach, here, next}
use pokedrop.System.Soundness.{Step-Evolves}

-- The row is there, and no longer pending.
abbrev IsSettled : Option TradeRow → Type 0
IsSettled o = (row : TradeRow) × (o ≡ some row) × (same_status row.status pending ≡ false)

moves_on : (from to : TradeStatus) → can_move from to ≡ true → same_status to pending ≡ false
moves_on from to m = ground arith

RowStep-IsSettled :
    (before after : Option TradeRow) → RowStep before after → IsSettled before → IsSettled after
RowStep-IsSettled before after (unchanged same) (row, there, s) = (row, same ∙ there, s)
RowStep-IsSettled before after (created t differ normal new e) (row, there, s) = absurd (cc)
RowStep-IsSettled before after (moved was to now m there e) settled =
    (record was { status = to; resolved_at = some now }, e, moves_on was.status to m)

Reach-IsSettled :
    {db later : Database} (id : TradeId)
    → Reach db later
    → IsSettled (lookup id db.trades)
    → IsSettled (lookup id later.trades)
Reach-IsSettled id here s = s
Reach-IsSettled id (next r e) s = RowStep-IsSettled _ _ (Step-Evolves e id) (Reach-IsSettled id r s)

-- After one transaction has closed a trade, a close that expects it pending is refused with
-- TRADE_NOT_PENDING, whatever transactions commit in between.
pub close_once :
    (id : TradeId) (t t' : TradeTerms) (o o' : CloseOptions) (now at : ℕ) (db : Database)
    {db' later : Database}
    → o'.from ≡ pending
    → same_status o.to pending ≡ false
    → close id t o now db ≡ ok db'
    → Reach db' later
    → close id t' o' at later ≡ err trade_not_pending
close_once id t t' o o' now at db {later = later} p q e r =
    let (row, there, status) = close_after id t o now db e in
    let settled = Reach-IsSettled id r (row, there, rw status q) in
    close-refused id t' o' at later settled.0 p settled.1 settled.2
