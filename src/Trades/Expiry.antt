-- ===== src/Trades/Expiry.antt =====
-- apps/api/src/trades/trade-expiry.service.ts: the expiry of one batch of trades, each in its own
-- transaction, and the choice of a batch.
use pokedrop.Base.{
  ℕ, ◌+◌, Bool, true, ◌&&◌, ◌||◌, Option, none, some, [], ◌∷◌, ◌==◌, ltb, leb, filter_by, take,
  sort_by, Result, ok, err, trade_not_pending,
}
use pokedrop.Base.Dict.{Dict}
use pokedrop.Schema.Trade.{TradeId, pending, cancelled, same_status, TradeRow}
use pokedrop.Schema.Database.{Database, TradeAction, trade_expired}
use pokedrop.Trades.{CloseOptions, close, notify}

abbrev pub batch_size : ℕ
batch_size = 200

-- `{ status: 'PENDING', createdAt: { lt: cutoff } }`, past the last trade of the batch before.
abbrev is_past : Option (ℕ × TradeId) → TradeId → TradeRow → Bool
is_past none id row = true
is_past (some (created_at, last)) id row =
    ltb created_at row.created_at || (row.created_at == created_at && ltb last id)

abbrev pub is_stale : ℕ → Option (ℕ × TradeId) → TradeId × TradeRow → Bool
is_stale cutoff past (id, row) =
    same_status row.status pending && (ltb row.created_at cutoff && is_past past id row)

-- `orderBy: [{ createdAt: 'asc' }, { id: 'asc' }]`
abbrev pub older : TradeId × TradeRow → TradeId × TradeRow → Bool
older (i, a) (j, b) = ltb a.created_at b.created_at || (a.created_at == b.created_at && leb i j)

unfoldable pub fetch_batch : ℕ → Option (ℕ × TradeId) → Dict TradeRow → Dict TradeRow
fetch_batch cutoff past trades =
    take batch_size (sort_by older (filter_by (is_stale cutoff past) trades))

abbrev pub expiring : CloseOptions
expiring = record {
  from = pending;
  to = cancelled;
  action = TradeAction.expire;
  actor = none;
  release = true;
}

pub record Expiry : Type 0 where
  pub expired : ℕ
  pub raced : ℕ
  pub failed : ℕ
  pub database : Database

-- The `try` of the loop, with what follows it.
abbrev pub tally_close : TradeId → TradeRow → Result Database → Expiry → Expiry
tally_close id row (ok closed) x = record x {
  expired = x.expired + 1;
  database = notify (row.initiator ∷ row.recipient ∷ []) trade_expired id closed;
}
tally_close id row (err trade_not_pending) x = record x { raced = x.raced + 1 }
tally_close id row (err e) x = record x { failed = x.failed + 1 }

unfoldable pub expire_one : TradeId → TradeRow → ℕ → Expiry → Expiry
expire_one id row now x = tally_close id row (close id row.terms expiring now x.database) x

unfoldable pub expire_batch : Dict TradeRow → ℕ → Expiry → Expiry
expire_batch [] now x = x
expire_batch ((id, row) ∷ rows) now x = expire_batch rows now (expire_one id row now x)
