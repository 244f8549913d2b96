-- ===== src/Trades/VoidAll.antt =====
-- apps/api/src/trades/trade-close.service.ts: `voidAllPendingOf`, every pending trade of a user
-- closed at once, the locks returned once per initiator.
mod Tally
pub mod Escrow
use pokedrop.Base.{
  ℕ, ◌+◌, Bool, true, false, ◌&&◌, ◌||◌, Option, none, some, List, [], ◌∷◌, ◌++◌, map, ◌==◌, leb,
  if◌then◌else◌, sort_by, Result, ok, ◌>>=◌,
}
use pokedrop.Base.Dict.{Dict, lookup, insert}
use pokedrop.Inventory.{UserId, CardId, QuantityChange, Inventory, release}
use pokedrop.Schema.Trade.{TradeId, pending, voided, same_status, TradeItem, TradeRow, is_offered}
use pokedrop.Schema.Database.{Database, TradeAction, AuditEntry, trade_entry}

-- `status = 'PENDING' AND ${userId} IN ("initiatorId", "recipientId")`
abbrev pub is_open_of : UserId → TradeRow → Bool
is_open_of user row =
    same_status row.status pending && (user == row.initiator || user == row.recipient)

-- The UPDATE of all the rows at once.
unfoldable pub void_rows : UserId → ℕ → Dict TradeRow → Dict TradeRow
void_rows user now [] = []
void_rows user now ((id, row) ∷ rows) =
    (
      id,
      (if is_open_of user row then record row { status = voided; resolved_at = some now } else row),
    )
    ∷ void_rows user now rows

-- Its RETURNING clause.
unfoldable pub voided_rows : UserId → Dict TradeRow → Dict TradeRow
voided_rows user [] = []
voided_rows user ((id, row) ∷ rows) =
    if is_open_of user row then (id, row) ∷ voided_rows user rows else voided_rows user rows

-- The nested map `locked`: by initiator, the copies of each card.
abbrev pub Locks : Type 0
Locks = Dict (Dict ℕ)

abbrev pub get_locks : UserId → Locks → Dict ℕ
get_locks u locks = elim (lookup u locks) [ none ↦ [] | some cards ↦ cards ]

abbrev pub get_count : CardId → Dict ℕ → ℕ
get_count c cards = elim (lookup c cards) [ none ↦ 0 | some n ↦ n ]

unfoldable pub add_lock : UserId → CardId → ℕ → Locks → Locks
add_lock u c n locks =
    insert u (insert c (get_count c (get_locks u locks) + n) (get_locks u locks)) locks

unfoldable pub add_items : UserId → List TradeItem → Locks → Locks
add_items u [] locks = locks
add_items u (i ∷ items) locks =
    add_items u items (if is_offered i then add_lock u i.card i.quantity locks else locks)

unfoldable pub tally_locks : Dict TradeRow → Locks → Locks
tally_locks [] locks = locks
tally_locks ((id, row) ∷ rows) locks = tally_locks rows (add_items row.initiator row.items locks)

abbrev pub changes_of : Dict ℕ → List QuantityChange
changes_of = map (λ (c, n). record { card = c; quantity = n })

-- The loop over the sorted initiators; each name is a key of `locks`.
unfoldable pub release_each : List UserId → Locks → Inventory → Result Inventory
release_each [] locks inv = ok inv
release_each (u ∷ us) locks inv = do
  released ← release u (changes_of (get_locks u locks)) inv
  release_each us locks released

abbrev pub keys_of {ℓ} : {A : Type ℓ} → Dict A → List ℕ
keys_of = map (λ e. e.0)

abbrev void_entries : Option UserId → Dict TradeRow → List AuditEntry
void_entries actor = map (λ e. trade_entry actor TradeAction.void e.0 (some pending) voided)

-- What the call returns, and the database that it leaves.
pub record Voided : Type 0 where
  pub rows : Dict TradeRow
  pub database : Database

unfoldable pub void_all_pending_of : UserId → Option UserId → ℕ → Database → Result Voided
void_all_pending_of user actor now db = do
  let gone = voided_rows user db.trades
  let locks = tally_locks gone []
  inventory ← release_each (sort_by leb (keys_of locks)) locks db.inventory
  ok (record {
    rows = gone;
    database = record db {
      trades = void_rows user now db.trades;
      inventory = inventory;
      audit = void_entries actor gone ++ db.audit;
    };
  })
