-- ===== src/System/Answers.antt =====
-- Requests that a sound system never refuses: a party can always end its pending trade.
use pokedrop.Base.{ℕ, ◌≡◌, refl, true, false, some, [], ◌∷◌, ◌==◌, ok, arith}
use pokedrop.Base.Dict.{lookup}
use pokedrop.Inventory.{UserId}
use pokedrop.Schema.Trade.{
  TradeId, TradeStatus, pending, declined, cancelled, same_status, TradeRow,
}
use pokedrop.Schema.Database.{Database, TradeAction, NotificationType}
use pokedrop.Trades.{
  CloseOptions, close, load_as_party, assert_role, PartyRole, holder, recipient_role,
  initiator_role, finish, decline_trade, cancel_trade, notify, counterparty,
}
use pokedrop.Trades.Outcomes.{closed_row, close-total}
use pokedrop.System.{IsSound}

pub a_party :
    (role : PartyRole) (user : UserId) (id : TradeId) (db : Database) (row : TradeRow)
    → lookup id db.trades ≡ some row
    → (holder role row == user) ≡ true
    → (load_as_party user id db ≡ ok row) × (assert_role row user role ≡ ok tt)
unfolding load_as_party assert_role
a_party initiator_role user id db row there mine = ground (arith, there, mine)
a_party recipient_role user id db row there mine = ground (arith, there, mine)

finish-eq :
    (role : PartyRole) (to : TradeStatus) (action : TradeAction) (type : NotificationType)
    (user : UserId) (id : TradeId) (now : ℕ) (db : Database) (row : TradeRow) (closed : Database)
    → lookup id db.trades ≡ some row
    → (holder role row == user) ≡ true
    → close id row.terms
        (record { from = pending; to = to; action = action; actor = some user; release = true })
        now
        db
      ≡ ok closed
    → finish role to action type user id now db
      ≡ ok (notify (counterparty row user ∷ []) type id closed)
unfolding finish
finish-eq role to action type user id now db row closed there mine e =
    let (loaded, mine') = a_party role user id db row there mine in
    rw (finish, loaded, mine', e) refl

finish-total :
    (role : PartyRole) (to : TradeStatus) (action : TradeAction) (type : NotificationType)
    (user : UserId) (id : TradeId) (now : ℕ) (db : Database) (row : TradeRow)
    → IsSound db
    → lookup id db.trades ≡ some row
    → same_status row.status pending ≡ true
    → same_status to pending ≡ false
    → (holder role row == user) ≡ true
    → (db' : Database) × (finish role to action type user id now db ≡ ok db')
      × (lookup id db'.trades ≡ some (closed_row row to now))
finish-total role to action type user id now db row sound there waiting ends mine =
    let o : CloseOptions = record {
      from = pending;
      to = to;
      action = action;
      actor = some user;
      release = true;
    } in
    let (closed, e, after) =
      close-total id row o now db there waiting (refl, ends, refl) (sound.normal id row there)
        (λ c. sound.escrow row.initiator c) in
    (
      notify (counterparty row user ∷ []) type id closed,
      finish-eq role to action type user id now db row closed there mine e,
      after,
    )

-- In a sound database the recipient of a pending trade can always decline it, and the row is then
-- declined.
pub decline-total :
    (user : UserId) (id : TradeId) (now : ℕ) (db : Database) (row : TradeRow)
    → IsSound db
    → lookup id db.trades ≡ some row
    → same_status row.status pending ≡ true
    → (row.recipient == user) ≡ true
    → (db' : Database) × (decline_trade user id now db ≡ ok db')
      × (lookup id db'.trades ≡ some (closed_row row declined now))
unfolding decline_trade
decline-total user id now db row sound there waiting mine =
    finish-total recipient_role declined TradeAction.decline NotificationType.trade_declined user id
      now db row sound there waiting refl mine

-- In a sound database the initiator of a pending trade can always cancel it, and the row is then
-- cancelled.
pub cancel-total :
    (user : UserId) (id : TradeId) (now : ℕ) (db : Database) (row : TradeRow)
    → IsSound db
    → lookup id db.trades ≡ some row
    → same_status row.status pending ≡ true
    → (row.initiator == user) ≡ true
    → (db' : Database) × (cancel_trade user id now db ≡ ok db')
      × (lookup id db'.trades ≡ some (closed_row row cancelled now))
unfolding cancel_trade
cancel-total user id now db row sound there waiting mine =
    finish-total initiator_role cancelled TradeAction.cancel NotificationType.trade_cancelled user
      id now db row sound there waiting refl mine
