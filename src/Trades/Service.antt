-- ===== src/Trades/Service.antt =====
-- apps/api/src/trades/trades.service.ts. Each handler is split as the code is: what it reads before
-- its transaction, the transaction (`…_in`, on a row that may have been read earlier), and the
-- notifications after the commit. An error rolls the transaction back, so it carries no database.
use pokedrop.Base.{
  ℕ, zero, suc, Bool, true, false, not, ◌&&◌, Option, none, some, List, [], ◌∷◌, ◌++◌, map, ◌==◌,
  ltb, if◌then◌else◌, contains, some_of, every, length, sort_by, Result, ok, err, Error,
  bad_request, not_found, forbidden, insufficient_funds, counter_limit, unique_violation,
  check_violation, foreign_key_violation, has_code, require, ◌>>=◌, ◌>>◌,
}
use pokedrop.Base.Dict.{Dict, lookup, insert}
use pokedrop.Inventory.{UserId, QuantityChange, Inventory, lock, release}
use pokedrop.Wallet.{User}
use pokedrop.Schema.Trade.{
  TradeId, TradeStatus, pending, accepted, declined, countered, cancelled, voided, same_status,
  TradeTerms, TradeRow, TradeInput, offered_changes, trade_lines, item_le, cards_of, check_terms,
  max_counter_chain,
}
use pokedrop.Schema.Database.{
  Database, TradeAction, propose, accept, decline, cancel, counter, void, trade_entry,
  NotificationType, trade_proposed, trade_accepted, trade_declined, trade_cancelled,
  trade_countered, trade_voided,
}
use pokedrop.Trades.Close.{CloseOptions, close}
use pokedrop.Trades.Settlement.{settle, reverse}

abbrev set_inventory : Inventory → Database → Database
set_inventory inv db = record db { inventory = inv }

abbrev record_audit :
    UserId → TradeAction → TradeId → Option TradeStatus → TradeStatus → Database → Database
record_audit actor action id from to db = record db {
  audit = trade_entry (some actor) action id from to ∷ db.audit;
}

abbrev pub notify : List UserId → NotificationType → TradeId → Database → Database
notify users type id db = record db {
  notifications =
      map (λ u. record { user = u; type = type; subject = id }) users ++ db.notifications;
}

-- The terms of the row that `propose` and `counter` create; its items are read in `TRADE_SELECT`'s
-- order, and stand so from the start.
unfoldable pub new_terms : UserId → UserId → TradeInput → Option TradeId → ℕ → TradeTerms
new_terms initiator recipient input countered_trade now = record {
  initiator = initiator;
  recipient = recipient;
  currency_from_initiator = input.currency_from_initiator;
  currency_from_recipient = input.currency_from_recipient;
  countered_trade = countered_trade;
  created_at = now;
  items = sort_by item_le (trade_lines input);
}

abbrev pub exists {ℓ} : {A : Type ℓ} → Option A → Bool
exists none = false
exists (some _) = true

abbrev pub counters : Option TradeId → TradeRow → Bool
counters none row = false
counters (some id) row = elim row.countered_trade [ none ↦ false | some j ↦ j == id ]

-- `tx.trade.create` under the constraints of the schema: a new id, two parties that exist and
-- differ, cards that exist, and no other counter to the same trade.
unfoldable pub create_trade : TradeId → TradeTerms → Database → Result Database
create_trade id t db = do
  require (not (t.initiator == t.recipient)) check_violation
  require (not (exists (lookup id db.trades))) unique_violation
  require (not (some_of (λ row. counters t.countered_trade row.1) db.trades)) unique_violation
  require (exists (lookup t.initiator db.accounts.users)) foreign_key_violation
  require (exists (lookup t.recipient db.accounts.users)) foreign_key_violation
  require (every (λ i. contains i.card db.cards) t.items) foreign_key_violation
  ok (record db {
    trades = insert id (record { terms = t; status = pending; resolved_at = none }) db.trades;
  })

unfoldable pub assert_terms : UserId → TradeInput → Database → Result (Unit {0})
assert_terms initiator input db = do
  require (every (λ c. contains c db.cards) (cards_of input.offered ++ cards_of input.requested))
      bad_request
  elim (lookup initiator db.accounts.users) [
    | none ↦ if ltb 0 input.currency_from_initiator then err not_found else ok tt
    | some me ↦
        if ltb 0 input.currency_from_initiator && ltb me.currency input.currency_from_initiator
        then err insufficient_funds
        else ok tt
  ]

-- The transaction of `propose`.
unfoldable pub propose_in : UserId → UserId → TradeInput → TradeId → ℕ → Database → Result Database
propose_in user recipient input id now db = do
  created ← create_trade id (new_terms user recipient input none now) db
  inventory ← lock user input.offered created.inventory
  ok (record_audit user propose id none pending (set_inventory inventory created))

abbrev pub can_answer : Option User → Bool
can_answer none = false
can_answer (some u) = elim u.suspended_at [ none ↦ true | some _ ↦ false ]

-- `propose`, behind the validation of the request's body.
unfoldable pub propose_trade :
    UserId → UserId → TradeInput → TradeId → ℕ → Database → Result Database
propose_trade user recipient input id now db = do
  require (check_terms input) bad_request
  require (not (recipient == user)) bad_request
  require (can_answer (lookup recipient db.accounts.users)) not_found
  assert_terms user input db
  proposed ← propose_in user recipient input id now db
  ok (notify (recipient ∷ []) trade_proposed id proposed)

unfoldable pub load_any : TradeId → Database → Result TradeRow
load_any id db = elim (lookup id db.trades) [ none ↦ err not_found | some row ↦ ok row ]

unfoldable pub load_as_party : UserId → TradeId → Database → Result TradeRow
load_as_party user id db = elim (lookup id db.trades) [
  | none ↦ err not_found
  | some row ↦
      if not (row.initiator == user) && not (row.recipient == user) then err not_found else ok row
]

pub data PartyRole : Type 0 where
  initiator_role recipient_role : PartyRole

abbrev pub holder : PartyRole → TradeRow → UserId
holder initiator_role row = row.initiator
holder recipient_role row = row.recipient

unfoldable pub assert_role : TradeRow → UserId → PartyRole → Result (Unit {0})
assert_role row user role = require (holder role row == user) forbidden

unfoldable pub counterparty : TradeRow → UserId → UserId
counterparty row user = if row.initiator == user then row.recipient else row.initiator

unfoldable pub finish :
    PartyRole
    → TradeStatus
    → TradeAction
    → NotificationType
    → UserId
    → TradeId
    → ℕ
    → Database
    → Result Database
finish role to action type user id now db = do
  row ← load_as_party user id db
  assert_role row user role
  closed ←
      close id row.terms
        (record { from = pending; to = to; action = action; actor = some user; release = true }) now
        db
  ok (notify (counterparty row user ∷ []) type id closed)

unfoldable pub decline_trade : UserId → TradeId → ℕ → Database → Result Database
decline_trade = finish recipient_role declined decline trade_declined

unfoldable pub cancel_trade : UserId → TradeId → ℕ → Database → Result Database
cancel_trade = finish initiator_role cancelled cancel trade_cancelled

abbrev pub closes : TradeStatus → TradeStatus → TradeAction → UserId → Bool → CloseOptions
closes from to action actor release = record {
  from = from;
  to = to;
  action = action;
  actor = some actor;
  release = release;
}

-- The transaction of `accept`.
unfoldable pub accept_in : UserId → TradeId → TradeTerms → ℕ → Database → Result Database
accept_in user id t now db = do
  closed ← close id t (closes pending accepted accept user false) now db
  settle id t closed

unfoldable pub accept_trade : UserId → TradeId → ℕ → Database → Result Database
accept_trade user id now db = do
  row ← load_as_party user id db
  assert_role row user recipient_role
  settled ← accept_in user id row.terms now db
  ok (notify (row.initiator ∷ []) trade_accepted id settled)

-- The rows that the recursive query counts, `fuel` of them at most.
unfoldable pub chain_length : ℕ → TradeId → Dict TradeRow → ℕ
chain_length zero id trades = 0
chain_length (suc fuel) id trades = elim (lookup id trades) [
  | none ↦ 0
  | some row ↦ elim row.countered_trade [ none ↦ 1 | some j ↦ suc (chain_length fuel j trades) ]
]

-- The lock and the release of a counter, in ascending user order.
unfoldable pub swap_locks : UserId → TradeTerms → List QuantityChange → Inventory → Result Inventory
swap_locks user original offered inv =
    if ltb original.initiator user
    then (do
      released ← release original.initiator (offered_changes original) inv
      lock user offered released)
    else (do
      locked ← lock user offered inv
      release original.initiator (offered_changes original) locked)

-- The transaction of `counter`.
unfoldable pub counter_in :
    UserId → TradeId → TradeTerms → TradeInput → TradeId → ℕ → Database → Result Database
counter_in user original t input id now db = do
  closed ← close original t (closes pending countered counter user false) now db
  require (ltb (chain_length (length closed.trades) original closed.trades) max_counter_chain)
      counter_limit
  created ← create_trade id (new_terms user t.initiator input (some original) now) closed
  inventory ← swap_locks user t input.offered created.inventory
  ok (record_audit user propose id none pending (set_inventory inventory created))

unfoldable pub counter_trade :
    UserId → TradeId → TradeInput → TradeId → ℕ → Database → Result Database
counter_trade user original input id now db = do
  require (check_terms input) bad_request
  row ← load_as_party user original db
  assert_role row user recipient_role
  assert_terms user input db
  done ← counter_in user original row.terms input id now db
  ok (notify (row.initiator ∷ []) trade_countered id done)

-- `voidIn`, on the row that the admin's request read.
unfoldable pub void_in : UserId → TradeId → TradeRow → ℕ → Database → Result Database
void_in admin id row now db =
    if same_status row.status accepted
    then (do
      closed ← close id row.terms (closes accepted voided void admin false) now db
      reverse id row.terms closed)
    else close id row.terms (closes pending voided void admin true) now db

unfoldable pub void_trade : UserId → TradeId → ℕ → Database → Result Database
void_trade admin id now db = do
  row ← load_any id db
  done ← void_in admin id row now db
  ok (notify (row.initiator ∷ row.recipient ∷ []) trade_voided id done)

-- `voidCheck`: the void in a transaction that always rolls back, so the answer is all there is.
pub data VoidCheck : Type 0 where
  voidable : VoidCheck
  refused : Error → VoidCheck

unfoldable pub void_check : UserId → TradeId → ℕ → Database → Result VoidCheck
void_check admin id now db = do
  row ← load_any id db
  elim (void_in admin id row now db) [
    | ok _ ↦ ok voidable
    | err e ↦ if has_code e then ok (refused e) else err e
  ]
