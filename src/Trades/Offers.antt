-- ===== src/Trades/Offers.antt =====
-- The transactions that create a trade, `propose` and `counter`: they lock what the new trade
-- promises, and keep the lock invariant.
use pokedrop.Base.{
  ℕ, ◌+◌, ◌≤◌, ◌≡◌, refl, false, none, some, List, ◌==◌, ltb, if◌then◌else◌, ok, arith, Bool-cases,
  inl, inr, >>=-eq-ok, require, length, counter_limit,
}
use pokedrop.Base.Dict.{lookup, insert, sum_rows-insert_new}
use pokedrop.Inventory.{
  UserId, CardId, QuantityChange, Inventory, quantity_of, locked_of, lock, release,
}
use pokedrop.Inventory.Locking.{asked_at, lock_at, release_at}
use pokedrop.Schema.Trade.{
  TradeId, pending, countered, TradeTerms, TradeInput, offered_changes, max_counter_chain,
}
use pokedrop.Schema.Database.{Database}
use pokedrop.Trades.{
  close, create_trade, propose_in, counter_in, swap_locks, new_terms, chain_length, release_offered,
  closes,
}
use pokedrop.Schema.Database.{TradeAction}
use pokedrop.Trades.Promises.{
  offered_of, asked-offered_changes, offered_of-new, promise, promised, IsSnapshot,
  promised-close_row,
}
use pokedrop.Trades.Escrow.{EscrowAt, close-ok}

-- A trade that is created has a new id and two different parties, and is pending.
pub create_trade-ok :
    (id : TradeId) (t : TradeTerms) (db : Database) {db' : Database}
    → create_trade id t db ≡ ok db'
    → (lookup id db.trades ≡ none)
      × ((t.initiator == t.recipient) ≡ false)
      × (db'.trades
          ≡ insert id (record { terms = t; status = pending; resolved_at = none }) db.trades)
      × (db'.inventory ≡ db.inventory)
      × (db'.accounts ≡ db.accounts)
unfolding create_trade
create_trade-ok id t db e = ground arith

promised-create :
    (id : TradeId) (t : TradeTerms) (db : Database) {db' : Database} (u : UserId) (c : CardId)
    → create_trade id t db ≡ ok db'
    → promised u c db'.trades
      ≡ promised u c db.trades + (if t.initiator == u then offered_of c t.items else 0)
promised-create id t db u c e =
    let (fresh, _, made, _, _) = create_trade-ok id t db e in
    ground (
      arith,
      made,
      sum_rows-insert_new (promise u c) id
          (record { terms = t; status = pending; resolved_at = none }) db.trades fresh,
    )

-- Both orders of a counter's release and lock come to the same at every row.
swap_locks_at :
    (user : UserId) (t : TradeTerms) (lines : List QuantityChange) (inv : Inventory)
    {inv' : Inventory} (u : UserId) (c : CardId)
    → swap_locks user t lines inv ≡ ok inv'
    → (quantity_of (inv' u c) ≡ quantity_of (inv u c))
      × (locked_of (inv' u c) + asked_at t.initiator (offered_changes t) u c
          ≡ locked_of (inv u c) + asked_at user lines u c)
      × (locked_of (inv u c) ≤ quantity_of (inv u c)
          → locked_of (inv' u c) ≤ quantity_of (inv' u c))
unfolding swap_locks
swap_locks_at user t lines inv u c e = elim (Bool-cases (ltb t.initiator user)) [
  | inl first ↦
      let (mid, a, b) =
        >>=-eq-ok (release t.initiator (offered_changes t) inv) (lock user lines) (rw first at e) in
      ground
        (arith, release_at t.initiator (offered_changes t) inv u c a, lock_at user lines mid u c b)
  | inr second ↦
      let (mid, a, b) =
        >>=-eq-ok (lock user lines inv) (release t.initiator (offered_changes t))
          (rw second at e) in
      ground
        (arith, release_at t.initiator (offered_changes t) mid u c b, lock_at user lines inv u c a)
]

pub propose-EscrowAt :
    (user recipient : UserId) (input : TradeInput) (id : TradeId) (now : ℕ) (db : Database)
    {db' : Database} (u : UserId) (c : CardId)
    → propose_in user recipient input id now db ≡ ok db'
    → EscrowAt u c db
    → EscrowAt u c db'
unfolding propose_in new_terms
propose-EscrowAt user recipient input id now db u c e h =
    let t = new_terms user recipient input none now in
    let (created, c₁, rest) = >>=-eq-ok (create_trade id t db) _ e in
    let (inv, c₂, last) = >>=-eq-ok (lock user input.offered created.inventory) _ rest in
    ground (
      arith,
      last,
      create_trade-ok id t db c₁,
      promised-create id t db u c c₁,
      lock_at user input.offered created.inventory u c c₂,
      offered_of-new c input,
    )

pub counter-EscrowAt :
    (user : UserId) (original : TradeId) (t : TradeTerms) (input : TradeInput) (id : TradeId)
    (now : ℕ) (db : Database) {db' : Database} (u : UserId) (c : CardId)
    → IsSnapshot original t db.trades
    → counter_in user original t input id now db ≡ ok db'
    → EscrowAt u c db
    → EscrowAt u c db'
unfolding counter_in new_terms release_offered
counter-EscrowAt user original t input id now db u c s e h =
    let o = closes pending countered TradeAction.counter user false in
    let n = new_terms user t.initiator input (some original) now in
    let (closed, c₁, rest₁) = >>=-eq-ok (close original t o now db) _ e in
    let (_, _, rest₂) =
      >>=-eq-ok
        (require
          (ltb (chain_length (length closed.trades) original closed.trades) max_counter_chain)
          counter_limit)
        _ rest₁ in
    let (created, c₂, rest₃) = >>=-eq-ok (create_trade id n closed) _ rest₂ in
    let (inv, c₃, last) = >>=-eq-ok (swap_locks user t input.offered created.inventory) _ rest₃ in
    let (row, kept, _) = close-ok original t o now db c₁ in
    ground (
      arith,
      last,
      kept,
      create_trade-ok id n closed c₂,
      promised-create id n closed u c c₂,
      promised-close_row original t pending countered now db.trades u c refl s row,
      swap_locks_at user t input.offered created.inventory u c c₃,
      asked-offered_changes c t,
      offered_of-new c input,
    )
