-- ===== src/System/Openings/Trading.antt =====
-- The rows of openings in the transactions of trades.
use pokedrop.Base.{
  ℕ, ◌≡◌, ◌∙◌, false, none, some, ok, arith, Bool-cases, inl, inr, >>=-eq-ok, require, ltb, length,
  counter_limit,
}
use pokedrop.Inventory.{UserId, lock}
use pokedrop.Schema.Trade.{
  TradeId, TradeTerms, TradeRow, TradeInput, pending, accepted, countered, same_status,
  max_counter_chain,
}
use pokedrop.Schema.Database.{Database, TradeAction}
use pokedrop.Trades.{
  CloseOptions, close, settle, reverse, create_trade, new_terms, propose_in, accept_in, counter_in,
  swap_locks, chain_length, closes, void_in,
}

pub close-openings :
    (id : TradeId) (t : TradeTerms) (o : CloseOptions) (now : ℕ) (db : Database) {db' : Database}
    → close id t o now db ≡ ok db'
    → db'.openings ≡ db.openings
unfolding close
close-openings id t o now db e = ground arith

settle-openings :
    (id : TradeId) (t : TradeTerms) (db : Database) {db' : Database}
    → settle id t db ≡ ok db'
    → db'.openings ≡ db.openings
unfolding settle
settle-openings id t db e = ground arith

reverse-openings :
    (id : TradeId) (t : TradeTerms) (db : Database) {db' : Database}
    → reverse id t db ≡ ok db'
    → db'.openings ≡ db.openings
unfolding reverse
reverse-openings id t db e = ground arith

create_trade-openings :
    (id : TradeId) (t : TradeTerms) (db : Database) {db' : Database}
    → create_trade id t db ≡ ok db'
    → db'.openings ≡ db.openings
unfolding create_trade
create_trade-openings id t db e = ground arith

pub propose-openings :
    (user recipient : UserId) (input : TradeInput) (id : TradeId) (now : ℕ) (db : Database)
    {db' : Database}
    → propose_in user recipient input id now db ≡ ok db'
    → db'.openings ≡ db.openings
unfolding propose_in
propose-openings user recipient input id now db e =
    let t = new_terms user recipient input none now in
    let (made, c, rest) = >>=-eq-ok (create_trade id t db) _ e in
    let (inv, _, last) = >>=-eq-ok (lock user input.offered made.inventory) _ rest in
    ground (arith, last, create_trade-openings id t db c)

pub accept-openings :
    (user : UserId) (id : TradeId) (t : TradeTerms) (now : ℕ) (db : Database) {db' : Database}
    → accept_in user id t now db ≡ ok db'
    → db'.openings ≡ db.openings
unfolding accept_in
accept-openings user id t now db e =
    let o = closes pending accepted TradeAction.accept user false in
    let (closed, c, rest) = >>=-eq-ok (close id t o now db) _ e in
    settle-openings id t closed rest ∙ close-openings id t o now db c

pub counter-openings :
    (user : UserId) (original : TradeId) (t : TradeTerms) (input : TradeInput) (id : TradeId)
    (now : ℕ) (db : Database) {db' : Database}
    → counter_in user original t input id now db ≡ ok db'
    → db'.openings ≡ db.openings
unfolding counter_in
counter-openings user original t input id now db e =
    let o = closes pending countered TradeAction.counter user false in
    let n = new_terms user t.initiator input (some original) now in
    let (closed, c₁, rest₁) = >>=-eq-ok (close original t o now db) _ e in
    let (_, _, rest₂) =
      >>=-eq-ok
        (require
          (ltb (chain_length (length closed.trades) original closed.trades) max_counter_chain)
          counter_limit)
        _ rest₁ in
    let (created, c₂, rest₃) = >>=-eq-ok (create_trade id n closed) _ rest₂ in
    let (inv, _, last) = >>=-eq-ok (swap_locks user t input.offered created.inventory) _ rest₃ in
    ground
      (arith, last, close-openings original t o now db c₁, create_trade-openings id n closed c₂)

pub void-openings :
    (admin : UserId) (id : TradeId) (row : TradeRow) (now : ℕ) (db : Database) {db' : Database}
    → void_in admin id row now db ≡ ok db'
    → db'.openings ≡ db.openings
unfolding void_in
void-openings admin id row now db e = elim (Bool-cases (same_status row.status accepted)) [
  | inl is_accepted ↦
      let (closed, c, rest) = >>=-eq-ok (close id row.terms _ now db) _ (rw is_accepted at e) in
      reverse-openings id row.terms closed rest ∙ close-openings id row.terms _ now db c
  | inr is_open ↦ close-openings id row.terms _ now db (rw is_open at e)
]
