-- ===== src/System/Coins.antt =====
-- The coins of each trade transaction as a whole.
use pokedrop.Base.{
  ℕ, ◌≡◌, ◌∙◌, false, none, some, ◌==◌, length, ltb, ok, Bool-cases, inl, inr, >>=-eq-ok,
  ok-injective, require, counter_limit,
}
use pokedrop.Inventory.{UserId, lock}
use pokedrop.Wallet.{IsReconciledAt}
use pokedrop.Schema.Trade.{
  TradeId, TradeTerms, TradeRow, TradeInput, pending, accepted, countered, same_status,
  max_counter_chain,
}
use pokedrop.Schema.Database.{Database, TradeAction}
use pokedrop.Trades.{
  close, propose_in, accept_in, counter_in, void_in, create_trade, new_terms, closes, chain_length,
  swap_locks,
}
use pokedrop.Trades.Escrow.{close-ok, settle-ok, reverse-ok}
use pokedrop.Trades.Offers.{create_trade-ok}
use pokedrop.Trades.Coins.{Settled, move_coins-Settled, move_coins-Reversed}

pub propose-accounts :
    (user recipient : UserId) (input : TradeInput) (id : TradeId) (now : ℕ) (db : Database)
    {db' : Database}
    → propose_in user recipient input id now db ≡ ok db'
    → db'.accounts ≡ db.accounts
unfolding propose_in
propose-accounts user recipient input id now db e =
    let t = new_terms user recipient input none now in
    let (made, c₁, rest) = >>=-eq-ok (create_trade id t db) _ e in
    let (inv, _, last) = >>=-eq-ok (lock user input.offered made.inventory) _ rest in
    rw (← ok-injective last) (create_trade-ok id t db c₁).4

pub counter-accounts :
    (user : UserId) (original : TradeId) (t : TradeTerms) (input : TradeInput) (id : TradeId)
    (now : ℕ) (db : Database) {db' : Database}
    → counter_in user original t input id now db ≡ ok db'
    → db'.accounts ≡ db.accounts
unfolding counter_in
counter-accounts user original t input id now db e =
    let o = closes pending countered TradeAction.counter user false in
    let n = new_terms user t.initiator input (some original) now in
    let (closed, c₁, rest₁) = >>=-eq-ok (close original t o now db) _ e in
    let (_, _, rest₂) =
      >>=-eq-ok
        (require
          (ltb (chain_length (length closed.trades) original closed.trades) max_counter_chain)
          counter_limit)
        _ rest₁ in
    let (made, c₂, rest₃) = >>=-eq-ok (create_trade id n closed) _ rest₂ in
    let (inv, _, last) = >>=-eq-ok (swap_locks user t input.offered made.inventory) _ rest₃ in
    rw (← ok-injective last)
      ((create_trade-ok id n closed c₂).4 ∙ (close-ok original t o now db c₁).2)

pub accept-Settled :
    (user : UserId) (id : TradeId) (t : TradeTerms) (now : ℕ) (db : Database) {db' : Database}
    (u : UserId)
    → (t.initiator == t.recipient) ≡ false
    → accept_in user id t now db ≡ ok db'
    → Settled t db.accounts db'.accounts u
unfolding accept_in
accept-Settled user id t now db u apart e =
    let (closed, c₁, c₂) = >>=-eq-ok (close id t _ now db) _ e in
    let (coins, _, _) = settle-ok id t closed c₂ in
    rw (close-ok id t _ now db c₁).2 at (move_coins-Settled id t closed.accounts u apart coins)

-- A void of an accepted trade pays the coins back; one of a pending trade moves none.
pub void-IsReconciled :
    (admin : UserId) (id : TradeId) (row : TradeRow) (now : ℕ) (db : Database) {db' : Database}
    (u : UserId)
    → (row.initiator == row.recipient) ≡ false
    → void_in admin id row now db ≡ ok db'
    → IsReconciledAt u db.accounts
    → IsReconciledAt u db'.accounts
unfolding void_in
void-IsReconciled admin id row now db u apart e h =
    elim (Bool-cases (same_status row.status accepted)) [
      | inr waiting ↦ rw (close-ok id row.terms _ now db (rw waiting at e)).2 h
      | inl settled ↦
          let (closed, c₁, c₂) = >>=-eq-ok (close id row.terms _ now db) _ (rw settled at e) in
          let (coins, _, _) = reverse-ok id row.terms closed c₂ in
          (rw (close-ok id row.terms _ now db c₁).2 at
              (move_coins-Reversed id row.terms closed.accounts u apart coins)).1
            h
    ]
