-- ===== src/System/Ledger/Trading.antt =====
-- The ledger and the accounts in the transactions of trades and of pack openings.
use pokedrop.Base.{
  zero, suc, unique_violation, insufficient_funds, foreign_key_violation, ℕ, ◌≡◌, sym, true, false,
  none, some, List, ok, Bool-cases, inl, inr, >>=-eq-ok, ok-injective, require, every, contains,
}
use pokedrop.Base.Int.{ℤ, pos, negsuc, neg}
use pokedrop.Base.Dict.{lookup}
use pokedrop.Inventory.{UserId}
use pokedrop.Wallet.{Accounts, create_entry, debit, credit}
use pokedrop.Schema.Trade.{TradeId, TradeTerms, TradeRow, pending, accepted, same_status}
use pokedrop.Schema.Database.{Database, PulledCard, TradeAction}
use pokedrop.Inventory.{apply_moves}
use pokedrop.Trades.{
  Direction, settling, reversing, debit_error, entry_type, pay, pay_from, move_net, move_coins,
  card_moves, reverse_moves, as_irreversible, settle, reverse, close, closes, accept_in, void_in,
}
use pokedrop.Trades.Escrow.{close-ok}
use pokedrop.Packs.Opening.{PackTemplate, write}
use pokedrop.System.Ledger.Entries.{
  Kept, Kept-same, Kept-trans, create_entry-Kept, debit-Kept, credit-Kept,
}

pay-Kept :
    (id : TradeId) (d : Direction) (payer payee : UserId) (amount : ℕ) (a : Accounts) {b : Accounts}
    → pay id d payer payee amount a ≡ ok b
    → Kept a b
unfolding pay
pay-Kept id d payer payee amount a {b = b} e =
    let (debited, e₁, rest) = >>=-eq-ok (debit payer amount (debit_error d) a) _ e in
    let (paid, e₂, last) =
      >>=-eq-ok
        (create_entry
          (record { user = payer; amount = neg (pos amount); type = entry_type d; ref = id })
          (credit payee amount debited))
        _ rest in
    Kept-trans a debited b (debit-Kept payer amount (debit_error d) a e₁) (
      Kept-trans debited (credit payee amount debited) b (credit-Kept payee amount debited) (
        Kept-trans (credit payee amount debited) paid b
          (create_entry-Kept _ (credit payee amount debited) e₂) (create_entry-Kept _ paid last)))

pay_from-Kept :
    (id : TradeId) (t : TradeTerms) (d : Direction) (payer : UserId) (amount : ℕ) (a : Accounts)
    {b : Accounts}
    → pay_from id t d payer amount a ≡ ok b
    → Kept a b
unfolding pay_from
pay_from-Kept id t settling payer amount a e = pay-Kept id settling payer _ amount a e
pay_from-Kept id t reversing payer amount a e = pay-Kept id reversing _ payer amount a e

move_net-Kept :
    (id : TradeId) (t : TradeTerms) (d : Direction) (q : ℤ) (a : Accounts) {b : Accounts}
    → move_net id t d q a ≡ ok b
    → Kept a b
unfolding move_net
move_net-Kept id t d (pos zero) a e = Kept-same a _ (sym (ok-injective e))
move_net-Kept id t d (pos (suc n)) a e = pay_from-Kept id t d t.recipient (suc n) a e
move_net-Kept id t d (negsuc n) a e = pay_from-Kept id t d t.initiator (suc n) a e

settle-Kept :
    (id : TradeId) (t : TradeTerms) (db : Database) {db' : Database}
    → settle id t db ≡ ok db'
    → Kept db.accounts db'.accounts
unfolding settle move_coins
settle-Kept id t db e =
    let (a, e₁, rest) = >>=-eq-ok (move_coins id t settling db.accounts) _ e in
    let (inv, _, last) = >>=-eq-ok (apply_moves (card_moves t) db.inventory) _ rest in
    rw (← ok-injective last) (move_net-Kept id t settling _ db.accounts e₁)

reverse-Kept :
    (id : TradeId) (t : TradeTerms) (db : Database) {db' : Database}
    → reverse id t db ≡ ok db'
    → Kept db.accounts db'.accounts
unfolding reverse move_coins
reverse-Kept id t db e =
    let (a, e₁, rest) = >>=-eq-ok (move_coins id t reversing db.accounts) _ e in
    let (inv, _, last) =
      >>=-eq-ok (as_irreversible (apply_moves (reverse_moves t) db.inventory)) _ rest in
    rw (← ok-injective last) (move_net-Kept id t reversing _ db.accounts e₁)

pub accept-Kept :
    (user : UserId) (id : TradeId) (t : TradeTerms) (now : ℕ) (db : Database) {db' : Database}
    → accept_in user id t now db ≡ ok db'
    → Kept db.accounts db'.accounts
unfolding accept_in
accept-Kept user id t now db e =
    let o = closes pending accepted TradeAction.accept user false in
    let (closed, c, rest) = >>=-eq-ok (close id t o now db) _ e in
    rw (close-ok id t o now db c).2 at (settle-Kept id t closed rest)

pub void-Kept :
    (admin : UserId) (id : TradeId) (row : TradeRow) (now : ℕ) (db : Database) {db' : Database}
    → void_in admin id row now db ≡ ok db'
    → Kept db.accounts db'.accounts
unfolding void_in
void-Kept admin id row now db e = elim (Bool-cases (same_status row.status accepted)) [
  | inl is_accepted ↦
      let (closed, c, rest) = >>=-eq-ok (close id row.terms _ now db) _ (rw is_accepted at e) in
      rw (close-ok id row.terms _ now db c).2 at (reverse-Kept id row.terms closed rest)
  | inr is_open ↦ Kept-same db.accounts _ (close-ok id row.terms _ now db (rw is_open at e)).2
]

pub write-Kept :
    (user : UserId) (template : PackTemplate) (open_id : ℕ) (cards : List PulledCard)
    (db : Database) {db' : Database}
    → write user template open_id cards db ≡ ok db'
    → Kept db.accounts db'.accounts
unfolding write
write-Kept user template open_id cards db e =
    let (_, _, e₁) =
      >>=-eq-ok
        (require (elim (lookup open_id db.openings) [ none ↦ true | some _ ↦ false ])
          unique_violation)
        _ e in
    let (debited, d, e₂) =
      >>=-eq-ok (debit user template.cost insufficient_funds db.accounts) _ e₁ in
    let (a, c, e₃) = >>=-eq-ok (create_entry _ debited) _ e₂ in
    let (_, _, last) =
      >>=-eq-ok (require (every (λ x. contains x.card db.cards) cards) foreign_key_violation) _
        e₃ in
    rw (← ok-injective last) (
      Kept-trans db.accounts debited a (debit-Kept user template.cost _ db.accounts d)
        (create_entry-Kept _ debited c))
