-- ===== src/System/Settling.antt =====
-- When an acceptance goes through: the coins and the copies that the parties have to hold.
use pokedrop.Base.{
  ℕ, zero, suc, ◌+◌, ◌-◌, ◌≤◌, ◌≡◌, refl, true, false, some, [], ◌∷◌, ◌==◌, some_of, ok, arith,
}
use pokedrop.Base.Int.{ℤ, pos, negsuc, sub_ℕ, neg}
use pokedrop.Base.Dict.{lookup, insert, lookup-insert, sum_rows-insert}
use pokedrop.Inventory.{UserId, CardId, Inventory, quantity_of, locked_of, check_moves, apply_moves}
use pokedrop.Inventory.Progress.{Affords, apply_moves-total}
use pokedrop.Wallet.{
  User, Accounts, CurrencyTransaction, trade, balance, create_entry, debit, credit, same_key,
}
use pokedrop.Schema.Trade.{TradeId, TradeTerms, TradeRow, pending, accepted, same_status}
use pokedrop.Schema.Database.{Database, trade_entry, TradeAction, trade_accepted}
use pokedrop.System.Answers.{a_party}
use pokedrop.Trades.{
  settling, pay, pay_from, move_net, move_coins, card_moves, settle, close, close_row,
  release_offered, closes, accept_in, accept_trade, notify, recipient_role,
}
use pokedrop.Trades.Copies.{requested_of, moves_of_at}
use pokedrop.Trades.Escrow.{unlocked-moves_of}
use pokedrop.Trades.Promises.{promise}
use pokedrop.Trades.Outcomes.{closed_row}
use pokedrop.System.{IsSound}

-- The user exists and the ledger has no entry of the trade for them.
abbrev pub IsUnsettled : TradeId → UserId → Accounts → Type 0
IsUnsettled id u a =
    ((user : User) × (lookup u a.users ≡ some user))
    × ((amount : ℤ)
        → some_of (same_key (record { user = u; amount = amount; type = trade; ref = id })) a.ledger
          ≡ false)

pay-total :
    (id : TradeId) (payer payee : UserId) (n : ℕ) (a : Accounts)
    → (payer == payee) ≡ false
    → n ≤ balance payer a
    → IsUnsettled id payer a
    → IsUnsettled id payee a
    → (a' : Accounts) × (pay id settling payer payee n a ≡ ok a')
unfolding pay debit credit create_entry
pay-total id payer payee n a apart funds ((p, there), unpaid) ((q, here), unreceived) =
    let p' : User = record p { currency = p.currency - n } in
    let q' : User = record q { currency = q.currency + n } in
    let users = insert payee q' (insert payer p' a.users) in
    let out : CurrencyTransaction = record {
      user = payer;
      amount = neg (pos n);
      type = trade;
      ref = id;
    } in
    let back : CurrencyTransaction = record {
      user = payee;
      amount = pos n;
      type = trade;
      ref = id;
    } in
    (
      record { users = users; ledger = back ∷ out ∷ a.ledger },
      ground (
        arith,
        there,
        here,
        funds,
        apart,
        unpaid (neg (pos n)),
        unreceived (pos n),
        lookup-insert payer payee p' a.users,
        lookup-insert payer payer p' a.users,
        lookup-insert payee payer q' (insert payer p' a.users),
        lookup-insert payee payee q' (insert payer p' a.users),
      ),
    )

-- The net amount that each party has to pay is within its balance.
abbrev pub CanPay : TradeTerms → Accounts → Type 0
CanPay t a =
    (t.currency_from_initiator ≤ balance t.initiator a + t.currency_from_recipient)
    × (t.currency_from_recipient ≤ balance t.recipient a + t.currency_from_initiator)

sub_ℕ-suc : (m n k : ℕ) → (sub_ℕ m n ≡ pos k → k + n ≡ m) × (sub_ℕ m n ≡ negsuc k → suc k + m ≡ n)
sub_ℕ-suc m n k = ((λ e. ground arith), (λ e. ground arith))

move_net-total :
    (id : TradeId) (t : TradeTerms) (q : ℤ) (a : Accounts)
    → sub_ℕ t.currency_from_recipient t.currency_from_initiator ≡ q
    → (t.initiator == t.recipient) ≡ false
    → CanPay t a
    → IsUnsettled id t.initiator a
    → IsUnsettled id t.recipient a
    → (a' : Accounts) × (move_net id t settling q a ≡ ok a')
unfolding move_net pay_from
move_net-total id t (pos zero) a s apart funds i r = (a, refl)
move_net-total id t (pos (suc n)) a s apart funds i r =
    let back : (t.recipient == t.initiator) ≡ false = ground (arith, apart) in
    let enough : suc n ≤ balance t.recipient a = omega (
      arith,
      funds.1,
      (sub_ℕ-suc t.currency_from_recipient t.currency_from_initiator (suc n)).0 s,
    ) in
    let (a', e) = pay-total id t.recipient t.initiator (suc n) a back enough r i in (a', rw back e)
move_net-total id t (negsuc n) a s apart funds i r =
    let self : (t.initiator == t.initiator) ≡ true = ground arith in
    let enough : suc n ≤ balance t.initiator a =
      omega
        (arith, funds.0, (sub_ℕ-suc t.currency_from_recipient t.currency_from_initiator n).1 s) in
    let (a', e) = pay-total id t.initiator t.recipient (suc n) a apart enough i r in (a', rw self e)

-- The recipient has the copies asked for available.
abbrev pub CanGive : TradeTerms → Inventory → Type 0
CanGive t inv =
    (c : CardId)
    → locked_of (inv t.recipient c) + requested_of c t.items ≤ quantity_of (inv t.recipient c)

settles-Affords :
    (id : TradeId) (row : TradeRow) (db : Database) (u : UserId) (c : CardId)
    → IsSound db
    → lookup id db.trades ≡ some row
    → same_status row.status pending ≡ true
    → (row.initiator == row.recipient) ≡ false
    → CanGive row.terms db.inventory
    → Affords (card_moves row.terms) db.inventory u c
unfolding card_moves
settles-Affords id row db u c sound there waiting apart can = ground (
  arith,
  waiting,
  apart,
  sound.escrow u c,
  can c,
  moves_of_at row.initiator row.recipient row.items u c,
  unlocked-moves_of row.initiator row.recipient row.items u c,
  sum_rows-insert (promise u c) id (closed_row row accepted 0) row db.trades there,
)

abbrev accepting_row : UserId → TradeId → TradeRow → ℕ → Database → Database
accepting_row user id row now db = record db {
  trades = insert id (closed_row row accepted now) db.trades;
  audit = trade_entry (some user) TradeAction.accept id (some pending) accepted ∷ db.audit;
}

close-accepting :
    (user : UserId) (id : TradeId) (row : TradeRow) (now : ℕ) (db : Database)
    → lookup id db.trades ≡ some row
    → same_status row.status pending ≡ true
    → close id row.terms (closes pending accepted TradeAction.accept user false) now db
      ≡ ok (accepting_row user id row now db)
unfolding close close_row release_offered
close-accepting user id row now db there waiting = ground (arith, there, waiting)

accept_in-total :
    (user : UserId) (id : TradeId) (row : TradeRow) (now : ℕ) (db : Database) (a : Accounts)
    (inv : Inventory)
    → lookup id db.trades ≡ some row
    → same_status row.status pending ≡ true
    → move_coins id row.terms settling db.accounts ≡ ok a
    → apply_moves (card_moves row.terms) db.inventory ≡ ok inv
    → accept_in user id row.terms now db
      ≡ ok (record (accepting_row user id row now db) { accounts = a; inventory = inv })
unfolding accept_in settle
accept_in-total user id row now db a inv there waiting coins cards =
    rw (accept_in, close-accepting user id row now db there waiting, settle, coins, cards) refl

accept-eq :
    (user : UserId) (id : TradeId) (row : TradeRow) (now : ℕ) (db settled : Database)
    → lookup id db.trades ≡ some row
    → (row.recipient == user) ≡ true
    → accept_in user id row.terms now db ≡ ok settled
    → accept_trade user id now db ≡ ok (notify (row.initiator ∷ []) trade_accepted id settled)
unfolding accept_trade
accept-eq user id row now db settled there mine e =
    let (loaded, mine') = a_party recipient_role user id db row there mine in
    rw (accept_trade, loaded, mine', e) refl

-- In a sound database the recipient's accept of a pending trade goes through if the trade's moves
-- are well formed, each party's balance covers what it has to pay net of what it gets, the
-- recipient has the copies asked for available, and the ledger has no entry of the trade for
-- either party.
pub accept-total :
    (user : UserId) (id : TradeId) (now : ℕ) (db : Database) (row : TradeRow)
    → IsSound db
    → lookup id db.trades ≡ some row
    → same_status row.status pending ≡ true
    → (row.recipient == user) ≡ true
    → check_moves [] (card_moves row.terms) ≡ ok tt
    → CanPay row.terms db.accounts
    → CanGive row.terms db.inventory
    → IsUnsettled id row.initiator db.accounts
    → IsUnsettled id row.recipient db.accounts
    → (db' : Database) × (accept_trade user id now db ≡ ok db')
unfolding move_coins
accept-total user id now db row sound there waiting mine formed funds can i r =
    let apart = sound.apart id row there in
    let (a, coins) = move_net-total id row.terms _ db.accounts refl apart funds i r in
    let (inv, cards) =
      apply_moves-total (card_moves row.terms) db.inventory formed
        (λ u c. settles-Affords id row db u c sound there waiting apart can) in
    (
      _,
      accept-eq user id row now db _ there mine
          (accept_in-total user id row now db a inv there waiting coins cards),
    )
