-- ===== src/Trades/Proposals.antt =====
-- What a proposal does, as the whole handler `propose` of apps/api/src/trades/trades.service.ts.
use pokedrop.Base.{
  ℕ, ◌+◌, ◌≤◌, ◌≡◌, refl, true, false, not, Option, none, some, ◌==◌, ok, bad_request, not_found,
  List, [], ◌∷◌, ◌++◌, ◌&&◌, map, if◌then◌else◌, sort_by, sum_of-sort_by, sum_of-append, require,
  >>=-eq-ok, require-eq-ok, ok-injective, arith, Option-cases, inl, inr,
}
use pokedrop.Base.Dict.{lookup, lookup-insert}
use pokedrop.Inventory.{UserId, CardId, QuantityChange, quantity_of, locked_of, lock}
use pokedrop.Inventory.Locking.{asked, asked_at, lock_at}
use pokedrop.Wallet.{User}
use pokedrop.Schema.Trade.{
  TradeId, TradeInput, TradeTerms, pending, offered, requested, is_offered, to_item, item_le,
  trade_lines, check_terms,
}
use pokedrop.Schema.Database.{Database}
use pokedrop.Trades.{assert_terms, can_answer, create_trade, new_terms, propose_in, propose_trade}
use pokedrop.Trades.Promises.{offered_of, offered_of-new}
use pokedrop.Trades.Copies.{requested_of}
use pokedrop.Trades.Offers.{create_trade-ok}

-- Terms that say what the request says, of a trade that counters none.
pub record States (user recipient : UserId) (input : TradeInput) (now : ℕ) (t : TradeTerms)
    : Type 0 where
  pub initiator : t.initiator ≡ user
  pub recipient_named : t.recipient ≡ recipient
  pub from_initiator : t.currency_from_initiator ≡ input.currency_from_initiator
  pub from_recipient : t.currency_from_recipient ≡ input.currency_from_recipient
  pub counters_none : t.countered_trade ≡ none
  pub made_now : t.created_at ≡ now
  pub offered : (c : CardId) → offered_of c t.items ≡ asked c input.offered
  pub requested : (c : CardId) → requested_of c t.items ≡ asked c input.requested

requested_of-offered :
    (c : CardId) (ls : List QuantityChange) → requested_of c (map (to_item offered) ls) ≡ 0
requested_of-offered c [] = refl
requested_of-offered c (l ∷ ls) = ground (arith, requested_of-offered c ls)

requested_of-requested :
    (c : CardId) (ls : List QuantityChange)
    → requested_of c (map (to_item requested) ls) ≡ asked c ls
requested_of-requested c [] = refl
requested_of-requested c (l ∷ ls) = ground (arith, requested_of-requested c ls)

requested_of-new :
    (c : CardId) (input : TradeInput)
    → requested_of c (sort_by item_le (trade_lines input)) ≡ asked c input.requested
unfolding trade_lines
requested_of-new c input = omega (
  arith,
  sum_of-sort_by (λ i. if not (is_offered i) && i.card == c then i.quantity else 0) item_le
      (map (to_item offered) input.offered ++ map (to_item requested) input.requested),
  sum_of-append (λ i. if not (is_offered i) && i.card == c then i.quantity else 0)
      (map (to_item offered) input.offered) (map (to_item requested) input.requested),
  requested_of-offered c input.offered,
  requested_of-requested c input.requested,
)

new_terms-States :
    (user recipient : UserId) (input : TradeInput) (now : ℕ)
    → States user recipient input now (new_terms user recipient input none now)
unfolding new_terms
new_terms-States user recipient input now = record {
  initiator = refl;
  recipient_named = refl;
  from_initiator = refl;
  from_recipient = refl;
  counters_none = refl;
  made_now = refl;
  offered = λ c. offered_of-new c input;
  requested = λ c. requested_of-new c input;
}

-- What a proposal that succeeds has checked, and what it leaves.
pub record Proposed (user recipient : UserId) (input : TradeInput) (id : TradeId) (now : ℕ)
    (db db' : Database) : Type 0 where
  pub admitted : check_terms input ≡ true
  pub apart : (recipient == user) ≡ false
  pub active : (u : User) × (lookup recipient db.accounts.users ≡ some u) × (u.suspended_at ≡ none)
  pub was_new : lookup id db.trades ≡ none
  pub row_after :
      (t : TradeTerms) × (lookup id db'.trades
        ≡ some (record { terms = t; status = pending; resolved_at = none }))
      × States user recipient input now t
  pub locked :
      (u : UserId) (c : CardId)
      → (quantity_of (db'.inventory u c) ≡ quantity_of (db.inventory u c))
        × (locked_of (db'.inventory u c)
            ≡ locked_of (db.inventory u c) + asked_at user input.offered u c)
        × (locked_of (db.inventory u c) ≤ quantity_of (db.inventory u c)
            → locked_of (db'.inventory u c) ≤ quantity_of (db'.inventory u c))
  pub accounts_same : db'.accounts ≡ db.accounts

answering :
    (o : Option User) → can_answer o ≡ true → (u : User) × (o ≡ some u) × (u.suspended_at ≡ none)
answering none e = absurd (ground arith)
answering (some u) e = elim (Option-cases u.suspended_at) [
  | inl active ↦ (u, refl, active)
  | inr (at, suspended) ↦ absurd (ground (arith, suspended))
]

-- A proposal that succeeds has terms that the schema admits and an active recipient other than
-- its user; it adds a new pending row that names its user as initiator, the recipient, each
-- side's coins as the request does, and of each card the quantities that the request offers and
-- asks for; it locks exactly the copies offered, within what is held, and moves no copy and no
-- coin.
pub propose_trade-Proposed :
    (user recipient : UserId) (input : TradeInput) (id : TradeId) (now : ℕ) (db : Database)
    {db' : Database}
    → propose_trade user recipient input id now db ≡ ok db'
    → Proposed user recipient input id now db db'
unfolding propose_trade propose_in
propose_trade-Proposed user recipient input id now db {db' = db'} e =
    let t = new_terms user recipient input none now in
    let (_, terms, e₁) = >>=-eq-ok (require (check_terms input) bad_request) _ e in
    let (_, differ, e₂) = >>=-eq-ok (require (not (recipient == user)) bad_request) _ e₁ in
    let (_, answers, e₃) =
      >>=-eq-ok (require (can_answer (lookup recipient db.accounts.users)) not_found) _ e₂ in
    let (_, _, e₄) = >>=-eq-ok (assert_terms user input db) _ e₃ in
    let (done, p, last) = >>=-eq-ok (propose_in user recipient input id now db) _ e₄ in
    let (made, c₁, rest) = >>=-eq-ok (create_trade id t db) _ p in
    let (inv, c₂, written) = >>=-eq-ok (lock user input.offered made.inventory) _ rest in
    let (new, _, trades, inventory, accounts) = create_trade-ok id t db c₁ in
    rw (← ok-injective last, ← ok-injective written)
      (record {
        admitted = require-eq-ok (check_terms input) bad_request terms;
        apart = ground (arith, require-eq-ok (not (recipient == user)) bad_request differ);
        active =
            answering (lookup recipient db.accounts.users)
              (require-eq-ok (can_answer (lookup recipient db.accounts.users)) not_found answers);
        was_new = new;
        row_after = (
          t,
          rw trades (
              ground (
                arith,
                lookup-insert id id (record { terms = t; status = pending; resolved_at = none })
                    db.trades,
              )),
          new_terms-States user recipient input now,
        );
        locked = λ u c. rw inventory at (lock_at user input.offered made.inventory u c c₂);
        accounts_same = accounts;
      })
