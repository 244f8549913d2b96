-- ===== src/Trades/Lifecycle.antt =====
-- The life of a trade's row under the transactions of apps/api/src/trades: the status machine of
-- docs/DataModel.md, and the terms, which nothing changes.
use pokedrop.Base.{
  ℕ, ◌≡◌, refl, ◌∙◌, Bool, true, false, not, Option, none, some, ◌==◌, length, ltb, ok, arith,
  Bool-cases, inl, inr, >>=-eq-ok, ok-injective, require, List, [], ◌∷◌, counter_limit,
}
use pokedrop.Base.Dict.{Dict, lookup, lookup-insert}
use pokedrop.Inventory.{UserId, QuantityChange, Inventory, lock, release}
use pokedrop.Inventory.Progress.{IsNormal}
use pokedrop.Inventory.Normal.{lock-IsNormal}
use pokedrop.Trades.Lines.{new_terms-IsNormal}
use pokedrop.Schema.Trade.{
  TradeId, TradeStatus, pending, accepted, countered, voided, same_status, TradeTerms, TradeRow,
  TradeInput, max_counter_chain, offered_changes,
}
use pokedrop.Schema.Database.{Database, TradeAction}
use pokedrop.Trades.{
  CloseOptions, close_row, close, accept_in, void_in, create_trade, propose_in, counter_in,
  swap_locks, new_terms, chain_length, closes, is_open_of, void_rows,
}
use pokedrop.Trades.Promises.{IsSnapshot, close_row-ok}
use pokedrop.Trades.Escrow.{close-ok, settle-ok, reverse-ok}
use pokedrop.Trades.Offers.{create_trade-ok}

-- PENDING ends in any other status, and only an ACCEPTED trade moves again, to VOIDED.
abbrev pub can_move : TradeStatus → TradeStatus → Bool
can_move pending to = not (same_status to pending)
can_move accepted to = same_status to voided
can_move _ to = false

-- What one transaction may do to the row of an id.
pub data RowStep (before after : Option TradeRow) : Type 0 where
  unchanged : after ≡ before → RowStep before after
  created :
      (t : TradeTerms)
      → (t.initiator == t.recipient) ≡ false
      → IsNormal (offered_changes t)
      → before ≡ none
      → after ≡ some (record { terms = t; status = pending; resolved_at = none })
      → RowStep before after
  moved :
      (row : TradeRow) (to : TradeStatus) (now : ℕ)
      → can_move row.status to ≡ true
      → before ≡ some row
      → after ≡ some (record row { status = to; resolved_at = some now })
      → RowStep before after

abbrev pub Evolves : Dict TradeRow → Dict TradeRow → Type 0
Evolves before after = (j : TradeId) → RowStep (lookup j before) (lookup j after)

pub Evolves-same : (a b : Dict TradeRow) → b ≡ a → Evolves a b
Evolves-same a b e j = unchanged (rw e refl)

from_status :
    (s from to : TradeStatus)
    → can_move from to ≡ true
    → same_status s from ≡ true
    → can_move s to ≡ true
from_status s from to m e = ground arith

pub close_row-Evolves :
    (id : TradeId) (from to : TradeStatus) (now : ℕ) (trades : Dict TradeRow)
    {trades' : Dict TradeRow}
    → can_move from to ≡ true
    → close_row id from to now trades ≡ ok trades'
    → Evolves trades trades'
close_row-Evolves id from to now trades m e j =
    let (row, there, in_from, next) = close_row-ok id from to now trades e in
    let after = lookup-insert id j (record row { status = to; resolved_at = some now }) trades in
    elim (Bool-cases (id == j)) [
      | inl here ↦
          moved row to now (from_status row.status from to m in_from) (ground (arith, there))
            (ground (arith, next, after))
      | inr away ↦ unchanged (ground (arith, next, after))
    ]

pub create_trade-Evolves :
    (id : TradeId) (t : TradeTerms) (before db : Database) {db' : Database}
    → create_trade id t db ≡ ok db'
    → IsNormal (offered_changes t)
    → Evolves before.trades db.trades
    → Evolves before.trades db'.trades
create_trade-Evolves id t before db {db' = db'} e normal h j =
    let (new, apart, made, _, _) = create_trade-ok id t db e in
    let after =
      lookup-insert id j (record { terms = t; status = pending; resolved_at = none }) db.trades in
    elim (Bool-cases (id == j)) [
      | inl here ↦ elim (h j) [
        | unchanged same ↦
            created t apart normal (ground (arith, new)) (ground (arith, made, after))
        | created _ _ _ _ there ↦ absurd (ground (arith, new))
        | moved _ _ _ _ _ there ↦ absurd (ground (arith, new))
      ]
      | inr away ↦ elim (h j) [
        | unchanged same ↦ unchanged (ground (arith, made, after))
        | created s a n b there ↦ created s a n b (ground (arith, made, after))
        | moved row to now m b there ↦ moved row to now m b (ground (arith, made, after))
      ]
    ]

void_rows-lookup :
    (user : UserId) (now : ℕ) (trades : Dict TradeRow) (j : TradeId)
    → RowStep (lookup j trades) (lookup j (void_rows user now trades))
unfolding lookup void_rows
void_rows-lookup user now [] j = unchanged refl
void_rows-lookup user now ((id, row) ∷ rows) j = elim (Bool-cases (id == j)) [
  | inr away ↦ rw away (void_rows-lookup user now rows j)
  | inl here ↦ elim (Bool-cases (is_open_of user row)) [
    | inl is_open ↦
        moved row voided now (ground arith) (ground (arith, here)) (ground (arith, here, is_open))
    | inr is_closed ↦ unchanged (ground (arith, here, is_closed))
  ]
]

pub void_rows-Evolves :
    (user : UserId) (now : ℕ) (trades : Dict TradeRow) → Evolves trades (void_rows user now trades)
void_rows-Evolves user now trades j = void_rows-lookup user now trades j

pub close-Evolves :
    (id : TradeId) (t : TradeTerms) (o : CloseOptions) (now : ℕ) (db : Database) {db' : Database}
    → can_move o.from o.to ≡ true
    → close id t o now db ≡ ok db'
    → Evolves db.trades db'.trades
close-Evolves id t o now db m e =
    close_row-Evolves id o.from o.to now db.trades m (close-ok id t o now db e).0

swap_locks-IsNormal :
    (user : UserId) (t : TradeTerms) (lines : List QuantityChange) (inv : Inventory)
    {inv' : Inventory}
    → swap_locks user t lines inv ≡ ok inv'
    → IsNormal lines
unfolding swap_locks
swap_locks-IsNormal user t lines inv e = elim (Bool-cases (ltb t.initiator user)) [
  | inl first ↦
      let (mid, _, b) =
        >>=-eq-ok (release t.initiator (offered_changes t) inv) (lock user lines) (rw first at e) in
      lock-IsNormal user lines mid b
  | inr second ↦
      let (mid, a, _) =
        >>=-eq-ok (lock user lines inv) (release t.initiator (offered_changes t))
          (rw second at e) in
      lock-IsNormal user lines inv a
]

pub propose-Evolves :
    (user recipient : UserId) (input : TradeInput) (id : TradeId) (now : ℕ) (db : Database)
    {db' : Database}
    → propose_in user recipient input id now db ≡ ok db'
    → Evolves db.trades db'.trades
unfolding propose_in
propose-Evolves user recipient input id now db e =
    let t = new_terms user recipient input none now in
    let (made, c₁, rest) = >>=-eq-ok (create_trade id t db) _ e in
    let (inv, locked, last) = >>=-eq-ok (lock user input.offered made.inventory) _ rest in
    let normal = lock-IsNormal user input.offered made.inventory locked in
    rw (← ok-injective last) (
      create_trade-Evolves id t db db c₁ (new_terms-IsNormal user recipient input none now normal)
        (Evolves-same db.trades db.trades refl))

pub accept-Evolves :
    (user : UserId) (id : TradeId) (t : TradeTerms) (now : ℕ) (db : Database) {db' : Database}
    → accept_in user id t now db ≡ ok db'
    → Evolves db.trades db'.trades
unfolding accept_in
accept-Evolves user id t now db e =
    let (closed, c₁, c₂) = >>=-eq-ok (close id t _ now db) _ e in
    let (_, _, same) = settle-ok id t closed c₂ in rw same (close-Evolves id t _ now db refl c₁)

pub void-Evolves :
    (admin : UserId) (id : TradeId) (row : TradeRow) (now : ℕ) (db : Database) {db' : Database}
    → void_in admin id row now db ≡ ok db'
    → Evolves db.trades db'.trades
unfolding void_in
void-Evolves admin id row now db e = elim (Bool-cases (same_status row.status accepted)) [
  | inr waiting ↦ close-Evolves id row.terms _ now db refl (rw waiting at e)
  | inl settled ↦
      let (closed, c₁, c₂) = >>=-eq-ok (close id row.terms _ now db) _ (rw settled at e) in
      let (_, _, same) = reverse-ok id row.terms closed c₂ in
      rw same (close-Evolves id row.terms _ now db refl c₁)
]

pub counter-Evolves :
    (user : UserId) (original : TradeId) (t : TradeTerms) (input : TradeInput) (id : TradeId)
    (now : ℕ) (db : Database) {db' : Database}
    → counter_in user original t input id now db ≡ ok db'
    → Evolves db.trades db'.trades
unfolding counter_in
counter-Evolves user original t input id now db e =
    let o = closes pending countered TradeAction.counter user false in
    let n = new_terms user t.initiator input (some original) now in
    let (closed, c₁, rest₁) = >>=-eq-ok (close original t o now db) _ e in
    let (_, _, rest₂) =
      >>=-eq-ok
        (require
          (ltb (chain_length (length closed.trades) original closed.trades) max_counter_chain)
          counter_limit)
        _ rest₁ in
    let (made, c₂, rest₃) = >>=-eq-ok (create_trade id n closed) _ rest₂ in
    let (inv, locked, last) = >>=-eq-ok (swap_locks user t input.offered made.inventory) _ rest₃ in
    let normal = swap_locks-IsNormal user t input.offered made.inventory locked in
    rw (← ok-injective last) (
      create_trade-Evolves id n db closed c₂
        (new_terms-IsNormal user t.initiator input (some original) now normal)
        (close-Evolves original t o now db refl c₁))

-- A row that was read keeps its terms, so what a handler read before its transaction holds in it.
pub Evolves-IsSnapshot :
    (id : TradeId) (t : TradeTerms) (before after : Dict TradeRow)
    → Evolves before after
    → IsSnapshot id t before
    → IsSnapshot id t after
Evolves-IsSnapshot id t before after h (row, there, same) = elim (h id) [
  | unchanged e ↦ (row, e ∙ there, same)
  | created _ _ _ none_there _ ↦ absurd (ground (arith, there))
  | moved was to now _ there' e ↦
      (record was { status = to; resolved_at = some now }, e, ground (arith, there, there'))
]
