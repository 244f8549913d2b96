-- ===== src/System/Soundness.antt =====
-- Every step of the system keeps it sound, and moves each trade along its status machine.
use pokedrop.Base.{◌≡◌, refl, sym, ◌∙◌, ap, subst, true, false, some, ◌==◌, arith, inl, inr}
use pokedrop.Base.Dict.{Dict, lookup}
use pokedrop.Inventory.{UserId, CardId}
use pokedrop.Inventory.Progress.{IsNormal}
use pokedrop.Wallet.{Accounts, balance, IsReconciledAt}
use pokedrop.Schema.Trade.{TradeId, TradeTerms, TradeRow, offered_changes}
use pokedrop.Schema.Database.{Database}
use pokedrop.Trades.{CloseOptions}
use pokedrop.Trades.Promises.{IsSnapshot}
use pokedrop.Trades.Escrow.{
  EscrowAt, EscrowAt-same, Releases, close-ok, close-EscrowAt, accept-EscrowAt, void-EscrowAt,
}
use pokedrop.Trades.Offers.{propose-EscrowAt, counter-EscrowAt}
use pokedrop.Trades.Lifecycle.{
  unchanged, created, moved, Evolves, Evolves-same, can_move, close-Evolves, propose-Evolves,
  accept-Evolves, counter-Evolves, void-Evolves, void_rows-Evolves,
}
use pokedrop.Packs.Opening.Effects.{write-Opened}
use pokedrop.Admin.Replays.{grant_currency-IsReconciled}
use pokedrop.Admin.Welcome.{grant_if_first_time_twice}
use pokedrop.Admin.Moderation.{change_role-Moderated, unsuspend_user-Moderated, suspend_user-cases}
use pokedrop.System.{
  Step, proposing, closing, accepting, countering, voiding_one, opening, suspending, unsuspending,
  changing_role, granting, notifying, welcoming, Reach, here, next, IsSound,
}
use pokedrop.System.Coins.{propose-accounts, counter-accounts, accept-Settled, void-IsReconciled}

reconciled-same :
    (a a' : Accounts) (u : UserId)
    → balance u a' ≡ balance u a
    → a'.ledger ≡ a.ledger
    → IsReconciledAt u a
    → IsReconciledAt u a'
reconciled-same a a' u b l h = rw (b, l) h

some-injective {ℓ} : {A : Type ℓ} {a b : A} → some a ≡ some b → a ≡ b
some-injective e = cc

Releases-can_move : (o : CloseOptions) → Releases o → can_move o.from o.to ≡ true
Releases-can_move o r = ground arith

-- A transaction moves each trade's row along the status machine only: a new row is pending, a
-- pending row is closed once, an accepted row can only be voided, and the terms never change.
pub Step-Evolves : {db db' : Database} → Step db db' → Evolves db.trades db'.trades
Step-Evolves {db = db} (proposing user recipient input id now e) =
    propose-Evolves user recipient input id now db e
Step-Evolves {db = db} (closing id t o now r s e) =
    close-Evolves id t o now db (Releases-can_move o r) e
Step-Evolves {db = db} (accepting user id t now s e) = accept-Evolves user id t now db e
Step-Evolves {db = db} (countering user original t input id now s e) =
    counter-Evolves user original t input id now db e
Step-Evolves {db = db} (voiding_one admin id row now s e) = void-Evolves admin id row now db e
Step-Evolves {db = db} {db' = db'} (opening user template open_id cards e) =
    Evolves-same db.trades db'.trades (write-Opened user template open_id cards db e).trades_same
Step-Evolves {db = db} {db' = db'} (suspending actor id now e) =
    elim (suspend_user-cases actor id now db e) [
      | inl same ↦ Evolves-same db.trades db'.trades (rw same refl)
      | inr (u, s) ↦ rw s.trades_void (void_rows-Evolves id now db.trades)
    ]
Step-Evolves {db = db} {db' = db'} (unsuspending actor id e) =
    Evolves-same db.trades db'.trades (unsuspend_user-Moderated actor id db e).trades_same
Step-Evolves {db = db} {db' = db'} (changing_role actor id role e) =
    Evolves-same db.trades db'.trades (change_role-Moderated actor id role db e).trades_same
Step-Evolves {db = db} {db' = db'} (granting actor id amount grant_id e) =
    Evolves-same db.trades db'.trades (grant_currency-IsReconciled actor id amount grant_id db e).2
Step-Evolves {db = db} {db' = db'} (notifying users type id e) =
    Evolves-same db.trades db'.trades (rw e refl)
Step-Evolves {db = db} {db' = db'} (welcoming id e) =
    Evolves-same db.trades db'.trades (grant_if_first_time_twice id db e).3

-- What holds of every row and stands in a new one holds of every row later.
Evolves-rows :
    (P : TradeTerms → Type 0) (before after : Dict TradeRow)
    → Evolves before after
    → ((t : TradeTerms) → (t.initiator == t.recipient) ≡ false → IsNormal (offered_changes t) → P t)
    → ((id : TradeId) (row : TradeRow) → lookup id before ≡ some row → P row.terms)
    → (id : TradeId) (row : TradeRow) → lookup id after ≡ some row
    → P row.terms
Evolves-rows P before after h new old id row e = elim (h id) [
  | unchanged same ↦ old id row (sym same ∙ e)
  | created t differ normal _ e' ↦
      subst P (ap (λ (r : TradeRow). r.terms) (some-injective (sym e' ∙ e))) (new t differ normal)
  | moved was to now _ there e' ↦
      subst P (ap (λ (r : TradeRow). r.terms) (some-injective (sym e' ∙ e))) (old id was there)
]

snapshot_apart :
    (id : TradeId) (t : TradeTerms) (db : Database)
    → IsSound db
    → IsSnapshot id t db.trades
    → (t.initiator == t.recipient) ≡ false
snapshot_apart id t db sound (row, there, same) = rw same at (sound.apart id row there)

Step-EscrowAt :
    {db db' : Database}
    → Step db db'
    → (u : UserId) (c : CardId) → EscrowAt u c db
    → EscrowAt u c db'
Step-EscrowAt {db = db} (proposing user recipient input id now e) u c h =
    propose-EscrowAt user recipient input id now db u c e h
Step-EscrowAt {db = db} (closing id t o now r s e) u c h = close-EscrowAt id t o now db u c r s e h
Step-EscrowAt {db = db} (accepting user id t now s e) u c h =
    accept-EscrowAt user id t now db u c s e h
Step-EscrowAt {db = db} (countering user original t input id now s e) u c h =
    counter-EscrowAt user original t input id now db u c s e h
Step-EscrowAt {db = db} (voiding_one admin id row now s e) u c h =
    void-EscrowAt admin id row now db u c s e h
Step-EscrowAt {db = db} {db' = db'} (opening user template open_id cards e) u c h =
    let o = write-Opened user template open_id cards db e in
    ground (arith, h, o.trades_same, o.minted u c, o.unlocked u c)
Step-EscrowAt {db = db} (suspending actor id now e) u c h =
    elim (suspend_user-cases actor id now db e) [
      | inl same ↦ rw same h
      | inr (v, s) ↦ s.escrow u c h
    ]
Step-EscrowAt {db = db} {db' = db'} (unsuspending actor id e) u c h =
    let m = unsuspend_user-Moderated actor id db e in
    EscrowAt-same db db' u c m.inventory_same m.trades_same h
Step-EscrowAt {db = db} {db' = db'} (changing_role actor id role e) u c h =
    let m = change_role-Moderated actor id role db e in
    EscrowAt-same db db' u c m.inventory_same m.trades_same h
Step-EscrowAt {db = db} {db' = db'} (granting actor id amount grant_id e) u c h =
    let (_, inv, trades) = grant_currency-IsReconciled actor id amount grant_id db e in
    EscrowAt-same db db' u c inv trades h
Step-EscrowAt {db = db} {db' = db'} (notifying users type id e) u c h =
    EscrowAt-same db db' u c (rw e refl) (rw e refl) h
Step-EscrowAt {db = db} {db' = db'} (welcoming id e) u c h =
    let (_, _, inv, trades) = grant_if_first_time_twice id db e in
    EscrowAt-same db db' u c inv trades h

Step-IsReconciledAt :
    {db db' : Database} → Step db db' → IsSound db → (u : UserId) → IsReconciledAt u db'.accounts
Step-IsReconciledAt {db = db} (proposing user recipient input id now e) h u =
    rw (propose-accounts user recipient input id now db e) (h.reconciled u)
Step-IsReconciledAt {db = db} (closing id t o now r s e) h u =
    rw (close-ok id t o now db e).2 (h.reconciled u)
Step-IsReconciledAt {db = db} (accepting user id t now s e) h u =
    (accept-Settled user id t now db u (snapshot_apart id t db h s) e).1 (h.reconciled u)
Step-IsReconciledAt {db = db} (countering user original t input id now s e) h u =
    rw (counter-accounts user original t input id now db e) (h.reconciled u)
Step-IsReconciledAt {db = db} (voiding_one admin id row now s e) h u =
    void-IsReconciled admin id row now db u (snapshot_apart id row.terms db h s) e (h.reconciled u)
Step-IsReconciledAt {db = db} (opening user template open_id cards e) h u =
    (write-Opened user template open_id cards db e).reconciled u (h.reconciled u)
Step-IsReconciledAt {db = db} {db' = db'} (suspending actor id now e) h u =
    elim (suspend_user-cases actor id now db e) [
      | inl same ↦ rw same (h.reconciled u)
      | inr (v, s) ↦
          reconciled-same db.accounts db'.accounts u (s.balances u) s.ledger_same (h.reconciled u)
    ]
Step-IsReconciledAt {db = db} {db' = db'} (unsuspending actor id e) h u =
    let m = unsuspend_user-Moderated actor id db e in
    reconciled-same db.accounts db'.accounts u (m.balances u) m.ledger_same (h.reconciled u)
Step-IsReconciledAt {db = db} {db' = db'} (changing_role actor id role e) h u =
    let m = change_role-Moderated actor id role db e in
    reconciled-same db.accounts db'.accounts u (m.balances u) m.ledger_same (h.reconciled u)
Step-IsReconciledAt {db = db} (granting actor id amount grant_id e) h u =
    (grant_currency-IsReconciled actor id amount grant_id db e).0 u (h.reconciled u)
Step-IsReconciledAt {db = db} (notifying users type id e) h u = rw e (h.reconciled u)
Step-IsReconciledAt {db = db} (welcoming id e) h u =
    (grant_if_first_time_twice id db e).1 u (h.reconciled u)

Step-IsSound : {db db' : Database} → Step db db' → IsSound db → IsSound db'
Step-IsSound {db = db} {db' = db'} step h = record {
  escrow = λ u c. Step-EscrowAt step u c (h.escrow u c);
  reconciled = Step-IsReconciledAt step h;
  apart =
      Evolves-rows (λ t. (t.initiator == t.recipient) ≡ false) db.trades db'.trades
        (Step-Evolves step) (λ t a n. a) h.apart;
  normal =
      Evolves-rows (λ t. IsNormal (offered_changes t)) db.trades db'.trades (Step-Evolves step)
        (λ t a n. n) h.normal;
}

-- Whatever transactions of trades, pack openings, grants, roles, suspensions and notifications
-- commit, and in whatever order, a sound database stays sound: at every user and card the locked
-- copies are the copies that the pending trades promise and at most the copies held, every
-- balance is the sum of its ledger, and every stored trade has two parties and well-formed
-- offers.
pub Reach-IsSound : {db db' : Database} → Reach db db' → IsSound db → IsSound db'
Reach-IsSound here h = h
Reach-IsSound (next r s) h = Step-IsSound s (Reach-IsSound r h)
