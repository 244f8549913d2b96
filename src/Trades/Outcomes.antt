-- ===== src/Trades/Outcomes.antt =====
-- What a handler of apps/api/src/trades/trades.service.ts answers and leaves, as a whole.
use pokedrop.Base.{
  ℕ, ◌+◌, ◌≡◌, ◌↔◌, refl, subst, true, false, some, [], ◌∷◌, ◌==◌, if◌then◌else◌, Result, ok, err,
  Error, trade_not_pending, has_code, ◌>>=◌, >>=-eq-ok, ok-injective, arith, Bool-cases,
  Option-cases, inl, inr,
}
use pokedrop.Base.Dict.{lookup, insert, lookup-insert, sum_rows-insert}
use pokedrop.Inventory.{UserId, CardId, quantity_of}
use pokedrop.Inventory.Progress.{IsNormal, release-total}
use pokedrop.Wallet.{balance}
use pokedrop.Schema.Trade.{
  TradeId, TradeStatus, pending, accepted, voided, same_status, TradeTerms, TradeRow,
  offered_changes,
}
use pokedrop.Schema.Database.{Database, trade_entry, TradeAction, NotificationType}
use pokedrop.Trades.{
  CloseOptions, close_row, release_offered, close, accept_in, void_in, load_as_party, assert_role,
  PartyRole, recipient_role, accept_trade, void_check, voidable, refused, void_trade, load_any,
  notify,
}
use pokedrop.Trades.Promises.{close_row-ok, asked-offered_changes, promise}
use pokedrop.Trades.Escrow.{EscrowAt, close-ok, settle-ok, reverse-ok, Releases}
use pokedrop.Trades.Coins.{pays, gets, move_coins-Settled, move_coins-Reversed}
use pokedrop.Trades.Copies.{copies_out, copies_in, settled_copies, reversed_copies}

-- The row of a trade that has just left a status.
abbrev pub closed_row : TradeRow → TradeStatus → ℕ → TradeRow
closed_row row to now = record row { status = to; resolved_at = some now }

-- What an accepted trade leaves: the row accepted, and for every user the coins and copies of the
-- terms.
pub record Accepted (id : TradeId) (row : TradeRow) (now : ℕ) (db db' : Database) : Type 0 where
  pub was_pending : same_status row.status pending ≡ true
  pub row_there : lookup id db.trades ≡ some row
  pub row_after : lookup id db'.trades ≡ some (closed_row row accepted now)
  pub coins :
      (u : UserId)
      → balance u db'.accounts + pays row.terms u ≡ balance u db.accounts + gets row.terms u
  pub copies :
      (u : UserId) (c : CardId)
      → quantity_of (db'.inventory u c) + copies_out row.terms u c
        ≡ quantity_of (db.inventory u c) + copies_in row.terms u c

accept_in-Accepted :
    (user : UserId) (id : TradeId) (row : TradeRow) (now : ℕ) (db : Database) {db' : Database}
    → lookup id db.trades ≡ some row
    → (row.initiator == row.recipient) ≡ false
    → accept_in user id row.terms now db ≡ ok db'
    → Accepted id row now db db'
unfolding accept_in release_offered
accept_in-Accepted user id row now db there apart e =
    let (closed, c₁, c₂) = >>=-eq-ok (close id row.terms _ now db) _ e in
    let (moved, kept, accounts) = close-ok id row.terms _ now db c₁ in
    let (coins, copies, same) = settle-ok id row.terms closed c₂ in
    let (row', there', in_from, next) = close_row-ok id pending accepted now db.trades moved in
    let one : row' ≡ row = cc (there, there') in
    record {
      was_pending = rw one at in_from;
      row_there = there;
      row_after =
          rw (same, next, one)
            (ground (arith, lookup-insert id id (closed_row row accepted now) db.trades));
      coins =
          λ u. (rw accounts at (move_coins-Settled id row.terms closed.accounts u apart coins)).0;
      copies = λ u c. ground (arith, kept, settled_copies row.terms closed.inventory u c copies);
    }

loaded :
    (user : UserId) (id : TradeId) (db : Database) {row : TradeRow}
    → load_as_party user id db ≡ ok row
    → lookup id db.trades ≡ some row
unfolding load_as_party
loaded user id db e = elim (Option-cases (lookup id db.trades)) [
  | inl missing ↦ absurd (ground (arith, missing))
  | inr (r, there) ↦ ground (arith, there)
]

-- An accept of a trade whose parties differ, if it succeeds, is the recipient's and of a pending
-- trade, and leaves the row accepted, every balance changed by what the terms pay and get, and
-- every holding by the copies that they give and receive.
pub accept_trade-Accepted :
    (user : UserId) (id : TradeId) (now : ℕ) (db : Database) {db' : Database} (row : TradeRow)
    → lookup id db.trades ≡ some row
    → (row.initiator == row.recipient) ≡ false
    → accept_trade user id now db ≡ ok db'
    → ((row.recipient == user) ≡ true) × Accepted id row now db db'
unfolding accept_trade assert_role
accept_trade-Accepted user id now db row there apart e =
    let (row', l, e₁) = >>=-eq-ok (load_as_party user id db) _ e in
    let (_, role, e₂) = >>=-eq-ok (assert_role row' user recipient_role) _ e₁ in
    let (settled, s, last) = >>=-eq-ok (accept_in user id row'.terms now db) _ e₂ in
    let one : row' ≡ row = cc (there, loaded user id db l) in
    let s' = subst (λ (r : TradeRow). accept_in user id r.terms now db ≡ ok settled) one s in
    let done = accept_in-Accepted user id row now db there apart s' in
    (
      ground (arith, role, one),
      rw (← ok-injective last) (record {
        was_pending = done.was_pending;
        row_there = there;
        row_after = done.row_after;
        coins = done.coins;
        copies = done.copies;
      }),
    )

-- The void of a trade right after its acceptance, if it is not refused, gives back every balance
-- and every holding and leaves the row voided.
pub void_undoes_accept :
    (user admin : UserId) (id : TradeId) (row : TradeRow) (now later : ℕ) (db settled : Database)
    {undone : Database}
    → lookup id db.trades ≡ some row
    → (row.initiator == row.recipient) ≡ false
    → accept_in user id row.terms now db ≡ ok settled
    → void_in admin id (closed_row row accepted now) later settled ≡ ok undone
    → (lookup id undone.trades ≡ some (closed_row row voided later))
      × ((u : UserId) → balance u undone.accounts ≡ balance u db.accounts)
      × ((u : UserId) (c : CardId)
          → quantity_of (undone.inventory u c) ≡ quantity_of (db.inventory u c))
unfolding void_in release_offered
void_undoes_accept user admin id row now later db settled there apart e₁ e₂ =
    let done = accept_in-Accepted user id row now db there apart e₁ in
    let t = row.terms in
    let (closed, c₁, c₂) = >>=-eq-ok (close id t _ later settled) _ e₂ in
    let (moved, kept, accounts) = close-ok id t _ later settled c₁ in
    let (coins, copies, same) = reverse-ok id t closed c₂ in
    let (row', there', _, next) = close_row-ok id accepted voided later settled.trades moved in
    let one : row' ≡ closed_row row accepted now = cc (done.row_after, there') in
    (
      rw (same, next, one)
          (ground (arith, lookup-insert id id (closed_row row voided later) settled.trades)),
      λ u. omega (
        arith,
        (rw accounts at (move_coins-Reversed id t closed.accounts u apart coins)).0,
        done.coins u,
      ),
      λ u c. ground (arith, kept, reversed_copies t closed.inventory u c copies, done.copies u c),
    )

-- A close leaves the row in the status that it names.
pub close_after :
    (id : TradeId) (t : TradeTerms) (o : CloseOptions) (now : ℕ) (db : Database) {db' : Database}
    → close id t o now db ≡ ok db'
    → (row : TradeRow) × (lookup id db'.trades ≡ some row) × (row.status ≡ o.to)
close_after id t o now db e =
    let (moved, _, _) = close-ok id t o now db e in
    let (row, there, in_from, next) = close_row-ok id o.from o.to now db.trades moved in
    let after = lookup-insert id id (closed_row row o.to now) db.trades in
    (closed_row row o.to now, ground (arith, next, after), refl)

-- A close that expects a pending row is refused where the row is in another status.
pub close-refused :
    (id : TradeId) (t : TradeTerms) (o : CloseOptions) (now : ℕ) (db : Database) (row : TradeRow)
    → o.from ≡ pending
    → lookup id db.trades ≡ some row
    → same_status row.status pending ≡ false
    → close id t o now db ≡ err trade_not_pending
unfolding close close_row
close-refused id t o now db row p there s = ground (arith, p, there, s)

checked :
    (row : TradeRow) (id : TradeId) (r : Result Database)
    → ((elim r [ ok _ ↦ ok voidable | err e ↦ if has_code e then ok (refused e) else err e ]
          ≡ ok voidable)
        ↔ ((db' : Database) × ((r >>= λ done.
                ok (
                  notify
                    (row.initiator ∷ row.recipient ∷ [])
                    NotificationType.trade_voided
                    id
                    done))
              ≡ ok db')))
      × ((e : Error)
          → elim r [ ok _ ↦ ok voidable | err e ↦ if has_code e then ok (refused e) else err e ]
            ≡ ok (refused e)
          → ((r >>= λ done.
                ok (
                  notify
                    (row.initiator ∷ row.recipient ∷ [])
                    NotificationType.trade_voided
                    id
                    done))
              ≡ err e)
            × (has_code e ≡ true))
checked row id (ok done) = (((λ h. (_, refl)), (λ h. refl)), λ e h. absurd (ground arith))
checked row id (err x) = elim (Bool-cases (has_code x)) [
  | inl coded ↦ (
    ((λ h. absurd (ground (arith, coded))), (λ (db', h). absurd (ground arith))),
    λ e h. ground (arith, coded),
  )
  | inr uncoded ↦ (
    ((λ h. absurd (ground (arith, uncoded))), (λ (db', h). absurd (ground arith))),
    λ e h. absurd (ground (arith, uncoded)),
  )
]

-- A void check answers voidable exactly if the void succeeds, and refused with an error only if
-- the void fails with that error.
pub void_check-void :
    (admin : UserId) (id : TradeId) (now : ℕ) (db : Database)
    → ((void_check admin id now db ≡ ok voidable)
        ↔ ((db' : Database) × (void_trade admin id now db ≡ ok db')))
      × ((e : Error)
          → void_check admin id now db ≡ ok (refused e)
          → (void_trade admin id now db ≡ err e) × (has_code e ≡ true))
unfolding void_check void_trade load_any
void_check-void admin id now db = elim (Option-cases (lookup id db.trades)) [
  | inl missing ↦
      rw (void_check, void_trade, load_any, missing)
        (
          ((λ h. absurd (ground arith)), (λ (db', h). absurd (ground arith))),
          λ e h. absurd (ground arith),
        )
  | inr (row, there) ↦
      rw (void_check, void_trade, load_any, there) (checked row id (void_in admin id row now db))
]

abbrev Closing : PartyRole → TradeStatus → TradeAction → UserId → CloseOptions
Closing role to action user = record {
  from = pending;
  to = to;
  action = action;
  actor = some user;
  release = true;
}

pub close-total :
    (id : TradeId) (row : TradeRow) (o : CloseOptions) (now : ℕ) (db : Database)
    → lookup id db.trades ≡ some row
    → same_status row.status pending ≡ true
    → Releases o
    → IsNormal (offered_changes row.terms)
    → ((c : CardId) → EscrowAt row.initiator c db)
    → (db' : Database) × (close id row.terms o now db ≡ ok db')
      × (lookup id db'.trades ≡ some (closed_row row o.to now))
unfolding close close_row release_offered
close-total id row o now db there waiting r n h =
    let next = closed_row row o.to now in
    let (inv, released) =
      release-total row.initiator (offered_changes row.terms) db.inventory n (λ c. ground (
        arith,
        h c,
        waiting,
        r,
        asked-offered_changes c row.terms,
        sum_rows-insert (promise row.initiator c) id next row db.trades there,
      )) in
    (
      record db {
        trades = insert id next db.trades;
        inventory = inv;
        audit = trade_entry o.actor o.action id (some o.from) o.to ∷ db.audit;
      },
      ground (arith, there, waiting, r, released),
      ground (arith, lookup-insert id id next db.trades),
    )
