-- ===== src/Admin/Suspension.antt =====
-- What a suspension does, all in one transaction: the account is marked, its pending trades are
-- void with their locks returned, its sessions are gone, and an admin is left.
use pokedrop.Base.{
  ℕ, ◌≡◌, refl, ◌∙◌, false, not, none, some, List, [], ◌∷◌, ◌==◌, contains, filter_by, ok,
  >>=-eq-ok, ok-injective, ◌>>=◌, arith,
}
use pokedrop.Base.Dict.{Dict, lookup, insert, lookup-insert}
use pokedrop.Inventory.{UserId, CardId}
use pokedrop.Wallet.{User, Accounts, balance}
use pokedrop.Schema.Database.{Database}
use pokedrop.Schema.Trade.{TradeId, TradeRow}
use pokedrop.Trades.{Voided, void_all_pending_of, void_rows, keys_of, is_open_of}
use pokedrop.Trades.Escrow.{EscrowAt, EscrowAt-same}
use pokedrop.Trades.VoidAll.Escrow.{void_all-EscrowAt, void_all-ok}
use pokedrop.Admin.{
  assert_not_self, target, assert_not_last_admin, mark_suspended, notify_parties, suspend_user,
}
use pokedrop.Admin.Admins.{IsAdministered, guarded-insert}

pub balance-insert :
    (id : UserId) (u u' : User) (a : Accounts) (v : UserId)
    → lookup id a.users ≡ some u
    → u'.currency ≡ u.currency
    → balance v (record a { users = insert id u' a.users }) ≡ balance v a
balance-insert id u u' a v there same = ground (arith, there, lookup-insert id v u' a.users)

void_rows-closed :
    (user : UserId) (now : ℕ) (trades : Dict TradeRow) (j : TradeId) (row : TradeRow)
    → lookup j (void_rows user now trades) ≡ some row
    → is_open_of user row ≡ false
unfolding void_rows lookup
void_rows-closed user now [] j row e = cc
void_rows-closed user now ((id, r) ∷ rows) j row e =
    ground (arith, void_rows-closed user now rows j row)

filter_by-not-contains :
    (id : UserId) (xs : List UserId) → contains id (filter_by (λ s. not (s == id)) xs) ≡ false
filter_by-not-contains id [] = refl
filter_by-not-contains id (x ∷ xs) = ground (arith, filter_by-not-contains id xs)

notify_parties_lem :
    (rows : Dict TradeRow) (db : Database)
    → ((notify_parties rows db).accounts ≡ db.accounts)
      × ((notify_parties rows db).inventory ≡ db.inventory)
      × ((notify_parties rows db).trades ≡ db.trades)
      × ((notify_parties rows db).sessions ≡ db.sessions)
notify_parties_lem [] db = (refl, refl, refl, refl)
notify_parties_lem ((id, row) ∷ rows) db = notify_parties_lem rows _

mark_suspended-ok :
    (actor id : UserId) (u : User) (gone : List TradeId) (now : ℕ) (db : Database) {db' : Database}
    → mark_suspended actor id u gone now db ≡ ok db'
    → (db'.accounts ≡ record (db.accounts) {
      users = insert id (record u { suspended_at = some now }) db.accounts.users;
    })
      × (db'.inventory ≡ db.inventory)
      × (db'.trades ≡ db.trades)
      × (db'.sessions ≡ filter_by (λ s. not (s == id)) db.sessions)
unfolding mark_suspended
mark_suspended-ok actor id u gone now db e = ground arith

mark_suspended-IsAdministered :
    (actor id : UserId) (u : User) (gone : List TradeId) (now : ℕ) (db : Database) {db' : Database}
    → lookup id db.accounts.users ≡ some u
    → mark_suspended actor id u gone now db ≡ ok db'
    → IsAdministered db
    → IsAdministered db'
unfolding mark_suspended assert_not_last_admin
mark_suspended-IsAdministered actor id u gone now db there e h =
    ground
      (arith, guarded-insert id u (record u { suspended_at = some now }) db.accounts.users there h)

-- What a suspension leaves.
pub record Suspended (id : UserId) (u : User) (now : ℕ) (db db' : Database) : Type 0 where
  pub marked : lookup id db'.accounts.users ≡ some (record u { suspended_at = some now })
  pub none_open :
      (j : TradeId) (row : TradeRow) → lookup j db'.trades ≡ some row → is_open_of id row ≡ false
  pub signed_out : contains id db'.sessions ≡ false
  pub administered : IsAdministered db → IsAdministered db'
  pub escrow : (v : UserId) (c : CardId) → EscrowAt v c db → EscrowAt v c db'
  pub balances : (v : UserId) → balance v db'.accounts ≡ balance v db.accounts
  pub ledger_same : db'.accounts.ledger ≡ db.accounts.ledger
  pub trades_void : db'.trades ≡ void_rows id now db.trades

Suspended-steps :
    (actor id : UserId) (u : User) (now : ℕ) (db : Database) (closed : Voided) (done : Database)
    → lookup id db.accounts.users ≡ some u
    → void_all_pending_of id (some actor) now db ≡ ok closed
    → mark_suspended actor id u (keys_of closed.rows) now closed.database ≡ ok done
    → Suspended id u now db (notify_parties closed.rows done)
Suspended-steps actor id u now db closed done there e₁ e₂ =
    let (_, rows, accounts, _) = void_all-ok id (some actor) now db e₁ in
    let (a, inv, trades, sessions) = mark_suspended-ok actor id u _ now closed.database e₂ in
    let (na, ninv, ntrades, nsessions) = notify_parties_lem closed.rows done in
    let u' = record u { suspended_at = some now } in
    record {
      marked = rw (na, a, accounts) (ground (arith, lookup-insert id id u' db.accounts.users));
      none_open =
          λ j row e. void_rows-closed id now db.trades j row (rw (ntrades, trades, rows) at e);
      signed_out = rw (nsessions, sessions) (filter_by-not-contains id closed.database.sessions);
      administered = λ h. rw na (
          mark_suspended-IsAdministered actor id u _ now closed.database (rw accounts there) e₂
            (rw accounts h));
      escrow = λ v c h.
          EscrowAt-same closed.database (notify_parties closed.rows done) v c (ninv ∙ inv)
            (ntrades ∙ trades) (void_all-EscrowAt id (some actor) now db v c e₁ h);
      balances = λ v. rw (na, a, accounts) (balance-insert id u u' db.accounts v there refl);
      ledger_same = rw (na, a, accounts) refl;
      trades_void = rw (ntrades, trades, rows) refl;
    }

pub suspend_user-Suspended :
    (actor id : UserId) (now : ℕ) (db : Database) {db' : Database} (u : User)
    → lookup id db.accounts.users ≡ some u
    → u.suspended_at ≡ none
    → suspend_user actor id now db ≡ ok db'
    → ((actor == id) ≡ false) × Suspended id u now db db'
unfolding suspend_user assert_not_self target
suspend_user-Suspended actor id now db {db' = db'} u there active e =
    let (_, self, rest) = >>=-eq-ok (assert_not_self actor id) _ e in
    let write : (do
      closed ← void_all_pending_of id (some actor) now db
      done ← mark_suspended actor id u (keys_of closed.rows) now closed.database
      ok (notify_parties closed.rows done))
        ≡ ok db' =
      rw (target, there, active) at rest in
    let (closed, e₁, rest₁) = >>=-eq-ok (void_all_pending_of id (some actor) now db) _ write in
    let (done, e₂, last) =
      >>=-eq-ok (mark_suspended actor id u (keys_of closed.rows) now closed.database) _ rest₁ in
    (
      ground (arith, self),
      rw (← ok-injective last) (Suspended-steps actor id u now db closed done there e₁ e₂),
    )
