-- ===== src/System/Ledger/Members.antt =====
-- The ledger and the accounts in the transactions of admins, and in the welcome grant.
use pokedrop.Base.{
  unique_violation, ℕ, ◌≡◌, refl, sym, ap, Option, none, some, List, [], ◌∷◌, ok, err, Result,
  arith, Option-cases, Bool-cases, inl, inr, >>=-eq-ok, ok-injective,
}
use pokedrop.Base.Int.{ℤ, pos}
use pokedrop.Base.Dict.{Dict}
use pokedrop.Inventory.{UserId}
use pokedrop.Wallet.{User, Role, Accounts, create_entry}
use pokedrop.Schema.Trade.{TradeId, TradeRow}
use pokedrop.Schema.Database.{Database}
use pokedrop.Admin.{
  grant_entry, adjust, assert_not_self, target, notify_parties, mark_suspended, suspend_user,
  unsuspend_user, same_role, set_role, change_role, grant_in, announce_or_replay, grant_currency,
  grant_if_first_time, or_unchanged, welcome_grant_amount, welcome_grant_ref,
}
use pokedrop.Admin.Grants.{grant_in-steps}
use pokedrop.Admin.Replays.{replay_grant-ok}
use pokedrop.Admin.Welcome.{welcome, welcome-steps}
use pokedrop.Trades.VoidAll.{Voided, void_all_pending_of, keys_of}
use pokedrop.System.Ledger.Entries.{
  Kept, Kept-same, Kept-trans, Kept-insert, create_entry-Kept, adjust-Kept,
}

parties-accounts :
    (rows : Dict TradeRow) (db : Database) → (notify_parties rows db).accounts ≡ db.accounts
parties-accounts [] db = refl
parties-accounts ((id, row) ∷ rows) db = parties-accounts rows _

mark_suspended-Kept :
    (actor id : UserId) (u : User) (gone : List TradeId) (now : ℕ) (db : Database) {db' : Database}
    → mark_suspended actor id u gone now db ≡ ok db'
    → Kept db.accounts db'.accounts
unfolding mark_suspended
mark_suspended-Kept actor id u gone now db {db' = db'} e =
    Kept-insert id (record u { suspended_at = some now }) db.accounts db'.accounts
      (ground (arith, e)) (ground (arith, e))

void_all-accounts :
    (user : UserId) (actor : Option UserId) (now : ℕ) (db : Database) {v : Voided}
    → void_all_pending_of user actor now db ≡ ok v
    → v.database.accounts ≡ db.accounts
unfolding void_all_pending_of
void_all-accounts user actor now db e = ground arith

pub suspend_user-Kept :
    (actor id : UserId) (now : ℕ) (db : Database) {db' : Database}
    → suspend_user actor id now db ≡ ok db'
    → Kept db.accounts db'.accounts
unfolding suspend_user
suspend_user-Kept actor id now db {db' = db'} e =
    let (_, _, e₁) = >>=-eq-ok (assert_not_self actor id) _ e in
    let (u, _, e₂) = >>=-eq-ok (target id db) _ e₁ in
    elim (Option-cases u.suspended_at) [
      | inr (at, suspended) ↦
          Kept-same db.accounts db'.accounts
            (ap (λ d. d.accounts) (sym (ok-injective (rw suspended at e₂))))
      | inl active ↦
          let (closed, c, e₃) =
            >>=-eq-ok (void_all_pending_of id (some actor) now db) _ (rw active at e₂) in
          let (done, d, last) =
            >>=-eq-ok (mark_suspended actor id u (keys_of closed.rows) now closed.database) _ e₃ in
          rw (← ok-injective last, parties-accounts closed.rows done)
            (rw (void_all-accounts id (some actor) now db c) at
              (mark_suspended-Kept actor id u (keys_of closed.rows) now closed.database d))
    ]

pub unsuspend_user-Kept :
    (actor id : UserId) (db : Database) {db' : Database}
    → unsuspend_user actor id db ≡ ok db'
    → Kept db.accounts db'.accounts
unfolding unsuspend_user
unsuspend_user-Kept actor id db {db' = db'} e =
    let (_, _, e₁) = >>=-eq-ok (assert_not_self actor id) _ e in
    let (u, _, e₂) = >>=-eq-ok (target id db) _ e₁ in
    elim (Option-cases u.suspended_at) [
      | inl active ↦ Kept-same db.accounts db'.accounts (ground (arith, active, e₂))
      | inr (at, suspended) ↦
          Kept-insert id (record u { suspended_at = none }) db.accounts db'.accounts
            (ground (arith, suspended, e₂)) (ground (arith, suspended, e₂))
    ]

set_role-Kept :
    (actor id : UserId) (u : User) (role : Role) (db : Database) {db' : Database}
    → set_role actor id u role db ≡ ok db'
    → Kept db.accounts db'.accounts
unfolding set_role
set_role-Kept actor id u role db {db' = db'} e =
    Kept-insert id (record u { role = role }) db.accounts db'.accounts (ground (arith, e))
      (ground (arith, e))

pub change_role-Kept :
    (actor id : UserId) (role : Role) (db : Database) {db' : Database}
    → change_role actor id role db ≡ ok db'
    → Kept db.accounts db'.accounts
unfolding change_role
change_role-Kept actor id role db {db' = db'} e =
    let (_, _, e₁) = >>=-eq-ok (assert_not_self actor id) _ e in
    let (u, _, e₂) = >>=-eq-ok (target id db) _ e₁ in
    elim (Bool-cases (same_role u.role role)) [
      | inl same ↦ Kept-same db.accounts db'.accounts (ground (arith, same, e₂))
      | inr other ↦ set_role-Kept actor id u role db (rw other at e₂)
    ]

granted-Kept :
    (id : UserId) (amount : ℤ) (grant_id : ℕ) (a recorded : Accounts) {b : Accounts}
    → create_entry (grant_entry id amount grant_id) a ≡ ok recorded
    → adjust id amount recorded ≡ ok b
    → Kept a b
granted-Kept id amount grant_id a recorded {b = b} e₁ e₂ =
    Kept-trans a recorded b (create_entry-Kept _ a e₁) (adjust-Kept id amount recorded e₂)

grant_in-Kept :
    (actor id : UserId) (amount : ℤ) (grant_id : ℕ) (db : Database) {db' : Database}
    → grant_in actor id amount grant_id db ≡ ok db'
    → Kept db.accounts db'.accounts
grant_in-Kept actor id amount grant_id db e =
    let (recorded, e₁, e₂, _, _) = grant_in-steps actor id amount grant_id db e in
    granted-Kept id amount grant_id db.accounts recorded e₁ e₂

announced-Kept :
    (id : UserId) (amount : ℤ) (grant_id : ℕ) (db : Database) {db' : Database} (r : Result Database)
    → ((done : Database) → r ≡ ok done → Kept db.accounts done.accounts)
    → announce_or_replay id amount grant_id db r ≡ ok db'
    → Kept db.accounts db'.accounts
announced-Kept id amount grant_id db (ok done) h e = rw (← ok-injective e) (h done refl)
announced-Kept id amount grant_id db (err unique_violation) h e =
    let (_, _, _, same) = replay_grant-ok id amount grant_id db e in
    Kept-same db.accounts _ (ap (λ d. d.accounts) same)
announced-Kept id amount grant_id db (err x) h e = ground arith

pub grant_currency-Kept :
    (actor id : UserId) (amount : ℤ) (grant_id : ℕ) (db : Database) {db' : Database}
    → grant_currency actor id amount grant_id db ≡ ok db'
    → Kept db.accounts db'.accounts
unfolding grant_currency
grant_currency-Kept actor id amount grant_id db e =
    announced-Kept id amount grant_id db (grant_in actor id amount grant_id db)
      (λ done. grant_in-Kept actor id amount grant_id db) e

pub welcome-Kept :
    (id : UserId) (db : Database) {db' : Database}
    → grant_if_first_time id db ≡ ok db'
    → Kept db.accounts db'.accounts
unfolding grant_if_first_time
welcome-Kept id db e = go (welcome id db) refl e
  where
    go :
        {db' : Database} (r : Result Database)
        → welcome id db ≡ r
        → or_unchanged db r ≡ ok db'
        → Kept db.accounts db'.accounts
    go (ok done) w e =
        let (recorded, e₁, e₂, _, _) = welcome-steps id db w in
        rw (← ok-injective e)
          (granted-Kept id (pos welcome_grant_amount) welcome_grant_ref db.accounts recorded e₁ e₂)
    go (err unique_violation) w e =
        Kept-same db.accounts _ (ap (λ d. d.accounts) (sym (ok-injective e)))
    go (err x) w e = ground arith
