-- ===== src/System/Openings/Members.antt =====
-- The rows of openings in the transactions of admins, and in the welcome grant.
use pokedrop.Base.{
  ℕ, ◌≡◌, refl, ◌∙◌, Option, some, List, [], ◌∷◌, ok, err, Result, arith, Option-cases, Bool-cases,
  inl, inr, >>=-eq-ok, ok-injective,
}
use pokedrop.Base.Int.{ℤ}
use pokedrop.Base.Dict.{Dict}
use pokedrop.Inventory.{UserId}
use pokedrop.Wallet.{User, Role}
use pokedrop.Schema.Trade.{TradeId, TradeRow}
use pokedrop.Schema.Database.{Database}
use pokedrop.Trades.VoidAll.{Voided, void_all_pending_of, keys_of}
use pokedrop.Admin.{
  assert_not_self, target, notify_parties, mark_suspended, suspend_user, unsuspend_user, same_role,
  set_role, change_role, grant_in, replay_grant, announce_or_replay, grant_currency,
  grant_if_first_time,
}

parties-openings :
    (rows : Dict TradeRow) (db : Database) → (notify_parties rows db).openings ≡ db.openings
parties-openings [] db = refl
parties-openings ((id, row) ∷ rows) db = parties-openings rows _

mark_suspended-openings :
    (actor id : UserId) (u : User) (ids : List TradeId) (now : ℕ) (db : Database) {db' : Database}
    → mark_suspended actor id u ids now db ≡ ok db'
    → db'.openings ≡ db.openings
unfolding mark_suspended
mark_suspended-openings actor id u ids now db e = ground arith

void_all-openings :
    (user : UserId) (actor : Option UserId) (now : ℕ) (db : Database) {v : Voided}
    → void_all_pending_of user actor now db ≡ ok v
    → v.database.openings ≡ db.openings
unfolding void_all_pending_of
void_all-openings user actor now db e = ground arith

pub suspend_user-openings :
    (actor id : UserId) (now : ℕ) (db : Database) {db' : Database}
    → suspend_user actor id now db ≡ ok db'
    → db'.openings ≡ db.openings
unfolding suspend_user
suspend_user-openings actor id now db e =
    let (_, _, e₁) = >>=-eq-ok (assert_not_self actor id) _ e in
    let (u, _, e₂) = >>=-eq-ok (target id db) _ e₁ in
    elim (Option-cases u.suspended_at) [
      | inr (at, suspended) ↦ ground (arith, suspended, e₂)
      | inl active ↦
          let (closed, c, e₃) =
            >>=-eq-ok (void_all_pending_of id (some actor) now db) _ (rw active at e₂) in
          let (done, d, last) =
            >>=-eq-ok (mark_suspended actor id u (keys_of closed.rows) now closed.database) _ e₃ in
          rw (← ok-injective last) (
            parties-openings closed.rows done
            ∙ mark_suspended-openings actor id u (keys_of closed.rows) now closed.database d
            ∙ void_all-openings id (some actor) now db c)
    ]

pub unsuspend_user-openings :
    (actor id : UserId) (db : Database) {db' : Database}
    → unsuspend_user actor id db ≡ ok db'
    → db'.openings ≡ db.openings
unfolding unsuspend_user
unsuspend_user-openings actor id db e =
    let (_, _, e₁) = >>=-eq-ok (assert_not_self actor id) _ e in
    let (u, _, e₂) = >>=-eq-ok (target id db) _ e₁ in ground (arith, e₂)

set_role-openings :
    (actor id : UserId) (u : User) (role : Role) (db : Database) {db' : Database}
    → set_role actor id u role db ≡ ok db'
    → db'.openings ≡ db.openings
unfolding set_role
set_role-openings actor id u role db e = ground arith

pub change_role-openings :
    (actor id : UserId) (role : Role) (db : Database) {db' : Database}
    → change_role actor id role db ≡ ok db'
    → db'.openings ≡ db.openings
unfolding change_role
change_role-openings actor id role db e =
    let (_, _, e₁) = >>=-eq-ok (assert_not_self actor id) _ e in
    let (u, _, e₂) = >>=-eq-ok (target id db) _ e₁ in
    elim (Bool-cases (same_role u.role role)) [
      | inl same ↦ ground (arith, same, e₂)
      | inr other ↦ set_role-openings actor id u role db (rw other at e₂)
    ]

granted-openings :
    (actor id : UserId) (amount : ℤ) (grant_id : ℕ) (db : Database) {db' : Database}
    → grant_in actor id amount grant_id db ≡ ok db'
    → db'.openings ≡ db.openings
unfolding grant_in
granted-openings actor id amount grant_id db e = ground arith

announced-openings :
    (id : UserId) (amount : ℤ) (grant_id : ℕ) (db : Database) {db' : Database} (r : Result Database)
    → ((done : Database) → r ≡ ok done → done.openings ≡ db.openings)
    → announce_or_replay id amount grant_id db r ≡ ok db'
    → db'.openings ≡ db.openings
unfolding replay_grant
announced-openings id amount grant_id db (ok done) h e = rw (← ok-injective e) (h done refl)
announced-openings id amount grant_id db (err x) h e = ground arith

pub grant_currency-openings :
    (actor id : UserId) (amount : ℤ) (grant_id : ℕ) (db : Database) {db' : Database}
    → grant_currency actor id amount grant_id db ≡ ok db'
    → db'.openings ≡ db.openings
unfolding grant_currency
grant_currency-openings actor id amount grant_id db e =
    announced-openings id amount grant_id db (grant_in actor id amount grant_id db)
      (λ done. granted-openings actor id amount grant_id db) e

pub welcome-openings :
    (id : UserId) (db : Database) {db' : Database}
    → grant_if_first_time id db ≡ ok db'
    → db'.openings ≡ db.openings
unfolding grant_if_first_time
welcome-openings id db e = ground arith
