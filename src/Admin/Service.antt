-- ===== src/Admin/Service.antt =====
-- apps/api/src/admin-users/admin-users.service.ts: roles, grants and suspensions, and
-- apps/api/src/economy/welcome-grant.service.ts: the first coins of a member.
use pokedrop.Base.{
  ℕ, ◌+◌, Bool, true, false, ◌&&◌, not, Option, none, some, List, [], ◌∷◌, ◌==◌, leb, if◌then◌else◌,
  length, filter_by, contains, Result, ok, err, insufficient_funds, not_found, self_target,
  last_admin, grant_id_conflict, unique_violation, require, ◌>>=◌, ◌>>◌,
}
use pokedrop.Base.Int.{ℤ, pos, negsuc, sub_ℕ, pos_part, neg_part}
use pokedrop.Base.Dict.{Dict, lookup, insert}
use pokedrop.Inventory.{UserId}
use pokedrop.Wallet.{
  Role, member, admin, User, CurrencyTransaction, Accounts, grant, create_entry, same_key,
}
use pokedrop.Schema.Trade.{TradeId, TradeRow}
use pokedrop.Schema.Database.{
  Database, UserAction, role_change, currency_grant, suspend, unsuspend, user_entry, trade_voided,
  currency_granted,
}
use pokedrop.Trades.VoidAll.{void_all_pending_of, keys_of}

abbrev pub same_role : Role → Role → Bool
same_role member member = true
same_role admin admin = true
same_role _ _ = false

-- `role = 'ADMIN' AND "suspendedAt" IS NULL`
abbrev pub is_active_admin : User → Bool
is_active_admin u = elim u.role [
  | member ↦ false
  | admin ↦ elim u.suspended_at [ none ↦ true | some _ ↦ false ]
]

unfoldable pub active_admins : Dict User → List UserId
active_admins [] = []
active_admins ((id, u) ∷ users) =
    if is_active_admin u then id ∷ active_admins users else active_admins users

abbrev pub set_users : Dict User → Database → Database
set_users users db = record db { accounts = record (db.accounts) { users = users } }

abbrev pub record_user : UserId → UserAction → UserId → Database → Database
record_user actor action id db = record db { audit = user_entry actor action id ∷ db.audit }

unfoldable pub assert_not_self : UserId → UserId → Result (Unit {0})
assert_not_self actor id = require (not (actor == id)) self_target

unfoldable pub target : UserId → Database → Result User
target id db = elim (lookup id db.accounts.users) [ none ↦ err not_found | some u ↦ ok u ]

unfoldable pub assert_not_last_admin : UserId → Database → Result (Unit {0})
assert_not_last_admin id db =
    let admins = active_admins db.accounts.users in
    require (not (leb (length admins) 1 && contains id admins)) last_admin

-- The rest of `changeRole` once the role is known to change.
unfoldable pub set_role : UserId → UserId → User → Role → Database → Result Database
set_role actor id u role db = do
  if is_active_admin u then assert_not_last_admin id db else ok tt
  ok (
      record_user actor (role_change u.role role) id
        (set_users (insert id (record u { role = role }) db.accounts.users) db))

unfoldable pub change_role : UserId → UserId → Role → Database → Result Database
change_role actor id role db = do
  assert_not_self actor id
  u ← target id db
  if same_role u.role role then ok db else set_role actor id u role db

-- `UPDATE users SET currency = currency + n WHERE id = u AND currency + n >= 0`
unfoldable pub adjust : UserId → ℤ → Accounts → Result Accounts
adjust id amount a = elim (lookup id a.users) [
  | none ↦ err insufficient_funds
  | some u ↦ elim (sub_ℕ (u.currency + pos_part amount) (neg_part amount)) [
    | pos n ↦ ok (record a { users = insert id (record u { currency = n }) a.users })
    | negsuc _ ↦ err insufficient_funds
  ]
]

abbrev pub grant_entry : UserId → ℤ → ℕ → CurrencyTransaction
grant_entry id amount grant_id = record { user = id; amount = amount; type = grant; ref = grant_id }

-- The transaction of `grant`.
unfoldable pub grant_in : UserId → UserId → ℤ → ℕ → Database → Result Database
grant_in actor id amount grant_id db = do
  u ← target id db
  recorded ← create_entry (grant_entry id amount grant_id) db.accounts
  accounts ← adjust id amount recorded
  ok (record_user actor (currency_grant grant_id amount) id (record db { accounts = accounts }))

abbrev pub find_entry : CurrencyTransaction → List CurrencyTransaction → Option CurrencyTransaction
find_entry e [] = none
find_entry e (f ∷ fs) = if same_key e f then some f else find_entry e fs

abbrev pub same_amount : ℤ → ℤ → Bool
same_amount a b = pos_part a == pos_part b && neg_part a == neg_part b

unfoldable pub replay_grant : UserId → ℤ → ℕ → Database → Result Database
replay_grant id amount grant_id db =
    elim (find_entry (grant_entry id amount grant_id) db.accounts.ledger) [
      | none ↦ err not_found
      | some entry ↦ if same_amount entry.amount amount then ok db else err grant_id_conflict
    ]

-- The `catch`: only a unique violation is replayed; a grant that goes through is announced.
abbrev pub announce_or_replay : UserId → ℤ → ℕ → Database → Result Database → Result Database
announce_or_replay id amount grant_id db (ok done) = ok (record done {
  notifications =
      record { user = id; type = currency_granted; subject = grant_id } ∷ done.notifications;
})
announce_or_replay id amount grant_id db (err unique_violation) = replay_grant id amount grant_id db
announce_or_replay id amount grant_id db (err e) = err e

unfoldable pub grant_currency : UserId → UserId → ℤ → ℕ → Database → Result Database
grant_currency actor id amount grant_id db =
    announce_or_replay id amount grant_id db (grant_in actor id amount grant_id db)

-- `grantIfFirstTime`
abbrev pub welcome_grant_amount : ℕ
welcome_grant_amount = 1_000

abbrev pub welcome_grant_ref : ℕ
welcome_grant_ref = 0

abbrev pub or_unchanged : Database → Result Database → Result Database
or_unchanged db (err unique_violation) = ok db
or_unchanged db r = r

unfoldable pub grant_if_first_time : UserId → Database → Result Database
grant_if_first_time id db = or_unchanged db (do
  recorded ← create_entry (grant_entry id (pos welcome_grant_amount) welcome_grant_ref) db.accounts
  accounts ← adjust id (pos welcome_grant_amount) recorded
  ok (record db { accounts = accounts }))

-- The rows that a suspension writes once the trades are closed.
unfoldable pub mark_suspended :
    UserId → UserId → User → List TradeId → ℕ → Database → Result Database
mark_suspended actor id u voided now db = do
  if same_role u.role admin then assert_not_last_admin id db else ok tt
  ok (
      record_user actor (suspend voided) id
        (record (set_users (insert id (record u { suspended_at = some now }) db.accounts.users)
          db) { sessions = filter_by (λ s. not (s == id)) db.sessions }))

abbrev pub notify_parties : Dict TradeRow → Database → Database
notify_parties [] db = db
notify_parties ((id, row) ∷ rows) db = notify_parties rows (record db {
  notifications =
      record { user = row.initiator; type = trade_voided; subject = id }
      ∷ record { user = row.recipient; type = trade_voided; subject = id }
      ∷ db.notifications;
})

-- `suspend`: `Unchanged` rolls back and is caught, so a suspended account is left as it is.
unfoldable pub suspend_user : UserId → UserId → ℕ → Database → Result Database
suspend_user actor id now db = do
  assert_not_self actor id
  u ← target id db
  elim u.suspended_at [
    | some _ ↦ ok db
    | none ↦ (do
      closed ← void_all_pending_of id (some actor) now db
      done ← mark_suspended actor id u (keys_of closed.rows) now closed.database
      ok (notify_parties closed.rows done))
  ]

unfoldable pub unsuspend_user : UserId → UserId → Database → Result Database
unsuspend_user actor id db = do
  assert_not_self actor id
  u ← target id db
  elim u.suspended_at [
    | none ↦ ok db
    | some _ ↦ ok (
        record_user actor unsuspend id
          (record (set_users (insert id (record u { suspended_at = none }) db.accounts.users) db) {
            sessions = filter_by (λ s. not (s == id)) db.sessions;
          }))
  ]
