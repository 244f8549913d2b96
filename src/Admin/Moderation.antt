-- ===== src/Admin/Moderation.antt =====
-- A change of role and the end of a suspension touch no coin, no copy and no trade.
use pokedrop.Base.{ℕ, ◌≡◌, refl, none, some, ok, arith, Option-cases, Bool-cases, inl, inr, ◌⊎◌}
use pokedrop.Base.Dict.{lookup, insert}
use pokedrop.Inventory.{UserId}
use pokedrop.Wallet.{Role, User, balance}
use pokedrop.Schema.Database.{Database}
use pokedrop.Admin.{same_role, target, set_role, change_role, unsuspend_user, suspend_user}
use pokedrop.Admin.Suspension.{balance-insert, Suspended, suspend_user-Suspended}

pub record Moderated (db db' : Database) : Type 0 where
  pub balances : (v : UserId) → balance v db'.accounts ≡ balance v db.accounts
  pub ledger_same : db'.accounts.ledger ≡ db.accounts.ledger
  pub inventory_same : db'.inventory ≡ db.inventory
  pub trades_same : db'.trades ≡ db.trades

same-Moderated : (db db' : Database) → db' ≡ db → Moderated db db'
same-Moderated db db' e =
    rw e (record {
      balances = λ v. refl;
      ledger_same = refl;
      inventory_same = refl;
      trades_same = refl;
    })

-- One user's row written with the same currency.
written-Moderated :
    (id : UserId) (u u' : User) (db db' : Database)
    → lookup id db.accounts.users ≡ some u
    → u'.currency ≡ u.currency
    → db'.accounts ≡ record (db.accounts) { users = insert id u' db.accounts.users }
    → db'.inventory ≡ db.inventory
    → db'.trades ≡ db.trades
    → Moderated db db'
written-Moderated id u u' db db' there same a i t = record {
  balances = λ v. rw a (balance-insert id u u' db.accounts v there same);
  ledger_same = rw a refl;
  inventory_same = i;
  trades_same = t;
}

set_role-ok :
    (actor id : UserId) (u : User) (role : Role) (db : Database) {db' : Database}
    → set_role actor id u role db ≡ ok db'
    → (db'.accounts
        ≡ record (db.accounts) { users = insert id (record u { role = role }) db.accounts.users })
      × (db'.inventory ≡ db.inventory)
      × (db'.trades ≡ db.trades)
unfolding set_role
set_role-ok actor id u role db e = ground arith

pub change_role-Moderated :
    (actor id : UserId) (role : Role) (db : Database) {db' : Database}
    → change_role actor id role db ≡ ok db'
    → Moderated db db'
unfolding change_role target
change_role-Moderated actor id role db {db' = db'} e =
    elim (Option-cases (lookup id db.accounts.users)) [
      | inl missing ↦ absurd (ground (arith, missing))
      | inr (u, there) ↦ elim (Bool-cases (same_role u.role role)) [
        | inl same ↦ same-Moderated db db' (ground (arith, there, same))
        | inr other ↦
            let (a, i, t) =
              set_role-ok actor id u role db {db' = db'} (ground (arith, there, other)) in
            written-Moderated id u (record u { role = role }) db db' there refl a i t
      ]
    ]

pub unsuspend_user-Moderated :
    (actor id : UserId) (db : Database) {db' : Database}
    → unsuspend_user actor id db ≡ ok db'
    → Moderated db db'
unfolding unsuspend_user target
unsuspend_user-Moderated actor id db {db' = db'} e =
    elim (Option-cases (lookup id db.accounts.users)) [
      | inl missing ↦ absurd (ground (arith, missing))
      | inr (u, there) ↦ elim (Option-cases u.suspended_at) [
        | inl active ↦ same-Moderated db db' (ground (arith, there, active))
        | inr (at, suspended) ↦
            written-Moderated id u (record u { suspended_at = none }) db db' there refl
              (ground (arith, there, suspended)) (ground (arith, there, suspended))
              (ground (arith, there, suspended))
      ]
    ]

-- A suspension changes nothing, or suspends.
pub suspend_user-cases :
    (actor id : UserId) (now : ℕ) (db : Database) {db' : Database}
    → suspend_user actor id now db ≡ ok db'
    → (db' ≡ db) ⊎ ((u : User) × Suspended id u now db db')
unfolding suspend_user target
suspend_user-cases actor id now db e = elim (Option-cases (lookup id db.accounts.users)) [
  | inl missing ↦ absurd (ground (arith, missing))
  | inr (u, there) ↦ elim (Option-cases u.suspended_at) [
    | inl active ↦ inr (u, (suspend_user-Suspended actor id now db u there active e).1)
    | inr (at, suspended) ↦ inl (ground (arith, there, suspended))
  ]
]
