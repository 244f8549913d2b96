-- ===== src/Admin/Admins.antt =====
-- The guard that leaves an active admin: `assertNotLastAdmin` before every demotion and suspension.
use pokedrop.Base.{
  ℕ, ◌≤◌, ◌≡◌, refl, true, not, ◌&&◌, some, [], ◌∷◌, leb, if◌then◌else◌, length, contains, ok,
  arith, Option-cases, Bool-cases, inl, inr,
}
use pokedrop.Base.Dict.{Dict, lookup, insert, sum_rows, sum_rows-insert}
use pokedrop.Inventory.{UserId}
use pokedrop.Wallet.{Role, User}
use pokedrop.Schema.Database.{Database}
use pokedrop.Admin.{
  same_role, is_active_admin, active_admins, target, assert_not_last_admin, set_role, change_role,
}

-- At least one admin is active.
abbrev pub IsAdministered : Database → Type 0
IsAdministered db = 1 ≤ length (active_admins db.accounts.users)

abbrev one_admin : User → ℕ
one_admin u = if is_active_admin u then 1 else 0

active_admins-length : (users : Dict User) → length (active_admins users) ≡ sum_rows one_admin users
unfolding active_admins sum_rows
active_admins-length [] = refl
active_admins-length ((id, u) ∷ users) = ground (arith, active_admins-length users)

contains-active_admins :
    (id : UserId) (u : User) (users : Dict User)
    → lookup id users ≡ some u
    → is_active_admin u ≡ true
    → contains id (active_admins users) ≡ true
unfolding active_admins lookup
contains-active_admins id u [] e a = cc
contains-active_admins id u ((j, v) ∷ users) e a = ground (arith, contains-active_admins id u users)

-- The row of one user may change in any way once the guard has passed for an active admin.
pub guarded-insert :
    (id : UserId) (u u' : User) (users : Dict User)
    → lookup id users ≡ some u
    → 1 ≤ length (active_admins users)
    → (is_active_admin u ≡ true
        → not (leb (length (active_admins users)) 1 && contains id (active_admins users)) ≡ true)
    → 1 ≤ length (active_admins (insert id u' users))
guarded-insert id u u' users there some_left guard = ground (
  arith,
  active_admins-length users,
  active_admins-length (insert id u' users),
  sum_rows-insert one_admin id u' u users there,
  contains-active_admins id u users there,
  guard,
)

set_role-IsAdministered :
    (actor id : UserId) (u : User) (role : Role) (db : Database) {db' : Database}
    → lookup id db.accounts.users ≡ some u
    → set_role actor id u role db ≡ ok db'
    → IsAdministered db
    → IsAdministered db'
unfolding set_role assert_not_last_admin
set_role-IsAdministered actor id u role db there e h =
    ground (arith, guarded-insert id u (record u { role = role }) db.accounts.users there h)

-- A change of role that succeeds leaves an active admin if there was one.
pub change_role-IsAdministered :
    (actor id : UserId) (role : Role) (db : Database) {db' : Database}
    → change_role actor id role db ≡ ok db'
    → IsAdministered db
    → IsAdministered db'
unfolding change_role target
change_role-IsAdministered actor id role db {db' = db'} e h =
    elim (Option-cases (lookup id db.accounts.users)) [
      | inl missing ↦ absurd (ground (arith, missing))
      | inr (u, there) ↦ elim (Bool-cases (same_role u.role role)) [
        | inl same ↦ ground (arith, there, same)
        | inr other ↦
            set_role-IsAdministered actor id u role db {db' = db'} there
              (ground (arith, there, other)) h
      ]
    ]
