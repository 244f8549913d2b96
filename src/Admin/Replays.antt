-- ===== src/Admin/Replays.antt =====
-- A repeated grant of an admin: `replayGrant`.
use pokedrop.Base.{
  ℕ, ◌+◌, ◌≡◌, refl, ◌∙◌, true, some, List, [], ◌∷◌, if◌then◌else◌, Result, ok, err, ok-injective,
  arith, Option-cases, Bool-cases, inl, inr, some_of, unique_violation, grant_id_conflict,
}
use pokedrop.Base.Int.{ℤ, pos, negsuc, sub_ℕ, pos_part, neg_part}
use pokedrop.Base.Dict.{lookup, lookup-insert}
use pokedrop.Inventory.{UserId}
use pokedrop.Wallet.{User, CurrencyTransaction, Accounts, create_entry, same_key, IsReconciledAt}
use pokedrop.Schema.Database.{Database}
use pokedrop.Admin.{
  target, adjust, grant_entry, grant_in, find_entry, same_amount, replay_grant, announce_or_replay,
  grant_currency,
}
use pokedrop.Admin.Grants.{Granted, grant_in-steps, grant_in-Granted}

pub same_key_refl : (e : CurrencyTransaction) → same_key e e ≡ true
same_key_refl e = ground arith

same_amount_refl : (q : ℤ) → same_amount q q ≡ true
same_amount_refl q = ground arith

grant_in-again :
    (actor id : UserId) (amount amount' : ℤ) (grant_id : ℕ) (db : Database) (u : User)
    → lookup id db.accounts.users ≡ some u
    → some_of (same_key (grant_entry id amount grant_id)) db.accounts.ledger ≡ true
    → grant_in actor id amount' grant_id db ≡ err unique_violation
unfolding grant_in target create_entry
grant_in-again actor id amount amount' grant_id db u there used = ground (arith, there, used)

find_entry_amount :
    (id : UserId) (q q' : ℤ) (grant_id : ℕ) (l : List CurrencyTransaction)
    → find_entry (grant_entry id q grant_id) l ≡ find_entry (grant_entry id q' grant_id) l
find_entry_amount id q q' grant_id [] = refl
find_entry_amount id q q' grant_id (e ∷ l) = ground (arith, find_entry_amount id q q' grant_id l)

find_entry-some_of :
    (e : CurrencyTransaction) (l : List CurrencyTransaction) {f : CurrencyTransaction}
    → find_entry e l ≡ some f
    → some_of (same_key e) l ≡ true
find_entry-some_of e [] h = cc
find_entry-some_of e (g ∷ l) h = elim (Bool-cases (same_key e g)) [
  | inl here ↦ ground (arith, here)
  | inr later ↦ rw later (find_entry-some_of e l (rw later at h))
]

-- A grant of the amount under the id is on record, and its user exists.
pub record IsGranted (id : UserId) (amount : ℤ) (grant_id : ℕ) (db : Database) : Type 0 where
  pub user : User
  pub exists : lookup id db.accounts.users ≡ some user
  pub entry : CurrencyTransaction
  pub found : find_entry (grant_entry id amount grant_id) db.accounts.ledger ≡ some entry
  pub amount_same : entry.amount ≡ amount

pub IsGranted-replays :
    (actor id : UserId) (amount amount' : ℤ) (grant_id : ℕ) (db : Database)
    → IsGranted id amount grant_id db
    → grant_currency actor id amount' grant_id db
      ≡ (if same_amount amount amount' then ok db else err grant_id_conflict)
unfolding grant_currency replay_grant
IsGranted-replays actor id amount amount' grant_id db g =
    let used = find_entry-some_of (grant_entry id amount grant_id) db.accounts.ledger g.found in
    let again = grant_in-again actor id amount amount' grant_id db g.user g.exists used in
    let there : find_entry (grant_entry id amount' grant_id) db.accounts.ledger ≡ some g.entry =
      find_entry_amount id amount' amount grant_id db.accounts.ledger ∙ g.found in
    rw (again, replay_grant, there, g.amount_same) refl

pub adjust-some :
    (id : UserId) (amount : ℤ) (a : Accounts) {a' : Accounts}
    → adjust id amount a ≡ ok a'
    → (u : User) × (lookup id a'.users ≡ some u)
unfolding adjust
adjust-some id amount a {a' = a'} e = elim (Option-cases (lookup id a.users)) [
  | inl missing ↦ absurd (ground (arith, missing))
  | inr (u, there) ↦ go u there (sub_ℕ (u.currency + pos_part amount) (neg_part amount)) refl
]
  where
    go :
        (u : User)
        → lookup id a.users ≡ some u
        → (q : ℤ) → sub_ℕ (u.currency + pos_part amount) (neg_part amount) ≡ q
        → (u : User) × (lookup id a'.users ≡ some u)
    go u there (pos n) s = (
      record u { currency = n },
      ground (arith, there, s, lookup-insert id id (record u { currency = n }) a.users),
    )
    go u there (negsuc n) s = absurd (ground (arith, there, s))

grant_in-IsGranted :
    (actor id : UserId) (amount : ℤ) (grant_id : ℕ) (db : Database) {db' : Database}
    → grant_in actor id amount grant_id db ≡ ok db'
    → IsGranted id amount grant_id db'
grant_in-IsGranted actor id amount grant_id db {db' = db'} e =
    let (recorded, _, e₂, _, _) = grant_in-steps actor id amount grant_id db e in
    let (u, there) = adjust-some id amount recorded e₂ in
    let done = grant_in-Granted actor id amount grant_id db e in
    record {
      user = u;
      exists = there;
      entry = grant_entry id amount grant_id;
      found = rw done.recorded (ground (arith, same_key_refl (grant_entry id amount grant_id)));
      amount_same = refl;
    }

same_amount-eq : (a b : ℤ) → same_amount a b ≡ true → a ≡ b
same_amount-eq a b e = ground arith

pub replay_grant-ok :
    (id : UserId) (amount : ℤ) (grant_id : ℕ) (db : Database) {db' : Database}
    → replay_grant id amount grant_id db ≡ ok db'
    → (entry : CurrencyTransaction) × (find_entry
          (grant_entry id amount grant_id)
          db.accounts.ledger
        ≡ some entry)
      × (same_amount entry.amount amount ≡ true)
      × (db' ≡ db)
unfolding replay_grant
replay_grant-ok id amount grant_id db e =
    elim (Option-cases (find_entry (grant_entry id amount grant_id) db.accounts.ledger)) [
      | inl missing ↦ absurd (ground (arith, missing))
      | inr (entry, there) ↦ (entry, there, ground (arith, there), ground (arith, there))
    ]

grant_in-refused :
    (actor id : UserId) (amount : ℤ) (grant_id : ℕ) (db : Database)
    → grant_in actor id amount grant_id db ≡ err unique_violation
    → (u : User) × (lookup id db.accounts.users ≡ some u)
unfolding grant_in target
grant_in-refused actor id amount grant_id db e = elim (Option-cases (lookup id db.accounts.users)) [
  | inl missing ↦ absurd (ground (arith, missing))
  | inr (u, there) ↦ (u, there)
]

replayed-IsGranted :
    (actor id : UserId) (amount : ℤ) (grant_id : ℕ) (db : Database) {db' : Database}
    → grant_in actor id amount grant_id db ≡ err unique_violation
    → replay_grant id amount grant_id db ≡ ok db'
    → (db' ≡ db) × IsGranted id amount grant_id db
replayed-IsGranted actor id amount grant_id db r e =
    let (u, there) = grant_in-refused actor id amount grant_id db r in
    let (entry, found, same, unchanged) = replay_grant-ok id amount grant_id db e in
    (
      unchanged,
      record {
        user = u;
        exists = there;
        entry = entry;
        found = found;
        amount_same = same_amount-eq entry.amount amount same;
      },
    )

-- A grant either goes through, or was on record and changes nothing.
data Granting (id : UserId) (amount : ℤ) (grant_id : ℕ) (db db' : Database) : Type 0 where
  first :
      Granted id amount grant_id db db'
      → IsGranted id amount grant_id db'
      → Granting id amount grant_id db db'
  repeated : db' ≡ db → IsGranted id amount grant_id db → Granting id amount grant_id db db'

announced-Granting :
    (actor id : UserId) (amount : ℤ) (grant_id : ℕ) (db : Database) {db' : Database}
    (r : Result Database)
    → grant_in actor id amount grant_id db ≡ r
    → announce_or_replay id amount grant_id db r ≡ ok db'
    → Granting id amount grant_id db db'
announced-Granting actor id amount grant_id db (ok done) g e =
    let granted = grant_in-Granted actor id amount grant_id db g in
    let there = grant_in-IsGranted actor id amount grant_id db g in
    rw (← ok-injective e) (
      first
        (record {
          reconciled = granted.reconciled;
          recorded = granted.recorded;
          inventory_same = granted.inventory_same;
          trades_same = granted.trades_same;
        })
        (record {
          user = there.user;
          exists = there.exists;
          entry = there.entry;
          found = there.found;
          amount_same = there.amount_same;
        }))
announced-Granting actor id amount grant_id db (err unique_violation) g e =
    let (same, there) = replayed-IsGranted actor id amount grant_id db g e in repeated same there
announced-Granting actor id amount grant_id db (err x) g e = ground arith

grant_currency-Granting :
    (actor id : UserId) (amount : ℤ) (grant_id : ℕ) (db : Database) {db' : Database}
    → grant_currency actor id amount grant_id db ≡ ok db'
    → Granting id amount grant_id db db'
unfolding grant_currency
grant_currency-Granting actor id amount grant_id db e =
    announced-Granting actor id amount grant_id db (grant_in actor id amount grant_id db) refl e

pub grant_currency-IsGranted :
    (actor id : UserId) (amount : ℤ) (grant_id : ℕ) (db : Database) {db' : Database}
    → grant_currency actor id amount grant_id db ≡ ok db'
    → IsGranted id amount grant_id db'
grant_currency-IsGranted actor id amount grant_id db e =
    elim (grant_currency-Granting actor id amount grant_id db e) [
      | first _ there ↦ there
      | repeated same there ↦ rw same there
    ]

-- A grant keeps the stored balances equal to the ledger, and touches no copy and no trade.
pub grant_currency-IsReconciled :
    (actor id : UserId) (amount : ℤ) (grant_id : ℕ) (db : Database) {db' : Database}
    → grant_currency actor id amount grant_id db ≡ ok db'
    → ((u : UserId) → IsReconciledAt u db.accounts → IsReconciledAt u db'.accounts)
      × (db'.inventory ≡ db.inventory)
      × (db'.trades ≡ db.trades)
grant_currency-IsReconciled actor id amount grant_id db e =
    elim (grant_currency-Granting actor id amount grant_id db e) [
      | first g _ ↦ (g.reconciled, g.inventory_same, g.trades_same)
      | repeated same _ ↦ rw same ((λ u r. r), refl, refl)
    ]
