-- ===== src/Admin/Welcome.antt =====
-- The welcome grant of apps/api/src/economy/welcome-grant.service.ts, given once.
use pokedrop.Base.{
  ◌≡◌, refl, sym, ap, ◌∙◌, true, some, ◌∷◌, Result, ok, err, ok-injective, ◌>>=◌, arith, some_of,
  unique_violation,
}
use pokedrop.Base.Int.{pos}
use pokedrop.Base.Dict.{lookup}
use pokedrop.Inventory.{UserId}
use pokedrop.Wallet.{User, CurrencyTransaction, Accounts, create_entry, same_key, IsReconciledAt}
use pokedrop.Wallet.Laws.{create_entry_at}
use pokedrop.Schema.Database.{Database}
use pokedrop.Admin.{
  adjust, grant_entry, welcome_grant_amount, welcome_grant_ref, or_unchanged, grant_if_first_time,
}
use pokedrop.Admin.Grants.{adjust_at, grants-IsReconciledAt}
use pokedrop.Admin.Replays.{adjust-some, same_key_refl}

-- The body of the `try` in `grantIfFirstTime`.
abbrev pub welcome : UserId → Database → Result Database
welcome id db = do
  recorded ← create_entry (grant_entry id (pos welcome_grant_amount) welcome_grant_ref) db.accounts
  accounts ← adjust id (pos welcome_grant_amount) recorded
  ok (record db { accounts = accounts })

pub welcome-steps :
    (id : UserId) (db : Database) {db' : Database}
    → welcome id db ≡ ok db'
    → (recorded : Accounts) × (create_entry
          (grant_entry id (pos welcome_grant_amount) welcome_grant_ref)
          db.accounts
        ≡ ok recorded)
      × (adjust id (pos welcome_grant_amount) recorded ≡ ok db'.accounts)
      × (db'.inventory ≡ db.inventory)
      × (db'.trades ≡ db.trades)
welcome-steps id db e = ground arith

create_entry-again :
    (e : CurrencyTransaction) (a : Accounts) (u : User)
    → lookup e.user a.users ≡ some u
    → some_of (same_key e) a.ledger ≡ true
    → create_entry e a ≡ err unique_violation
unfolding create_entry
create_entry-again e a u there used = ground (arith, there, used)

-- The welcome grant is given at most once: called again it changes nothing; it keeps every
-- balance the sum of its ledger and touches no copy and no trade.
pub grant_if_first_time_twice :
    (id : UserId) (db : Database) {db' : Database}
    → grant_if_first_time id db ≡ ok db'
    → (grant_if_first_time id db' ≡ ok db')
      × ((u : UserId) → IsReconciledAt u db.accounts → IsReconciledAt u db'.accounts)
      × (db'.inventory ≡ db.inventory)
      × (db'.trades ≡ db.trades)
unfolding grant_if_first_time
grant_if_first_time_twice id db {db' = db'} e = go (welcome id db) refl e
  where
    go :
        (r : Result Database)
        → welcome id db ≡ r
        → or_unchanged db r ≡ ok db'
        → (or_unchanged db' (welcome id db') ≡ ok db')
          × ((u : UserId) → IsReconciledAt u db.accounts → IsReconciledAt u db'.accounts)
          × (db'.inventory ≡ db.inventory)
          × (db'.trades ≡ db.trades)
    go (ok done) w h =
        let g = grant_entry id (pos welcome_grant_amount) welcome_grant_ref in
        let given : welcome id db ≡ ok db' = w ∙ h in
        let (recorded, e₁, e₂, inv, trades) = welcome-steps id db given in
        let (users, ledger, _) = create_entry_at g db.accounts e₁ in
        let (u, there) = adjust-some id (pos welcome_grant_amount) recorded e₂ in
        let listed : db'.accounts.ledger ≡ g ∷ db.accounts.ledger =
          (adjust_at id (pos welcome_grant_amount) recorded 0 e₂).1 ∙ ledger in
        let used : some_of (same_key g) db'.accounts.ledger ≡ true =
          rw listed (ground (arith, same_key_refl g)) in
        (
          rw (create_entry-again g db'.accounts u there used) refl,
          (λ v r.
              grants-IsReconciledAt id (pos welcome_grant_amount) welcome_grant_ref db.accounts
                recorded v e₁ e₂ r),
          inv,
          trades,
        )
    go (err unique_violation) w h =
        let same : db' ≡ db = sym (ok-injective h) in
        rw same (ap (or_unchanged db) w, (λ u r. r), refl, refl)
    go (err x) w h = absurd (ground arith)
