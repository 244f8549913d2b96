-- ===== src/Admin/Grants.antt =====
-- What `grant` and `grantIfFirstTime` do to the balances and the ledger, and to a repeated request.
use pokedrop.Base.{
  ℕ, ◌+◌, ◌≡◌, refl, ◌∙◌, Bool, some, ◌∷◌, ◌==◌, if◌then◌else◌, ok, arith, Option-cases, inl, inr,
}
use pokedrop.Base.Int.{ℤ, pos, negsuc, sub_ℕ, pos_part, neg_part, ◌+ℤ◌}
use pokedrop.Base.Dict.{lookup, lookup-insert}
use pokedrop.Inventory.{UserId}
use pokedrop.Wallet.{User, Accounts, balance, create_entry, ledger_sum, IsReconciledAt}
use pokedrop.Wallet.Laws.{create_entry_at}
use pokedrop.Schema.Database.{Database}
use pokedrop.Admin.{adjust, grant_entry, grant_in}

pub sub_ℕ-pos : (m n k : ℕ) → sub_ℕ m n ≡ pos k → k + n ≡ m
sub_ℕ-pos m n k e = ground arith

pub adjust_at :
    (id : UserId) (amount : ℤ) (a : Accounts) {a' : Accounts} (v : UserId)
    → adjust id amount a ≡ ok a'
    → (balance v a' + (if id == v then neg_part amount else 0)
        ≡ balance v a + (if id == v then pos_part amount else 0))
      × (a'.ledger ≡ a.ledger)
unfolding adjust
adjust_at id amount a {a' = a'} v e = elim (Option-cases (lookup id a.users)) [
  | inl missing ↦ absurd (ground (arith, missing))
  | inr (u, there) ↦ go u there (sub_ℕ (u.currency + pos_part amount) (neg_part amount)) refl
]
  where
    go :
        (u : User)
        → lookup id a.users ≡ some u
        → (q : ℤ) → sub_ℕ (u.currency + pos_part amount) (neg_part amount) ≡ q
        → (balance v a' + (if id == v then neg_part amount else 0)
            ≡ balance v a + (if id == v then pos_part amount else 0))
          × (a'.ledger ≡ a.ledger)
    go u there (pos n) s =
        ground (
          arith,
          there,
          s,
          sub_ℕ-pos _ _ n s,
          lookup-insert id v (record u { currency = n }) a.users,
        )
    go u there (negsuc n) s = ground (arith, there, s)

reconcile_adjust :
    (p : Bool) (q : ℤ) (b b' : ℕ) (s s' : ℤ)
    → pos b ≡ s
    → b' + (if p then neg_part q else 0) ≡ b + (if p then pos_part q else 0)
    → s' ≡ (if p then q else pos 0) +ℤ s
    → pos b' ≡ s'
unfolding ◌+ℤ◌
reconcile_adjust p (pos n) b b' s s' r m l = ground arith
reconcile_adjust p (negsuc n) b b' s s' r m l = ground arith

pub grants-IsReconciledAt :
    (id : UserId) (amount : ℤ) (grant_id : ℕ) (a recorded : Accounts) {a' : Accounts} (u : UserId)
    → create_entry (grant_entry id amount grant_id) a ≡ ok recorded
    → adjust id amount recorded ≡ ok a'
    → IsReconciledAt u a
    → IsReconciledAt u a'
grants-IsReconciledAt id amount grant_id a recorded {a' = a'} u e₁ e₂ r =
    let (users, ledger, _) = create_entry_at (grant_entry id amount grant_id) a e₁ in
    let (moved, same) = adjust_at id amount recorded u e₂ in
    reconcile_adjust (id == u) amount (balance u a) (balance u a') (ledger_sum u a.ledger)
      (ledger_sum u a'.ledger) r (rw users at moved) (rw (same, ledger) refl)

-- What a grant that goes through leaves.
pub record Granted (id : UserId) (amount : ℤ) (grant_id : ℕ) (db db' : Database) : Type 0 where
  pub reconciled : (u : UserId) → IsReconciledAt u db.accounts → IsReconciledAt u db'.accounts
  pub recorded : db'.accounts.ledger ≡ grant_entry id amount grant_id ∷ db.accounts.ledger
  pub inventory_same : db'.inventory ≡ db.inventory
  pub trades_same : db'.trades ≡ db.trades

pub grant_in-steps :
    (actor id : UserId) (amount : ℤ) (grant_id : ℕ) (db : Database) {db' : Database}
    → grant_in actor id amount grant_id db ≡ ok db'
    → (recorded : Accounts) × (create_entry (grant_entry id amount grant_id) db.accounts
        ≡ ok recorded)
      × (adjust id amount recorded ≡ ok db'.accounts)
      × (db'.inventory ≡ db.inventory)
      × (db'.trades ≡ db.trades)
unfolding grant_in
grant_in-steps actor id amount grant_id db e = ground arith

pub grant_in-Granted :
    (actor id : UserId) (amount : ℤ) (grant_id : ℕ) (db : Database) {db' : Database}
    → grant_in actor id amount grant_id db ≡ ok db'
    → Granted id amount grant_id db db'
grant_in-Granted actor id amount grant_id db e =
    let (recorded, e₁, e₂, inv, trades) = grant_in-steps actor id amount grant_id db e in
    record {
      reconciled = λ u r. grants-IsReconciledAt id amount grant_id db.accounts recorded u e₁ e₂ r;
      recorded =
          (adjust_at id amount recorded 0 e₂).1
          ∙ (create_entry_at (grant_entry id amount grant_id) db.accounts e₁).1;
      inventory_same = inv;
      trades_same = trades;
    }
