-- ===== src/Wallet/Laws.antt =====
-- What each statement on the accounts does to every balance and to every user's ledger.
use pokedrop.Base.{
  ℕ, ◌+◌, ◌-◌, ◌≡◌, some, ◌∷◌, ◌==◌, if◌then◌else◌, ok, Error, arith, Option-cases, inl, inr,
}
use pokedrop.Base.Dict.{lookup, lookup-insert}
use pokedrop.Inventory.{UserId}
use pokedrop.Wallet.{User, CurrencyTransaction, Accounts, balance, create_entry, debit, credit}

pub create_entry_at :
    (e : CurrencyTransaction) (a : Accounts) {a' : Accounts}
    → create_entry e a ≡ ok a'
    → (a'.users ≡ a.users)
      × (a'.ledger ≡ e ∷ a.ledger)
      × ((u : User) × (lookup e.user a.users ≡ some u))
unfolding create_entry
create_entry_at e a h = ground arith

pub debit_at :
    (u : UserId) (n : ℕ) (e : Error) (a : Accounts) {a' : Accounts} (v : UserId)
    → debit u n e a ≡ ok a'
    → (balance v a' + (if u == v then n else 0) ≡ balance v a) × (a'.ledger ≡ a.ledger)
unfolding debit
debit_at u n e a v h = elim (Option-cases (lookup u a.users)) [
  | inl none_there ↦ ground arith
  | inr (user, there) ↦
      ground
        (arith, there, lookup-insert u v (record user { currency = user.currency - n }) a.users)
]

pub credit_at :
    (u : UserId) (n : ℕ) (a : Accounts) (v : UserId) {user : User}
    → lookup u a.users ≡ some user
    → (balance v (credit u n a) ≡ balance v a + (if u == v then n else 0))
      × ((credit u n a).ledger ≡ a.ledger)
unfolding credit
credit_at u n a v {user = user} there =
    ground (arith, lookup-insert u v (record user { currency = user.currency + n }) a.users)
