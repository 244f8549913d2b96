-- ===== src/Wallet/Model.antt =====
-- The coins: the rows of `users` and `currency_transactions` that the services write
-- (apps/api/src/trades/trade-settlement.service.ts, apps/api/src/economy/welcome-grant.service.ts,
-- packages/shared/src/enums.ts).
use pokedrop.Base.{
  ℕ, ◌+◌, ◌-◌, ◌≡◌, Bool, ◌&&◌, Option, none, some, List, [], ◌∷◌, ◌==◌, leb, if◌then◌else◌,
  some_of, Result, ok, err, unique_violation, foreign_key_violation, Error,
}
use pokedrop.Base.Int.{ℤ, pos, ◌+ℤ◌}
use pokedrop.Base.Dict.{Dict, lookup, insert}
use pokedrop.Inventory.{UserId}

pub data Role : Type 0 where
  member admin : Role

pub record User : Type 0 where
  pub currency : ℕ
  pub role : Role
  pub suspended_at : Option ℕ

pub data TransactionType : Type 0 where
  grant pack_spend trade trade_reversal : TransactionType

abbrev pub type_code : TransactionType → ℕ
type_code grant = 0
type_code pack_spend = 1
type_code trade = 2
type_code trade_reversal = 3

pub record CurrencyTransaction : Type 0 where
  pub user : UserId
  pub amount : ℤ
  pub type : TransactionType
  pub ref : ℕ

pub record Accounts : Type 0 where
  pub users : Dict User
  pub ledger : List CurrencyTransaction

abbrev pub balance_of : Option User → ℕ
balance_of none = 0
balance_of (some u) = u.currency

abbrev pub balance : UserId → Accounts → ℕ
balance u a = balance_of (lookup u a.users)

-- The unique index on (userId, type, refId).
abbrev pub same_key : CurrencyTransaction → CurrencyTransaction → Bool
same_key e f = e.user == f.user && (type_code e.type == type_code f.type && e.ref == f.ref)

-- An INSERT into `currency_transactions`: the user has to exist, and the key to be new.
unfoldable pub create_entry : CurrencyTransaction → Accounts → Result Accounts
create_entry e a = elim (lookup e.user a.users) [
  | none ↦ err foreign_key_violation
  | some _ ↦
      if some_of (same_key e) a.ledger
      then err unique_violation
      else ok (record a { ledger = e ∷ a.ledger })
]

-- `UPDATE users SET currency = currency - n WHERE id = u AND currency >= n`, with the error that
-- the caller throws where no row was updated.
unfoldable pub debit : UserId → ℕ → Error → Accounts → Result Accounts
debit u n e a = elim (lookup u a.users) [
  | none ↦ err e
  | some user ↦
      if leb n user.currency
      then ok (record a { users = insert u (record user { currency = user.currency - n }) a.users })
      else err e
]

-- `UPDATE users SET currency = currency + n WHERE id = u`
unfoldable pub credit : UserId → ℕ → Accounts → Accounts
credit u n a = elim (lookup u a.users) [
  | none ↦ a
  | some user ↦ record a { users = insert u (record user { currency = user.currency + n }) a.users }
]

-- The sum of a user's ledger.
abbrev pub ledger_sum : UserId → List CurrencyTransaction → ℤ
ledger_sum u [] = pos 0
ledger_sum u (e ∷ l) = (if e.user == u then e.amount else pos 0) +ℤ ledger_sum u l

-- The stored balance is the sum of the ledger.
abbrev pub IsReconciledAt : UserId → Accounts → Type 0
IsReconciledAt u a = pos (balance u a) ≡ ledger_sum u a.ledger
