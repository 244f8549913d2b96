-- ===== src/System.antt =====
-- The program as a system: its state is the database, and a step is one transaction that commits.
-- What a handler read before its transaction is any row that agrees with the table in its terms, so
-- the steps of concurrent requests interleave freely.
pub mod Coins
pub mod Soundness
pub mod Closing
pub mod Openings
pub mod Ledger
pub mod Answers
pub mod Settling
pub mod Expiring
use pokedrop.Base.{ℕ, ◌≡◌, Option, some, List, ok, ◌==◌, false}
use pokedrop.Base.Int.{ℤ}
use pokedrop.Base.Dict.{lookup}
use pokedrop.Inventory.{UserId, CardId}
use pokedrop.Inventory.Progress.{IsNormal}
use pokedrop.Wallet.{Role, IsReconciledAt}
use pokedrop.Schema.Trade.{TradeId, TradeTerms, TradeRow, TradeInput, offered_changes}
use pokedrop.Schema.Database.{Database, PulledCard, NotificationType}
use pokedrop.Trades.{CloseOptions, close, propose_in, accept_in, counter_in, void_in, notify}
use pokedrop.Trades.Promises.{IsSnapshot}
use pokedrop.Trades.Escrow.{EscrowAt, Releases}
use pokedrop.Packs.Opening.{PackTemplate, write}
use pokedrop.Admin.{change_role, grant_currency, grant_if_first_time, suspend_user, unsuspend_user}

-- `closing` is the transaction of a decline, a cancel, an expiry or a void of a pending trade, and
-- `notifying` the write that follows a commit.
pub data Step (db db' : Database) : Type 0 where
  proposing :
      (user recipient : UserId) (input : TradeInput) (id : TradeId) (now : ℕ)
      → propose_in user recipient input id now db ≡ ok db'
      → Step db db'
  closing :
      (id : TradeId) (t : TradeTerms) (o : CloseOptions) (now : ℕ)
      → Releases o
      → IsSnapshot id t db.trades
      → close id t o now db ≡ ok db'
      → Step db db'
  accepting :
      (user : UserId) (id : TradeId) (t : TradeTerms) (now : ℕ)
      → IsSnapshot id t db.trades
      → accept_in user id t now db ≡ ok db'
      → Step db db'
  countering :
      (user : UserId) (original : TradeId) (t : TradeTerms) (input : TradeInput) (id : TradeId)
      (now : ℕ)
      → IsSnapshot original t db.trades
      → counter_in user original t input id now db ≡ ok db'
      → Step db db'
  voiding_one :
      (admin : UserId) (id : TradeId) (row : TradeRow) (now : ℕ)
      → IsSnapshot id row.terms db.trades
      → void_in admin id row now db ≡ ok db'
      → Step db db'
  opening :
      (user : UserId) (template : PackTemplate) (open_id : ℕ) (cards : List PulledCard)
      → write user template open_id cards db ≡ ok db'
      → Step db db'
  suspending : (actor id : UserId) (now : ℕ) → suspend_user actor id now db ≡ ok db' → Step db db'
  unsuspending : (actor id : UserId) → unsuspend_user actor id db ≡ ok db' → Step db db'
  changing_role :
      (actor id : UserId) (role : Role) → change_role actor id role db ≡ ok db' → Step db db'
  granting :
      (actor id : UserId) (amount : ℤ) (grant_id : ℕ)
      → grant_currency actor id amount grant_id db ≡ ok db'
      → Step db db'
  notifying :
      (users : List UserId) (type : NotificationType) (id : TradeId)
      → db' ≡ notify users type id db
      → Step db db'
  welcoming : (id : UserId) → grant_if_first_time id db ≡ ok db' → Step db db'

pub data Reach (db : Database) : Database → Type 0 where
  here : Reach db db
  next : {mid after : Database} → Reach db mid → Step mid after → Reach db after

-- What has to hold between transactions: locks are what the pending trades promise and within what
-- is held, a balance is the sum of its ledger, the parties of a trade differ, and what it offers is
-- well formed.
pub record IsSound (db : Database) : Type 0 where
  pub escrow : (u : UserId) (c : CardId) → EscrowAt u c db
  pub reconciled : (u : UserId) → IsReconciledAt u db.accounts
  pub apart :
      (id : TradeId) (row : TradeRow)
      → lookup id db.trades ≡ some row
      → (row.initiator == row.recipient) ≡ false
  pub normal :
      (id : TradeId) (row : TradeRow)
      → lookup id db.trades ≡ some row
      → IsNormal (offered_changes row.terms)
