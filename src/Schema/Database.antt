-- ===== src/Schema/Database.antt =====
-- The tables that the services write, as one value: what a transaction starts from and commits
-- (apps/api/prisma/schema.prisma; apps/api/src/audit/audit.service.ts).
use pokedrop.Base.{ℕ, Option, List}
use pokedrop.Base.Dict.{Dict}
use pokedrop.Base.Int.{ℤ}
use pokedrop.Inventory.{UserId, CardId, Inventory}
use pokedrop.Wallet.{Accounts, Role}
use pokedrop.Schema.Trade.{TradeId, TradeStatus, TradeRow}

pub data TradeAction : Type 0 where
  propose accept decline cancel counter expire void : TradeAction

pub data UserAction : Type 0 where
  role_change : Role → Role → UserAction
  currency_grant : ℕ → ℤ → UserAction
  suspend : List TradeId → UserAction
  unsuspend : UserAction

-- One row of the audit log: who acted, on what, with the `from` and `to` of its meta.
pub data AuditEntry : Type 0 where
  trade_entry :
      Option UserId → TradeAction → TradeId → Option TradeStatus → TradeStatus → AuditEntry
  user_entry : UserId → UserAction → UserId → AuditEntry

pub data NotificationType : Type 0 where
  trade_proposed trade_accepted trade_declined trade_cancelled trade_countered trade_expired
        trade_voided currency_granted :
      NotificationType

pub record Notification : Type 0 where
  pub user : UserId
  pub type : NotificationType
  pub subject : ℕ

pub record PulledCard : Type 0 where
  pub card : CardId
  pub rarity : ℕ

pub record PackOpening : Type 0 where
  pub user : UserId
  pub template : ℕ
  pub cards : List PulledCard

pub record Database : Type 0 where
  pub accounts : Accounts
  pub inventory : Inventory
  pub trades : Dict TradeRow
  pub cards : List CardId
  pub openings : Dict PackOpening
  pub sessions : List UserId
  pub audit : List AuditEntry
  pub notifications : List Notification
