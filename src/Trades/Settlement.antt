-- ===== src/Trades/Settlement.antt =====
-- apps/api/src/trades/trade-settlement.service.ts: the swap of an accepted trade and its reversal.
use pokedrop.Base.{
  ℕ, zero, suc, Bool, true, false, List, [], ◌∷◌, ◌++◌, map, ◌==◌, if◌then◌else◌, Result, ok, err,
  Error, insufficient_funds, cards_unavailable, trade_not_reversible, ◌>>=◌,
}
use pokedrop.Base.Int.{ℤ, pos, negsuc, sub_ℕ, neg}
use pokedrop.Inventory.{UserId, CardId, InventoryMove, Inventory, apply_moves}
use pokedrop.Wallet.{Accounts, TransactionType, trade, trade_reversal, debit, credit, create_entry}
use pokedrop.Schema.Trade.{TradeId, TradeItem, TradeTerms, offered, requested}
use pokedrop.Schema.Database.{Database}

pub data Direction : Type 0 where
  settling reversing : Direction

abbrev pub move : UserId → CardId → ℤ → Bool → InventoryMove
move u c q from_lock = record { user = u; card = c; quantity = q; from_lock = from_lock }

abbrev pub item_moves : UserId → UserId → TradeItem → List InventoryMove
item_moves i r item = elim item.side [
  | offered ↦
      move i item.card (neg (pos item.quantity)) true
      ∷ move r item.card (pos item.quantity) false
      ∷ []
  | requested ↦
      move r item.card (neg (pos item.quantity)) false
      ∷ move i item.card (pos item.quantity) false
      ∷ []
]

unfoldable pub moves_of : UserId → UserId → List TradeItem → List InventoryMove
moves_of i r [] = []
moves_of i r (item ∷ items) = item_moves i r item ++ moves_of i r items

unfoldable pub card_moves : TradeTerms → List InventoryMove
card_moves t = moves_of t.initiator t.recipient t.items

abbrev pub reverse_move : InventoryMove → InventoryMove
reverse_move m = move m.user m.card (neg m.quantity) false

unfoldable pub reverse_moves : TradeTerms → List InventoryMove
reverse_moves t = map reverse_move (card_moves t)

abbrev pub debit_error : Direction → Error
debit_error settling = insufficient_funds
debit_error reversing = trade_not_reversible

abbrev pub entry_type : Direction → TransactionType
entry_type settling = trade
entry_type reversing = trade_reversal

-- The payment of `moveCoins` and its two ledger rows.
unfoldable pub pay : TradeId → Direction → UserId → UserId → ℕ → Accounts → Result Accounts
pay id direction payer payee amount a = do
  debited ← debit payer amount (debit_error direction) a
  paid ←
      create_entry
        (record { user = payer; amount = neg (pos amount); type = entry_type direction; ref = id })
        (credit payee amount debited)
  create_entry (record { user = payee; amount = pos amount; type = entry_type direction; ref = id })
      paid

-- `[payer, payee]` of the direction, from the payer of the settlement.
unfoldable pub pay_from : TradeId → TradeTerms → Direction → UserId → ℕ → Accounts → Result Accounts
pay_from id t direction settled_payer amount a =
    let settled_payee = if settled_payer == t.initiator then t.recipient else t.initiator in
    elim direction [
      | settling ↦ pay id settling settled_payer settled_payee amount a
      | reversing ↦ pay id reversing settled_payee settled_payer amount a
    ]

unfoldable pub move_net : TradeId → TradeTerms → Direction → ℤ → Accounts → Result Accounts
move_net id t direction (pos zero) a = ok a
move_net id t direction (pos (suc n)) a = pay_from id t direction t.recipient (suc n) a
move_net id t direction (negsuc n) a = pay_from id t direction t.initiator (suc n) a

unfoldable pub move_coins : TradeId → TradeTerms → Direction → Accounts → Result Accounts
move_coins id t direction a =
    move_net id t direction (sub_ℕ t.currency_from_recipient t.currency_from_initiator) a

unfoldable pub settle : TradeId → TradeTerms → Database → Result Database
settle id t db = do
  accounts ← move_coins id t settling db.accounts
  inventory ← apply_moves (card_moves t) db.inventory
  ok (record db { accounts = accounts; inventory = inventory })

-- The `catch` of `reverse`.
abbrev pub as_irreversible : Result Inventory → Result Inventory
as_irreversible (err cards_unavailable) = err trade_not_reversible
as_irreversible r = r

unfoldable pub reverse : TradeId → TradeTerms → Database → Result Database
reverse id t db = do
  accounts ← move_coins id t reversing db.accounts
  inventory ← as_irreversible (apply_moves (reverse_moves t) db.inventory)
  ok (record db { accounts = accounts; inventory = inventory })
