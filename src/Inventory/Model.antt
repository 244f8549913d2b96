-- ===== src/Inventory/Model.antt =====
-- The rows of `inventory_items` and what a change of them is asked for by
-- (apps/api/src/inventory/quantity.ts). A row is found by its unique key (userId, cardId), so the
-- table is a function of the two; identifiers are only compared, so they are numbers.
use pokedrop.Base.{
  ℕ, ◌-◌, ◌≤◌, ◌≡◌, refl, Bool, ◌&&◌, Option, none, some, List, [], ◌∷◌, ◌==◌, leb, if◌then◌else◌,
  contains, sort_by, Result, ok, err, bad_quantity, repeated_card, ◌>>◌,
}
use pokedrop.Base.Int.{ℤ}

abbrev pub UserId : Type 0
UserId = ℕ

abbrev pub CardId : Type 0
CardId = ℕ

pub record Holding : Type 0 where
  pub quantity : ℕ
  pub locked_quantity : ℕ

pub record QuantityChange : Type 0 where
  pub card : CardId
  pub quantity : ℕ

-- A positive quantity receives, a negative one gives; `from_lock` gives copies locked for a trade.
pub record InventoryMove : Type 0 where
  pub user : UserId
  pub card : CardId
  pub quantity : ℤ
  pub from_lock : Bool

-- The CHECK constraint keeps `lockedQuantity` within `quantity`.
unfoldable pub available_quantity : Holding → ℕ
available_quantity h = h.quantity - h.locked_quantity

abbrev pub Inventory : Type 0
Inventory = UserId → CardId → Option Holding

-- The row of one key written or, with `none`, deleted.
unfoldable pub put : UserId → CardId → Option Holding → Inventory → Inventory
put u c h inv u' c' = if u == u' && c == c' then h else inv u' c'

pub put_lem :
    (u : UserId) (c : CardId) (h : Option Holding) (inv : Inventory) (u' : UserId) (c' : CardId)
    → put u c h inv u' c' ≡ (if u == u' && c == c' then h else inv u' c')
unfolding put
put_lem u c h inv u' c' = refl

abbrev pub quantity_of : Option Holding → ℕ
quantity_of none = 0
quantity_of (some h) = h.quantity

abbrev pub locked_of : Option Holding → ℕ
locked_of none = 0
locked_of (some h) = h.locked_quantity

-- The constraint `inventory_locked_within_quantity`, at every row.
abbrev pub IsChecked : Inventory → Type 0
IsChecked inv = (u : UserId) (c : CardId) → locked_of (inv u c) ≤ quantity_of (inv u c)

unfoldable pub change_le : QuantityChange → QuantityChange → Bool
change_le a b = leb a.card b.card

-- The loop of `normalizeChanges` over `seen`. A quantity is a natural, so only 0 is refused.
unfoldable pub check_changes : List CardId → List QuantityChange → Result (Unit {0})
check_changes seen [] = ok tt
check_changes seen (x ∷ xs) =
    let rest = check_changes (x.card ∷ seen) xs in
    if x.quantity == 0
    then err bad_quantity
    else if contains x.card seen
    then err repeated_card
    else rest

unfoldable pub normalize_changes : List QuantityChange → Result (List QuantityChange)
normalize_changes changes = do check_changes [] changes; ok (sort_by change_le changes)
