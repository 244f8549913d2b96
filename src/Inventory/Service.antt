-- ===== src/Inventory/Service.antt =====
-- apps/api/src/inventory/inventory.service.ts: `lock`, `release` and `applyMoves`. Each runs inside
-- the caller's transaction, so a step that throws leaves nothing behind.
use pokedrop.Base.{
  ℕ, zero, suc, ◌+◌, ◌-◌, Bool, true, false, ◌&&◌, ◌||◌, Option, none, some, List, [], ◌∷◌, ◌==◌,
  ltb, leb, if◌then◌else◌, some_of, sort_by, Result, ok, err, bad_quantity, repeated_card,
  cards_unavailable, escrow_broken, check_violation, ◌>>=◌, ◌>>◌,
}
use pokedrop.Base.Int.{ℤ, pos, negsuc}
use pokedrop.Inventory.Model.{
  UserId, CardId, Holding, QuantityChange, InventoryMove, Inventory, put, normalize_changes,
}

-- The conditional UPDATE of `lock`: it needs `quantity - lockedQuantity >= n`.
unfoldable pub lock_row : ℕ → Option Holding → Result Holding
lock_row n none = err cards_unavailable
lock_row n (some h) =
    if leb (h.locked_quantity + n) h.quantity
    then ok (record h { locked_quantity = h.locked_quantity + n })
    else err cards_unavailable

unfoldable pub lock_all : UserId → List QuantityChange → Inventory → Result Inventory
lock_all u [] inv = ok inv
lock_all u (x ∷ xs) inv = do
  row ← lock_row x.quantity (inv u x.card)
  lock_all u xs (put u x.card (some row) inv)

unfoldable pub lock : UserId → List QuantityChange → Inventory → Result Inventory
lock u changes inv = do sorted ← normalize_changes changes; lock_all u sorted inv

unfoldable pub release_row : ℕ → Option Holding → Result Holding
release_row n none = err escrow_broken
release_row n (some h) =
    if leb n h.locked_quantity
    then ok (record h { locked_quantity = h.locked_quantity - n })
    else err escrow_broken

unfoldable pub release_all : UserId → List QuantityChange → Inventory → Result Inventory
release_all u [] inv = ok inv
release_all u (x ∷ xs) inv = do
  row ← release_row x.quantity (inv u x.card)
  release_all u xs (put u x.card (some row) inv)

unfoldable pub release : UserId → List QuantityChange → Inventory → Result Inventory
release u changes inv = do sorted ← normalize_changes changes; release_all u sorted inv

-- The upsert of a receiving move, at a user and a card that exist: the transactions that call it
-- test that before (`create_trade` and `write`), so its FOREIGN KEYs are left to them.
unfoldable pub receive_row : ℕ → Option Holding → Holding
receive_row n none = record { quantity = n; locked_quantity = 0 }
receive_row n (some h) = record h { quantity = h.quantity + n }

-- The two conditional UPDATEs of a giving move. The first names no bound on `quantity`: a row whose
-- quantity would fall below zero is refused by the CHECK constraint.
unfoldable pub give_row : ℕ → Bool → Option Holding → Result Holding
give_row n from_lock none = err cards_unavailable
give_row n true (some h) =
    if leb n h.locked_quantity
    then (if leb n h.quantity
        then ok (record { quantity = h.quantity - n; locked_quantity = h.locked_quantity - n })
        else err check_violation)
    else err cards_unavailable
give_row n false (some h) =
    if leb (h.locked_quantity + n) h.quantity
    then ok (record h { quantity = h.quantity - n })
    else err cards_unavailable

unfoldable pub move_row : ℤ → Bool → Option Holding → Result Holding
move_row (pos (suc n)) from_lock row = ok (receive_row (suc n) row)
move_row (pos zero) from_lock row = give_row 0 from_lock row
move_row (negsuc n) from_lock row = give_row (suc n) from_lock row

unfoldable pub move_all : List InventoryMove → Inventory → Result Inventory
move_all [] inv = ok inv
move_all (m ∷ ms) inv = do
  row ← move_row m.quantity m.from_lock (inv m.user m.card)
  move_all ms (put m.user m.card (some row) inv)

abbrev pub gives : InventoryMove → Bool
gives m = elim m.quantity [ pos n ↦ n == 0 | negsuc n ↦ true ]

abbrev pub is_at : UserId → CardId → InventoryMove → Bool
is_at u c m = m.user == u && m.card == c

-- The closing DELETE: emptied rows among the givers'.
unfoldable pub sweep_row : Bool → Option Holding → Option Holding
sweep_row gave none = none
sweep_row gave (some h) =
    if gave && (h.quantity == 0 && h.locked_quantity == 0) then none else some h

unfoldable pub sweep : List InventoryMove → Inventory → Inventory
sweep ms inv u c = sweep_row (some_of (λ m. is_at u c m && gives m) ms) (inv u c)

-- The opening loop of `applyMoves` over `seen`.
unfoldable pub check_moves : List InventoryMove → List InventoryMove → Result (Unit {0})
check_moves seen [] = ok tt
check_moves seen (m ∷ ms) =
    let rest = check_moves (m ∷ seen) ms in
    elim m.quantity [
      | pos zero ↦ err bad_quantity
      | _ ↦ if some_of (is_at m.user m.card) seen then err repeated_card else rest
    ]

-- `compare(a.userId, b.userId) || compare(a.cardId, b.cardId)` is not positive.
unfoldable pub move_le : InventoryMove → InventoryMove → Bool
move_le a b = ltb a.user b.user || (a.user == b.user && leb a.card b.card)

unfoldable pub apply_moves : List InventoryMove → Inventory → Result Inventory
apply_moves moves inv = do
  check_moves [] moves
  let sorted = sort_by move_le moves
  moved ← move_all sorted inv
  ok (sweep sorted moved)
