-- ===== src/Inventory/Moves.antt =====
-- What `applyMoves` does to every row: what it holds plus what the moves give is what it held plus
-- what they receive, whatever order the moves are taken in.
use pokedrop.Base.{
  ℕ, zero, suc, Option-cases, inl, inr, ◌+◌, ◌≤◌, ◌≡◌, refl, Bool, true, false, Option, none, some,
  List, [], ◌∷◌, if◌then◌else◌, sum_of, sum_of-sort_by, sort_by, ok, >>=-eq-ok, arith,
}
use pokedrop.Base.Int.{ℤ, pos, negsuc, pos_part, neg_part}
use pokedrop.Inventory.{
  UserId, CardId, Holding, InventoryMove, Inventory, put, put_lem, quantity_of, locked_of,
  receive_row, give_row, move_row, move_all, is_at, sweep_row, sweep, check_moves, move_le,
  apply_moves,
}

-- The copies that the moves bring to a row, take from it, and take from its lock.
abbrev pub gained : UserId → CardId → List InventoryMove → ℕ
gained u c = sum_of (λ m. if is_at u c m then pos_part m.quantity else 0)

abbrev pub given : UserId → CardId → List InventoryMove → ℕ
given u c = sum_of (λ m. if is_at u c m then neg_part m.quantity else 0)

abbrev pub unlocked : UserId → CardId → List InventoryMove → ℕ
unlocked u c =
    sum_of (λ m. if is_at u c m then (if m.from_lock then neg_part m.quantity else 0) else 0)

give_row-ok :
    (n : ℕ) (from_lock : Bool) (row : Option Holding) {h : Holding}
    → give_row n from_lock row ≡ ok h
    → (h.quantity + n ≡ quantity_of row)
      × (h.locked_quantity + (if from_lock then n else 0) ≡ locked_of row)
      × (locked_of row ≤ quantity_of row → h.locked_quantity ≤ h.quantity)
unfolding give_row
give_row-ok n from_lock none e = cc
give_row-ok n true (some h) e = ground arith
give_row-ok n false (some h) e = ground arith

pub move_row-ok :
    (q : ℤ) (from_lock : Bool) (row : Option Holding) {h : Holding}
    → move_row q from_lock row ≡ ok h
    → (h.quantity + neg_part q ≡ quantity_of row + pos_part q)
      × (h.locked_quantity + (if from_lock then neg_part q else 0) ≡ locked_of row)
      × (locked_of row ≤ quantity_of row → h.locked_quantity ≤ h.quantity)
unfolding move_row receive_row
move_row-ok (pos zero) from_lock row e = ground (arith, give_row-ok 0 from_lock row e)
move_row-ok (pos (suc n)) from_lock none e = ground arith
move_row-ok (pos (suc n)) from_lock (some h) e = ground arith
move_row-ok (negsuc n) from_lock row e = ground (arith, give_row-ok (suc n) from_lock row e)

move_all_at :
    (ms : List InventoryMove) (inv : Inventory) {inv' : Inventory} (u : UserId) (c : CardId)
    → move_all ms inv ≡ ok inv'
    → (quantity_of (inv' u c) + given u c ms ≡ quantity_of (inv u c) + gained u c ms)
      × (locked_of (inv' u c) + unlocked u c ms ≡ locked_of (inv u c))
      × (locked_of (inv u c) ≤ quantity_of (inv u c)
          → locked_of (inv' u c) ≤ quantity_of (inv' u c))
unfolding move_all
move_all_at [] inv u c e = ground arith
move_all_at (m ∷ ms) inv u c e =
    let (h, row, rest) = >>=-eq-ok (move_row m.quantity m.from_lock (inv m.user m.card)) _ e in
    ground (
      arith,
      move_row-ok m.quantity m.from_lock (inv m.user m.card) row,
      put_lem m.user m.card (some h) inv u c,
      move_all_at ms (put m.user m.card (some h) inv) u c rest,
    )

sweep_at :
    (ms : List InventoryMove) (inv : Inventory) (u : UserId) (c : CardId)
    → (quantity_of (sweep ms inv u c) ≡ quantity_of (inv u c))
      × (locked_of (sweep ms inv u c) ≡ locked_of (inv u c))
unfolding sweep sweep_row
sweep_at ms inv u c = elim (Option-cases (inv u c)) [
  | inl e ↦ rw e (refl, refl)
  | inr (h, e) ↦ ground arith
]

-- Moves that are applied change every row by exactly what they name for it, in whatever order
-- they are given, and keep the locked copies within the copies held.
pub apply_moves_at :
    (ms : List InventoryMove) (inv : Inventory) {inv' : Inventory} (u : UserId) (c : CardId)
    → apply_moves ms inv ≡ ok inv'
    → (quantity_of (inv' u c) + given u c ms ≡ quantity_of (inv u c) + gained u c ms)
      × (locked_of (inv' u c) + unlocked u c ms ≡ locked_of (inv u c))
      × (locked_of (inv u c) ≤ quantity_of (inv u c)
          → locked_of (inv' u c) ≤ quantity_of (inv' u c))
unfolding apply_moves
apply_moves_at ms inv {inv' = inv'} u c e =
    let sorted = sort_by move_le ms in
    let (_, _, rest) = >>=-eq-ok (check_moves [] ms) _ e in
    let (moved, done, swept) =
      >>=-eq-ok (move_all sorted inv) (λ moved. ok (sweep sorted moved)) rest in
    ground (
      arith,
      swept,
      sweep_at sorted moved u c,
      move_all_at sorted inv u c done,
      sum_of-sort_by (λ m. if is_at u c m then pos_part m.quantity else 0) move_le ms,
      sum_of-sort_by (λ m. if is_at u c m then neg_part m.quantity else 0) move_le ms,
      sum_of-sort_by
          (λ m. if is_at u c m then (if m.from_lock then neg_part m.quantity else 0) else 0) move_le
          ms,
    )
