-- ===== src/Examples/Stock.antt =====
-- The theorems on the inventory at the stock of the small world.
use pokedrop.Base.{
  ◌+◌, ◌≤◌, ◌≡◌, refl, List, [], ◌∷◌, Result, ok, err, true, false, arith, sort_by, insert_by,
}
use pokedrop.Base.Int.{pos, negsuc}
use pokedrop.Inventory.{
  UserId, CardId, QuantityChange, InventoryMove, Inventory, quantity_of, locked_of, lock, release,
  apply_moves, check_moves, normalize_changes, check_changes, change_le, lock_all, lock_row, put,
  release_all, release_row, move_all, move_le, move_row, give_row, receive_row, sweep, sweep_row,
}
use pokedrop.Inventory.Locking.{asked}
use pokedrop.Inventory.Moves.{gained, given, unlocked, apply_moves_at}
use pokedrop.Inventory.Progress.{IsNormal, Affords}
use pokedrop.Inventory.Normal.{IsByCard, normalize_changes_lem, release_undoes_lock}
use pokedrop.Trades.Lines.{is_side-IsNormal}
use pokedrop.Schema.Trade.{is_side, is_line, set_of}
use pokedrop.Examples.World.{stock, swap}

abbrev or_stock : Result Inventory → Inventory
or_stock (ok inv) = inv
or_stock (err _) = stock

-- One of card 10 from member 1 to member 2.
abbrev gift : List InventoryMove
gift =
    record { user = 1; card = 10; quantity = negsuc 0; from_lock = false }
    ∷ record { user = 2; card = 10; quantity = pos 1; from_lock = false }
    ∷ []

abbrev locked_stock : Inventory
locked_stock = or_stock (lock 1 swap.offered stock)

abbrev moved_stock : Inventory
moved_stock = or_stock (apply_moves gift stock)

abbrev Moves : Type 0
Moves =
    (lock 1 swap.offered stock ≡ ok locked_stock)
    × (apply_moves gift stock ≡ ok moved_stock)
    × (check_moves [] gift ≡ ok tt)
    × (is_side swap.offered ≡ true)

moves : Moves
unfolding lock normalize_changes check_changes sort_by insert_by change_le lock_all lock_row put
    release release_all release_row apply_moves check_moves move_all move_le move_row give_row
    receive_row sweep sweep_row is_line set_of
moves = (refl, refl, refl, refl)

release_undoes_lock_example :
    (released : Inventory) × (release 1 swap.offered locked_stock ≡ ok released)
    × ((u : UserId) (c : CardId)
        → (quantity_of (released u c) ≡ quantity_of (stock u c))
          × (locked_of (released u c) ≡ locked_of (stock u c)))
release_undoes_lock_example = release_undoes_lock 1 swap.offered stock locked_stock moves.0

apply_moves_at_example :
    (quantity_of (moved_stock 2 10) + given 2 10 gift ≡ quantity_of (stock 2 10) + gained 2 10 gift)
    × (locked_of (moved_stock 2 10) + unlocked 2 10 gift ≡ locked_of (stock 2 10))
    × (locked_of (stock 2 10) ≤ quantity_of (stock 2 10)
        → locked_of (moved_stock 2 10) ≤ quantity_of (moved_stock 2 10))
apply_moves_at_example = apply_moves_at gift stock 2 10 moves.1

normalize_changes_lem_example :
    (IsNormal swap.offered → (ys : List QuantityChange) × (normalize_changes swap.offered ≡ ok ys))
    × ((ys : List QuantityChange)
        → normalize_changes swap.offered ≡ ok ys
        → IsNormal swap.offered × IsByCard ys × ((c : CardId) → asked c ys ≡ asked c swap.offered))
normalize_changes_lem_example = normalize_changes_lem swap.offered

is_side-IsNormal_example : IsNormal swap.offered
is_side-IsNormal_example = is_side-IsNormal swap.offered moves.3

gift_affordable : (u : UserId) (c : CardId) → Affords gift stock u c
unfolding put
gift_affordable u c = ground arith
