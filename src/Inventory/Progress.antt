-- ===== src/Inventory/Progress.antt =====
-- When the inventory operations succeed: what a caller has to check beforehand.
use pokedrop.Base.{
  ℕ, zero, suc, ◌+◌, ◌-◌, ◌≤◌, ◌<◌, ◌≡◌, ◌≢◌, refl, Bool, true, false, Option, none, some, List, [],
  ◌∷◌, ◌==◌, if◌then◌else◌, sum_of-sort_by, sort_by, All, All-sort_by, ok, arith, contains,
}
use pokedrop.Base.Int.{ℤ, pos, negsuc, pos_part, neg_part}
use pokedrop.Inventory.{
  UserId, CardId, Holding, QuantityChange, InventoryMove, Inventory, put, put_lem, quantity_of,
  locked_of, check_changes, change_le, normalize_changes, release_row, release_all, release,
  receive_row, give_row, move_row, move_all, is_at, sweep, check_moves, move_le, apply_moves,
}
use pokedrop.Inventory.Locking.{asked}
use pokedrop.Inventory.Moves.{given, unlocked, move_row-ok}

-- Positive quantities, and no card twice: what the shared schema holds every list of lines to.
abbrev pub IsNormal : List QuantityChange → Type 0
IsNormal [] = Unit
IsNormal (x ∷ xs) = (0 < x.quantity) × All (λ y. x.card ≢ y.card) xs × IsNormal xs

-- No change names a card of `seen`.
abbrev Avoids : List CardId → List QuantityChange → Type 0
Avoids seen = All (λ x. contains x.card seen ≡ false)

Avoids-cons :
    (c : CardId) (seen : List CardId) (xs : List QuantityChange)
    → All (λ y. c ≢ y.card) xs
    → Avoids seen xs
    → Avoids (c ∷ seen) xs
Avoids-cons c seen [] h a = tt
Avoids-cons c seen (x ∷ xs) h a = (ground (arith, h.0), Avoids-cons c seen xs h.1 a.1)

check_changes-ok :
    (seen : List CardId) (xs : List QuantityChange)
    → IsNormal xs
    → Avoids seen xs
    → check_changes seen xs ≡ ok tt
unfolding check_changes
check_changes-ok seen [] n a = refl
check_changes-ok seen (x ∷ xs) n a =
    ground (
      arith,
      n.0,
      a.0,
      check_changes-ok (x.card ∷ seen) xs n.2 (Avoids-cons x.card seen xs n.1 a.1),
    )

Avoids-nil : (xs : List QuantityChange) → Avoids [] xs
Avoids-nil [] = tt
Avoids-nil (x ∷ xs) = (refl, Avoids-nil xs)

pub normalize_changes-ok :
    (xs : List QuantityChange) → IsNormal xs → normalize_changes xs ≡ ok (sort_by change_le xs)
unfolding normalize_changes
normalize_changes-ok xs n = rw (check_changes-ok [] xs n (Avoids-nil xs))

IsNormal-positive : (xs : List QuantityChange) → IsNormal xs → All (λ x. 0 < x.quantity) xs
IsNormal-positive [] n = tt
IsNormal-positive (x ∷ xs) n = (n.0, IsNormal-positive xs n.2)

release_row-total :
    (n : ℕ) (row : Option Holding)
    → 0 < n
    → n ≤ locked_of row
    → (h : Holding) × (release_row n row ≡ ok h) × (h.locked_quantity + n ≡ locked_of row)
unfolding release_row
release_row-total n none p e = absurd (omega arith)
release_row-total n (some h) p e =
    (record h { locked_quantity = h.locked_quantity - n }, ground arith, omega arith)

release_all-total :
    (u : UserId) (xs : List QuantityChange) (inv : Inventory)
    → All (λ x. 0 < x.quantity) xs
    → ((c : CardId) → asked c xs ≤ locked_of (inv u c))
    → (inv' : Inventory) × (release_all u xs inv ≡ ok inv')
unfolding release_all
release_all-total u [] inv p h = (inv, refl)
release_all-total u (x ∷ xs) inv p h =
    let (row, e, left) =
      release_row-total x.quantity (inv u x.card) p.0 (ground (arith, h x.card)) in
    rw e (
      release_all-total u xs (put u x.card (some row) inv) p.1
        (λ c. ground (arith, h c, left, put_lem u x.card (some row) inv u c)))

give_row-total :
    (n : ℕ) (from_lock : Bool) (row : Option Holding)
    → 0 < n
    → (if from_lock then n else 0) ≤ locked_of row
    → locked_of row + n ≤ quantity_of row + (if from_lock then n else 0)
    → (h : Holding) × (give_row n from_lock row ≡ ok h)
unfolding give_row
give_row-total n true none p a b = absurd (omega arith)
give_row-total n false none p a b = absurd (omega arith)
give_row-total n true (some h) p a b =
    (record { quantity = h.quantity - n; locked_quantity = h.locked_quantity - n }, ground arith)
give_row-total n false (some h) p a b = (record h { quantity = h.quantity - n }, ground arith)

-- Changes that name each card once, for copies that are all locked, are released.
pub release-total :
    (u : UserId) (xs : List QuantityChange) (inv : Inventory)
    → IsNormal xs
    → ((c : CardId) → asked c xs ≤ locked_of (inv u c))
    → (inv' : Inventory) × (release u xs inv ≡ ok inv')
unfolding release
release-total u xs inv n h = rw (normalize_changes-ok xs n) (
    release_all-total u (sort_by change_le xs) inv
      (All-sort_by (λ x. 0 < x.quantity) change_le xs (IsNormal-positive xs n))
      (λ c.
        omega
          (arith, h c, sum_of-sort_by (λ x. if x.card == c then x.quantity else 0) change_le xs)))

abbrev IsNonzero : InventoryMove → Type 0
IsNonzero m = 0 < pos_part m.quantity + neg_part m.quantity

move_row-total :
    (q : ℤ) (from_lock : Bool) (row : Option Holding)
    → 0 < pos_part q + neg_part q
    → (if from_lock then neg_part q else 0) ≤ locked_of row
    → locked_of row + neg_part q ≤ quantity_of row + (if from_lock then neg_part q else 0)
    → (h : Holding) × (move_row q from_lock row ≡ ok h)
unfolding move_row
move_row-total (pos zero) from_lock row p a b = absurd (omega arith)
move_row-total (pos (suc n)) from_lock row p a b = (receive_row (suc n) row, refl)
move_row-total (negsuc n) from_lock row p a b =
    give_row-total (suc n) from_lock row (omega arith) a b

-- The row of a user and a card can pay for all its moves.
abbrev pub Affords : List InventoryMove → Inventory → UserId → CardId → Type 0
Affords ms inv u c =
    (unlocked u c ms ≤ locked_of (inv u c))
    × (locked_of (inv u c) + given u c ms ≤ quantity_of (inv u c) + unlocked u c ms)

unlocked-le-given :
    (u : UserId) (c : CardId) (ms : List InventoryMove) → unlocked u c ms ≤ given u c ms
unlocked-le-given u c [] = omega arith
unlocked-le-given u c (m ∷ ms) = ground (arith, unlocked-le-given u c ms)

move_all-total :
    (ms : List InventoryMove) (inv : Inventory)
    → All IsNonzero ms
    → ((u : UserId) (c : CardId) → Affords ms inv u c)
    → (inv' : Inventory) × (move_all ms inv ≡ ok inv')
unfolding move_all
move_all-total [] inv p h = (inv, refl)
move_all-total (m ∷ ms) inv p h =
    let (row, e) =
      move_row-total m.quantity m.from_lock (inv m.user m.card) p.0
        (ground (arith, h m.user m.card))
        (ground (arith, h m.user m.card, unlocked-le-given m.user m.card ms)) in
    rw e (
      move_all-total ms (put m.user m.card (some row) inv) p.1 (λ u c. ground (
        arith,
        h u c,
        move_row-ok m.quantity m.from_lock (inv m.user m.card) e,
        put_lem m.user m.card (some row) inv u c,
      )))

check_moves-IsNonzero :
    (seen ms : List InventoryMove) → check_moves seen ms ≡ ok tt → All IsNonzero ms
unfolding check_moves
check_moves-IsNonzero seen [] e = tt
check_moves-IsNonzero seen (m ∷ ms) e =
    (ground arith, check_moves-IsNonzero (m ∷ seen) ms (ground arith))

-- Moves that pass the opening check and that every row can pay for are applied.
pub apply_moves-total :
    (ms : List InventoryMove) (inv : Inventory)
    → check_moves [] ms ≡ ok tt
    → ((u : UserId) (c : CardId) → Affords ms inv u c)
    → (inv' : Inventory) × (apply_moves ms inv ≡ ok inv')
unfolding apply_moves
apply_moves-total ms inv k h =
    let sorted = sort_by move_le ms in
    let (moved, e) =
      move_all-total sorted inv (All-sort_by IsNonzero move_le ms (check_moves-IsNonzero [] ms k))
        (λ u c. omega (
          arith,
          h u c,
          sum_of-sort_by (λ m. if is_at u c m then neg_part m.quantity else 0) move_le ms,
          sum_of-sort_by
              (λ m. if is_at u c m then (if m.from_lock then neg_part m.quantity else 0) else 0)
              move_le ms,
        )) in
    (sweep sorted moved, rw (k, e))
