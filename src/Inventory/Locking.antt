-- ===== src/Inventory/Locking.antt =====
-- What `lock` and `release` do to every row: they move the locked quantity of the named cards and
-- nothing else.
use pokedrop.Base.{
  ℕ, ◌+◌, ◌≤◌, ◌≡◌, Option, none, some, List, [], ◌∷◌, ◌==◌, if◌then◌else◌, sum_of, sum_of-sort_by,
  sort_by, ok, >>=-eq-ok, arith,
}
use pokedrop.Inventory.{
  UserId, CardId, Holding, QuantityChange, Inventory, put, quantity_of, locked_of, check_changes,
  put_lem, change_le, normalize_changes, lock_row, lock_all, lock, release_row, release_all,
  release,
}

-- How many copies of a card the changes name.
abbrev pub asked : CardId → List QuantityChange → ℕ
asked c = sum_of (λ x. if x.card == c then x.quantity else 0)

-- The same at the row of a user and a card.
abbrev pub asked_at : UserId → List QuantityChange → UserId → CardId → ℕ
asked_at u changes u' c = if u == u' then asked c changes else 0

normalize_changes-asked :
    (changes : List QuantityChange) {sorted : List QuantityChange} (c : CardId)
    → normalize_changes changes ≡ ok sorted
    → asked c sorted ≡ asked c changes
unfolding normalize_changes
normalize_changes-asked changes c e =
    let (_, _, s) = >>=-eq-ok (check_changes [] changes) (λ _. ok (sort_by change_le changes)) e in
    ground (arith, s, sum_of-sort_by (λ x. if x.card == c then x.quantity else 0) change_le changes)

lock_row-ok :
    (n : ℕ) (row : Option Holding) {h : Holding}
    → lock_row n row ≡ ok h
    → (h.quantity ≡ quantity_of row)
      × (h.locked_quantity ≡ locked_of row + n)
      × (h.locked_quantity ≤ h.quantity)
unfolding lock_row
lock_row-ok n none e = cc
lock_row-ok n (some h) e = ground arith

pub release_row-ok :
    (n : ℕ) (row : Option Holding) {h : Holding}
    → release_row n row ≡ ok h
    → (h.quantity ≡ quantity_of row) × (h.locked_quantity + n ≡ locked_of row)
unfolding release_row
release_row-ok n none e = cc
release_row-ok n (some h) e = ground arith

lock_all_at :
    (u : UserId) (changes : List QuantityChange) (inv : Inventory) {inv' : Inventory} (u' : UserId)
    (c : CardId)
    → lock_all u changes inv ≡ ok inv'
    → (quantity_of (inv' u' c) ≡ quantity_of (inv u' c))
      × (locked_of (inv' u' c) ≡ locked_of (inv u' c) + asked_at u changes u' c)
      × (locked_of (inv u' c) ≤ quantity_of (inv u' c)
          → locked_of (inv' u' c) ≤ quantity_of (inv' u' c))
unfolding lock_all
lock_all_at u [] inv u' c e = ground arith
lock_all_at u (x ∷ xs) inv u' c e =
    let (h, row, rest) = >>=-eq-ok (lock_row x.quantity (inv u x.card)) _ e in
    ground (
      arith,
      lock_row-ok x.quantity (inv u x.card) row,
      put_lem u x.card (some h) inv u' c,
      lock_all_at u xs (put u x.card (some h) inv) u' c rest,
    )

release_all_at :
    (u : UserId) (changes : List QuantityChange) (inv : Inventory) {inv' : Inventory} (u' : UserId)
    (c : CardId)
    → release_all u changes inv ≡ ok inv'
    → (quantity_of (inv' u' c) ≡ quantity_of (inv u' c))
      × (locked_of (inv' u' c) + asked_at u changes u' c ≡ locked_of (inv u' c))
unfolding release_all
release_all_at u [] inv u' c e = ground arith
release_all_at u (x ∷ xs) inv u' c e =
    let (h, row, rest) = >>=-eq-ok (release_row x.quantity (inv u x.card)) _ e in
    ground (
      arith,
      release_row-ok x.quantity (inv u x.card) row,
      put_lem u x.card (some h) inv u' c,
      release_all_at u xs (put u x.card (some h) inv) u' c rest,
    )

-- A lock that succeeds changes no quantity, locks what the changes name for the user, and keeps
-- `lockedQuantity` within `quantity`.
pub lock_at :
    (u : UserId) (changes : List QuantityChange) (inv : Inventory) {inv' : Inventory} (u' : UserId)
    (c : CardId)
    → lock u changes inv ≡ ok inv'
    → (quantity_of (inv' u' c) ≡ quantity_of (inv u' c))
      × (locked_of (inv' u' c) ≡ locked_of (inv u' c) + asked_at u changes u' c)
      × (locked_of (inv u' c) ≤ quantity_of (inv u' c)
          → locked_of (inv' u' c) ≤ quantity_of (inv' u' c))
unfolding lock
lock_at u changes inv u' c e =
    let (sorted, n, rest) = >>=-eq-ok (normalize_changes changes) (λ s. lock_all u s inv) e in
    ground (arith, normalize_changes-asked changes c n, lock_all_at u sorted inv u' c rest)

-- A release that succeeds changes no quantity and returns what the changes name.
pub release_at :
    (u : UserId) (changes : List QuantityChange) (inv : Inventory) {inv' : Inventory} (u' : UserId)
    (c : CardId)
    → release u changes inv ≡ ok inv'
    → (quantity_of (inv' u' c) ≡ quantity_of (inv u' c))
      × (locked_of (inv' u' c) + asked_at u changes u' c ≡ locked_of (inv u' c))
unfolding release
release_at u changes inv u' c e =
    let (sorted, n, rest) = >>=-eq-ok (normalize_changes changes) (λ s. release_all u s inv) e in
    ground (arith, normalize_changes-asked changes c n, release_all_at u sorted inv u' c rest)
