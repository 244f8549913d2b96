-- ===== src/Inventory/Normal.antt =====
-- Which changes `normalizeChanges` admits: positive quantities, and no card twice.
use pokedrop.Base.{
  ℕ, ◌≤◌, ◌<◌, ◌≡◌, ◌≢◌, refl, true, false, List, [], ◌∷◌, ◌==◌, if◌then◌else◌, sum_of, sort_by,
  All, ok, contains, arith, >>=-eq-ok, ok-injective, subst, sym, ap, ◌∙◌, sum_of-sort_by,
}
use pokedrop.Inventory.{
  UserId, CardId, QuantityChange, Inventory, quantity_of, locked_of, check_changes, change_le,
  normalize_changes, lock, release,
}
use pokedrop.Base.Sorting.{IsSorted, sort_by-IsSorted}
use pokedrop.Inventory.Locking.{asked, lock_at, release_at}
use pokedrop.Inventory.Progress.{IsNormal, release-total, normalize_changes-ok}

-- How many of the changes name the card.
abbrev pub times : CardId → List QuantityChange → ℕ
times c = sum_of (λ x. if x.card == c then 1 else 0)

abbrev pub IsSparse : List QuantityChange → Type 0
IsSparse xs = All (λ x. 0 < x.quantity) xs × ((c : CardId) → times c xs ≤ 1)

absent : (c : CardId) (xs : List QuantityChange) → times c xs ≡ 0 → All (λ y. c ≢ y.card) xs
absent c [] e = tt
absent c (x ∷ xs) e = (ground arith, absent c xs (ground arith))

present : (c : CardId) (xs : List QuantityChange) → All (λ y. c ≢ y.card) xs → times c xs ≡ 0
present c [] h = refl
present c (x ∷ xs) h = ground (arith, h.0, present c xs h.1)

pub IsSparse-IsNormal : (xs : List QuantityChange) → IsSparse xs → IsNormal xs
IsSparse-IsNormal [] h = tt
IsSparse-IsNormal (x ∷ xs) h = (
  h.0.0,
  absent x.card xs (ground (arith, h.1 x.card)),
  IsSparse-IsNormal xs (h.0.1, λ c. ground (arith, h.1 c)),
)

pub IsNormal-IsSparse : (xs : List QuantityChange) → IsNormal xs → IsSparse xs
IsNormal-IsSparse [] h = (tt, λ c. omega arith)
IsNormal-IsSparse (x ∷ xs) h =
    let (positive, once) = IsNormal-IsSparse xs h.2 in
    ((h.0, positive), λ c. ground (arith, once c, present x.card xs h.1))

check_changes-IsNormal :
    (seen : List CardId) (xs : List QuantityChange)
    → check_changes seen xs ≡ ok tt
    → IsNormal xs × All (λ x. contains x.card seen ≡ false) xs
unfolding check_changes
check_changes-IsNormal seen [] e = (tt, tt)
check_changes-IsNormal seen (x ∷ xs) e =
    let (normal, fresh) = check_changes-IsNormal (x.card ∷ seen) xs (ground arith) in
    (
      (ground arith, differs x.card seen xs fresh, normal),
      (ground arith, rest x.card seen xs fresh),
    )
  where
    differs :
        (c : CardId) (seen : List CardId) (ys : List QuantityChange)
        → All (λ y. contains y.card (c ∷ seen) ≡ false) ys
        → All (λ y. c ≢ y.card) ys
    differs c seen [] h = tt
    differs c seen (y ∷ ys) h = (ground (arith, h.0), differs c seen ys h.1)

    rest :
        (c : CardId) (seen : List CardId) (ys : List QuantityChange)
        → All (λ y. contains y.card (c ∷ seen) ≡ false) ys
        → All (λ y. contains y.card seen ≡ false) ys
    rest c seen [] h = tt
    rest c seen (y ∷ ys) h = (ground (arith, h.0), rest c seen ys h.1)

change_le_total : (a b : QuantityChange) → change_le a b ≡ false → change_le b a ≡ true
unfolding change_le
change_le_total a b h = ground arith

change_le_trans :
    (a b c : QuantityChange) → change_le a b ≡ true → change_le b c ≡ true → change_le a c ≡ true
unfolding change_le
change_le_trans a b c h k = ground arith

-- Every card stands before those above it.
abbrev pub IsByCard : List QuantityChange → Type 0
IsByCard [] = Unit
IsByCard (x ∷ xs) = All (λ y. x.card ≤ y.card) xs × IsByCard xs

sorted-IsByCard : (xs : List QuantityChange) → IsSorted change_le xs → IsByCard xs
unfolding change_le
sorted-IsByCard [] h = tt
sorted-IsByCard (x ∷ xs) h = (go xs h.0, sorted-IsByCard xs h.1)
  where
    go :
        (ys : List QuantityChange)
        → All (λ y. change_le x y ≡ true) ys
        → All (λ y. x.card ≤ y.card) ys
    go [] k = tt
    go (y ∷ ys) k = (ground (arith, k.0), go ys k.1)

normalized :
    (xs : List QuantityChange) {ys : List QuantityChange}
    → normalize_changes xs ≡ ok ys
    → IsNormal xs × (sort_by change_le xs ≡ ys)
unfolding normalize_changes
normalized xs e =
    let (_, checked, last) = >>=-eq-ok (check_changes [] xs) _ e in
    ((check_changes-IsNormal [] xs checked).0, ok-injective last)

-- NormalizeChanges succeeds exactly on positive quantities with no card twice, and answers them
-- in the order of their cards, the lowest first, with the same quantity of each card.
pub normalize_changes_lem :
    (xs : List QuantityChange)
    → (IsNormal xs → (ys : List QuantityChange) × (normalize_changes xs ≡ ok ys))
      × ((ys : List QuantityChange)
          → normalize_changes xs ≡ ok ys
          → IsNormal xs × IsByCard ys × ((c : CardId) → asked c ys ≡ asked c xs))
normalize_changes_lem xs = (
  (λ n. (sort_by change_le xs, normalize_changes-ok xs n)),
  λ ys e.
      let (normal, sorted) = normalized xs e in
      (
        normal,
        sorted-IsByCard ys (
            subst (IsSorted change_le) sorted
              (sort_by-IsSorted change_le change_le_total change_le_trans xs)),
        λ c.
            ap (asked c) (sym sorted)
            ∙ sum_of-sort_by (λ x. if x.card == c then x.quantity else 0) change_le xs,
      ),
)

-- What was locked was normal.
pub lock-IsNormal :
    (user : UserId) (xs : List QuantityChange) (inv : Inventory) {inv' : Inventory}
    → lock user xs inv ≡ ok inv'
    → IsNormal xs
unfolding lock
lock-IsNormal user xs inv e =
    let (ys, normal, _) = >>=-eq-ok (normalize_changes xs) _ e in (normalized xs normal).0

-- What was locked can be released, and every row then holds and locks what it did before.
pub release_undoes_lock :
    (user : UserId) (xs : List QuantityChange) (inv locked : Inventory)
    → lock user xs inv ≡ ok locked
    → (released : Inventory) × (release user xs locked ≡ ok released)
      × ((u : UserId) (c : CardId)
          → (quantity_of (released u c) ≡ quantity_of (inv u c))
            × (locked_of (released u c) ≡ locked_of (inv u c)))
release_undoes_lock user xs inv locked e =
    let (released, e') =
      release-total user xs locked (lock-IsNormal user xs inv e)
        (λ c. ground (arith, lock_at user xs inv user c e)) in
    (
      released,
      e',
      λ u c. ground (arith, lock_at user xs inv u c e, release_at user xs locked u c e'),
    )
