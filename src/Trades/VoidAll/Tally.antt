-- ===== src/Trades/VoidAll/Tally.antt =====
-- The nested map that `voidAllPendingOf` fills: each initiator and each card stands in it once, and
-- it counts what the voided trades offer.
use pokedrop.Base.{
  ℕ, ◌+◌, ◌≡◌, refl, ◌&&◌, none, some, List, [], ◌∷◌, ◌==◌, if◌then◌else◌, sum_of, arith,
}
use pokedrop.Base.Dict.{Dict, lookup, insert, lookup-insert}
use pokedrop.Inventory.{UserId, CardId}
use pokedrop.Inventory.Locking.{asked}
use pokedrop.Schema.Trade.{TradeItem, TradeRow, is_offered}
use pokedrop.Trades.VoidAll.{
  Locks, get_locks, get_count, add_lock, add_items, tally_locks, changes_of, keys_of,
}
use pokedrop.Trades.Promises.{offered_of}

-- Each key stands once.
abbrev pub IsUnique {ℓ} : {A : Type ℓ} → Dict A → Type ℓ
IsUnique [] = Unit
IsUnique ((k, v) ∷ d) = (lookup k d ≡ none) × IsUnique d

insert-IsUnique {ℓ} :
    {A : Type ℓ} (k : ℕ) (v : A) (d : Dict A) → IsUnique d → IsUnique (insert k v d)
unfolding insert lookup
insert-IsUnique k v [] h = (refl, tt)
insert-IsUnique k v ((j, w) ∷ d) h =
    ground (arith, lookup-insert k j v d, insert-IsUnique k v d h.1)

-- The same for the outer map, with every inner map well keyed too.
abbrev pub IsTally : Locks → Type 0
IsTally [] = Unit
IsTally ((u, cards) ∷ locks) = (lookup u locks ≡ none) × IsUnique cards × IsTally locks

insert-IsTally :
    (u : UserId) (cards : Dict ℕ) (locks : Locks)
    → IsUnique cards
    → IsTally locks
    → IsTally (insert u cards locks)
unfolding insert lookup
insert-IsTally u cards [] c h = (refl, c, tt)
insert-IsTally u cards ((v, w) ∷ locks) c h =
    ground (arith, lookup-insert u v cards locks, insert-IsTally u cards locks c h.2)

pub get_locks-IsUnique : (u : UserId) (locks : Locks) → IsTally locks → IsUnique (get_locks u locks)
unfolding lookup
get_locks-IsUnique u [] h = tt
get_locks-IsUnique u ((v, cards) ∷ locks) h = ground (arith, get_locks-IsUnique u locks h.2)

add_lock-IsTally :
    (u : UserId) (c : CardId) (n : ℕ) (locks : Locks)
    → IsTally locks
    → IsTally (add_lock u c n locks)
unfolding add_lock
add_lock-IsTally u c n locks h =
    insert-IsTally u _ locks
      (insert-IsUnique c _ (get_locks u locks) (get_locks-IsUnique u locks h)) h

add_items-IsTally :
    (u : UserId) (items : List TradeItem) (locks : Locks)
    → IsTally locks
    → IsTally (add_items u items locks)
unfolding add_items
add_items-IsTally u [] locks h = h
add_items-IsTally u (i ∷ items) locks h =
    add_items-IsTally u items _ (ground (arith, add_lock-IsTally u i.card i.quantity locks h))

pub tally_locks-IsTally :
    (rows : Dict TradeRow) (locks : Locks) → IsTally locks → IsTally (tally_locks rows locks)
unfolding tally_locks
tally_locks-IsTally [] locks h = h
tally_locks-IsTally ((id, row) ∷ rows) locks h =
    tally_locks-IsTally rows _ (add_items-IsTally row.initiator row.items locks h)

abbrev pub count_at : UserId → CardId → Locks → ℕ
count_at u c locks = get_count c (get_locks u locks)

add_lock_at :
    (v : UserId) (d : CardId) (n : ℕ) (locks : Locks) (u : UserId) (c : CardId)
    → count_at u c (add_lock v d n locks) ≡ count_at u c locks + (if v == u && d == c then n else 0)
unfolding add_lock
add_lock_at v d n locks u c = ground (
  arith,
  lookup-insert v u (insert d (get_count d (get_locks v locks) + n) (get_locks v locks)) locks,
  lookup-insert d c (get_count d (get_locks v locks) + n) (get_locks v locks),
)

add_items_at :
    (v : UserId) (items : List TradeItem) (locks : Locks) (u : UserId) (c : CardId)
    → count_at u c (add_items v items locks)
      ≡ count_at u c locks + (if v == u then offered_of c items else 0)
unfolding add_items
add_items_at v [] locks u c = ground arith
add_items_at v (i ∷ items) locks u c = ground (
  arith,
  add_items_at v items (if is_offered i then add_lock v i.card i.quantity locks else locks) u c,
  add_lock_at v i.card i.quantity locks u c,
)

-- What the rows of a table offer of a user's card, whatever their status.
abbrev pub offered_in : UserId → CardId → Dict TradeRow → ℕ
offered_in u c = sum_of (λ e. if (e.1).initiator == u then offered_of c (e.1).items else 0)

pub tally_locks_at :
    (rows : Dict TradeRow) (locks : Locks) (u : UserId) (c : CardId)
    → count_at u c (tally_locks rows locks) ≡ count_at u c locks + offered_in u c rows
unfolding tally_locks
tally_locks_at [] locks u c = ground arith
tally_locks_at ((id, row) ∷ rows) locks u c = ground (
  arith,
  tally_locks_at rows (add_items row.initiator row.items locks) u c,
  add_items_at row.initiator row.items locks u c,
)

pub asked-changes_of :
    (c : CardId) (cards : Dict ℕ) → IsUnique cards → asked c (changes_of cards) ≡ get_count c cards
unfolding lookup
asked-changes_of c [] h = refl
asked-changes_of c ((d, n) ∷ cards) h = ground (arith, asked-changes_of c cards h.1)

-- A sum over the keys of a well-keyed table meets each key once.
pub sum_of-keys_of {ℓ} :
    {A : Type ℓ} (u : ℕ) (n : ℕ) (d : Dict A)
    → IsUnique d
    → sum_of (λ v. if v == u then n else 0) (keys_of d)
      ≡ elim (lookup u d) [ none ↦ 0 | some _ ↦ n ]
unfolding lookup
sum_of-keys_of u n [] h = refl
sum_of-keys_of u n ((v, w) ∷ d) h = ground (arith, sum_of-keys_of u n d h.1)
