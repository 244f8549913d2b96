-- ===== src/Trades/Escrow.antt =====
-- The lock invariant of docs/DataModel.md, at one row: what is locked is what the pending trades
-- promise, and no more is locked than held. Every transaction on trades keeps it.
use pokedrop.Base.{
  ℕ, ◌+◌, ◌≤◌, ◌≡◌, refl, Bool, true, false, ◌&&◌, some, List, [], ◌∷◌, map, ◌==◌, if◌then◌else◌,
  sum_of-append, ok, err, arith, Bool-cases, inl, inr, >>=-eq-ok, Result, ◌>>=◌,
}
use pokedrop.Base.Int.{neg_part}
use pokedrop.Inventory.{
  UserId, CardId, InventoryMove, Inventory, quantity_of, locked_of, is_at, apply_moves,
}
use pokedrop.Inventory.Locking.{release_at}
use pokedrop.Inventory.Moves.{unlocked, apply_moves_at}
use pokedrop.Schema.Trade.{
  TradeId, pending, accepted, voided, same_status, TradeItem, TradeTerms, TradeRow, is_offered,
  offered_changes,
}
use pokedrop.Schema.Database.{Database, TradeAction}
use pokedrop.Trades.{
  CloseOptions, close_row, release_offered, close, accept_in, void_in, item_moves, moves_of,
  card_moves, reverse_move, reverse_moves, settle, reverse, move_coins, settling, reversing,
  as_irreversible,
}
use pokedrop.Trades.Promises.{
  offered_of, asked-offered_changes, promised, IsSnapshot, promised-close_row,
}

abbrev pub EscrowAt : UserId → CardId → Database → Type 0
EscrowAt u c db =
    (locked_of (db.inventory u c) ≡ promised u c db.trades)
    × (locked_of (db.inventory u c) ≤ quantity_of (db.inventory u c))

pub EscrowAt-same :
    (db db' : Database) (u : UserId) (c : CardId)
    → db'.inventory ≡ db.inventory
    → db'.trades ≡ db.trades
    → EscrowAt u c db
    → EscrowAt u c db'
EscrowAt-same db db' u c i t h = rw (i, t) h

pub close-ok :
    (id : TradeId) (t : TradeTerms) (o : CloseOptions) (now : ℕ) (db : Database) {db' : Database}
    → close id t o now db ≡ ok db'
    → (close_row id o.from o.to now db.trades ≡ ok db'.trades)
      × (release_offered o.release t db.inventory ≡ ok db'.inventory)
      × (db'.accounts ≡ db.accounts)
unfolding close
close-ok id t o now db e = ground arith

release_offered_at :
    (b : Bool) (t : TradeTerms) (inv : Inventory) {inv' : Inventory} (u : UserId) (c : CardId)
    → release_offered b t inv ≡ ok inv'
    → (quantity_of (inv' u c) ≡ quantity_of (inv u c))
      × (locked_of (inv' u c) + (if b && t.initiator == u then offered_of c t.items else 0)
          ≡ locked_of (inv u c))
unfolding release_offered
release_offered_at true t inv u c e =
    ground (arith, release_at t.initiator (offered_changes t) inv u c e, asked-offered_changes c t)
release_offered_at false t inv u c e = ground arith

-- The options under which a trade leaves PENDING with its lock released.
abbrev pub Releases : CloseOptions → Type 0
Releases o = (o.from ≡ pending) × (same_status o.to pending ≡ false) × (o.release ≡ true)

pub close-EscrowAt :
    (id : TradeId) (t : TradeTerms) (o : CloseOptions) (now : ℕ) (db : Database) {db' : Database}
    (u : UserId) (c : CardId)
    → Releases o
    → IsSnapshot id t db.trades
    → close id t o now db ≡ ok db'
    → EscrowAt u c db
    → EscrowAt u c db'
close-EscrowAt id t o now db u c r s e h =
    let (row, rel, _) = close-ok id t o now db e in
    ground (
      arith,
      r,
      promised-close_row id t o.from o.to now db.trades u c r.1 s row,
      release_offered_at o.release t db.inventory u c rel,
    )

unlocked-item_moves :
    (i r : UserId) (item : TradeItem) (u : UserId) (c : CardId)
    → unlocked u c (item_moves i r item)
      ≡ (if i == u then (if is_offered item && item.card == c then item.quantity else 0) else 0)
unlocked-item_moves i r item u c = ground arith

pub unlocked-moves_of :
    (i r : UserId) (items : List TradeItem) (u : UserId) (c : CardId)
    → unlocked u c (moves_of i r items) ≡ (if i == u then offered_of c items else 0)
unfolding moves_of
unlocked-moves_of i r [] u c = ground arith
unlocked-moves_of i r (item ∷ items) u c = ground (
  arith,
  sum_of-append (λ m. if is_at u c m then (if m.from_lock then neg_part m.quantity else 0) else 0)
      (item_moves i r item) (moves_of i r items),
  unlocked-item_moves i r item u c,
  unlocked-moves_of i r items u c,
)

unlocked-reverse :
    (ms : List InventoryMove) (u : UserId) (c : CardId) → unlocked u c (map reverse_move ms) ≡ 0
unlocked-reverse [] u c = refl
unlocked-reverse (m ∷ ms) u c = ground (arith, unlocked-reverse ms u c)

pub settle-ok :
    (id : TradeId) (t : TradeTerms) (db : Database) {db' : Database}
    → settle id t db ≡ ok db'
    → (move_coins id t settling db.accounts ≡ ok db'.accounts)
      × (apply_moves (card_moves t) db.inventory ≡ ok db'.inventory)
      × (db'.trades ≡ db.trades)
unfolding settle
settle-ok id t db e = ground arith

as_irreversible-ok :
    (r : Result Inventory) {inv : Inventory} → as_irreversible r ≡ ok inv → r ≡ ok inv
as_irreversible-ok (ok inv) e = e
as_irreversible-ok (err e') e = ground arith

pub reverse-ok :
    (id : TradeId) (t : TradeTerms) (db : Database) {db' : Database}
    → reverse id t db ≡ ok db'
    → (move_coins id t reversing db.accounts ≡ ok db'.accounts)
      × (apply_moves (reverse_moves t) db.inventory ≡ ok db'.inventory)
      × (db'.trades ≡ db.trades)
unfolding reverse
reverse-ok id t db {db' = db'} e =
    let (a, coins, rest) = >>=-eq-ok (move_coins id t reversing db.accounts) _ e in
    let (inv, moved, last) =
      >>=-eq-ok (as_irreversible (apply_moves (reverse_moves t) db.inventory)) _ rest in
    let cards = as_irreversible-ok (apply_moves (reverse_moves t) db.inventory) moved in
    ground (arith, coins, cards, last)

-- An accepted trade consumes the lock of exactly what it offered.
pub accept-EscrowAt :
    (user : UserId) (id : TradeId) (t : TradeTerms) (now : ℕ) (db : Database) {db' : Database}
    (u : UserId) (c : CardId)
    → IsSnapshot id t db.trades
    → accept_in user id t now db ≡ ok db'
    → EscrowAt u c db
    → EscrowAt u c db'
unfolding accept_in card_moves release_offered
accept-EscrowAt user id t now db u c s e h =
    let (closed, c₁, c₂) = >>=-eq-ok (close id t _ now db) _ e in
    let (row, kept, _) = close-ok id t _ now db c₁ in
    let (_, moved, same) = settle-ok id t closed c₂ in
    ground (
      arith,
      kept,
      same,
      promised-close_row id t pending accepted now db.trades u c refl s row,
      apply_moves_at (card_moves t) closed.inventory u c moved,
      unlocked-moves_of t.initiator t.recipient t.items u c,
    )

abbrev voiding : UserId → CloseOptions
voiding admin = record {
  from = accepted;
  to = voided;
  action = TradeAction.void;
  actor = some admin;
  release = false;
}

-- A reversal takes available copies only, so no lock moves.
void_accepted-EscrowAt :
    (admin : UserId) (id : TradeId) (t : TradeTerms) (now : ℕ) (db : Database) {db' : Database}
    (u : UserId) (c : CardId)
    → IsSnapshot id t db.trades
    → (close id t (voiding admin) now db >>= reverse id t) ≡ ok db'
    → EscrowAt u c db
    → EscrowAt u c db'
unfolding reverse_moves release_offered
void_accepted-EscrowAt admin id t now db u c s e h =
    let (closed, c₁, c₂) = >>=-eq-ok (close id t (voiding admin) now db) _ e in
    let (row, kept, _) = close-ok id t (voiding admin) now db c₁ in
    let (_, moved, same) = reverse-ok id t closed c₂ in
    ground (
      arith,
      kept,
      same,
      promised-close_row id t accepted voided now db.trades u c refl s row,
      apply_moves_at (reverse_moves t) closed.inventory u c moved,
      unlocked-reverse (card_moves t) u c,
    )

pub void-EscrowAt :
    (admin : UserId) (id : TradeId) (row : TradeRow) (now : ℕ) (db : Database) {db' : Database}
    (u : UserId) (c : CardId)
    → IsSnapshot id row.terms db.trades
    → void_in admin id row now db ≡ ok db'
    → EscrowAt u c db
    → EscrowAt u c db'
unfolding void_in
void-EscrowAt admin id row now db u c s e h = elim (Bool-cases (same_status row.status accepted)) [
  | inr waiting ↦ close-EscrowAt id row.terms _ now db u c (refl, refl, refl) s (rw waiting at e) h
  | inl settled ↦ void_accepted-EscrowAt admin id row.terms now db u c s (rw settled at e) h
]
