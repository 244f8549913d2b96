-- ===== src/Trades/Copies.antt =====
-- The copies that a settlement and its reversal move between the parties.
use pokedrop.Base.{
  ℕ, ◌+◌, ◌≡◌, refl, List, [], ◌∷◌, map, ◌==◌, if◌then◌else◌, sum_of, sum_of-append, ok, arith, not,
  ◌&&◌,
}
use pokedrop.Base.Int.{ℤ, neg, pos_part, neg_part}
use pokedrop.Inventory.{UserId, CardId, InventoryMove, Inventory, quantity_of, is_at, apply_moves}
use pokedrop.Inventory.Moves.{gained, given, apply_moves_at}
use pokedrop.Schema.Trade.{TradeItem, TradeTerms, is_offered}
use pokedrop.Trades.{item_moves, moves_of, card_moves, reverse_move, reverse_moves}
use pokedrop.Trades.Promises.{offered_of}

abbrev pub requested_of : CardId → List TradeItem → ℕ
requested_of c = sum_of (λ i. if not (is_offered i) && i.card == c then i.quantity else 0)

-- The copies of a card that a party gives away and receives by the terms.
abbrev pub copies_out : TradeTerms → UserId → CardId → ℕ
copies_out t u c =
    (if t.initiator == u then offered_of c t.items else 0)
    + (if t.recipient == u then requested_of c t.items else 0)

abbrev pub copies_in : TradeTerms → UserId → CardId → ℕ
copies_in t u c =
    (if t.initiator == u then requested_of c t.items else 0)
    + (if t.recipient == u then offered_of c t.items else 0)

pub moves_of_at :
    (i r : UserId) (items : List TradeItem) (u : UserId) (c : CardId)
    → (given u c (moves_of i r items)
        ≡ (if i == u then offered_of c items else 0) + (if r == u then requested_of c items else 0))
      × (gained u c (moves_of i r items)
          ≡ (if i == u then requested_of c items else 0)
            + (if r == u then offered_of c items else 0))
unfolding moves_of
moves_of_at i r [] u c = ground arith
moves_of_at i r (item ∷ items) u c = ground (
  arith,
  sum_of-append (λ m. if is_at u c m then neg_part m.quantity else 0) (item_moves i r item)
      (moves_of i r items),
  sum_of-append (λ m. if is_at u c m then pos_part m.quantity else 0) (item_moves i r item)
      (moves_of i r items),
  moves_of_at i r items u c,
)

neg_parts : (a : ℤ) → (pos_part (neg a) ≡ neg_part a) × (neg_part (neg a) ≡ pos_part a)
neg_parts a = ground arith

reversed_at :
    (ms : List InventoryMove) (u : UserId) (c : CardId)
    → (given u c (map reverse_move ms) ≡ gained u c ms)
      × (gained u c (map reverse_move ms) ≡ given u c ms)
reversed_at [] u c = (refl, refl)
reversed_at (m ∷ ms) u c = ground (arith, neg_parts m.quantity, reversed_at ms u c)

pub settled_copies :
    (t : TradeTerms) (inv : Inventory) {inv' : Inventory} (u : UserId) (c : CardId)
    → apply_moves (card_moves t) inv ≡ ok inv'
    → quantity_of (inv' u c) + copies_out t u c ≡ quantity_of (inv u c) + copies_in t u c
unfolding card_moves
settled_copies t inv u c e = omega (
  arith,
  (apply_moves_at (card_moves t) inv u c e).0,
  moves_of_at t.initiator t.recipient t.items u c,
)

pub reversed_copies :
    (t : TradeTerms) (inv : Inventory) {inv' : Inventory} (u : UserId) (c : CardId)
    → apply_moves (reverse_moves t) inv ≡ ok inv'
    → quantity_of (inv' u c) + copies_in t u c ≡ quantity_of (inv u c) + copies_out t u c
unfolding reverse_moves card_moves
reversed_copies t inv u c e = omega (
  arith,
  (apply_moves_at (reverse_moves t) inv u c e).0,
  reversed_at (card_moves t) u c,
  moves_of_at t.initiator t.recipient t.items u c,
)
