-- ===== src/Trades/Lines.antt =====
-- The lines of a request and the items of the trade that it creates.
use pokedrop.Base.{
  ℕ, ◌≤◌, ◌<◌, ◌≡◌, refl, Bool, true, ◌&&◌, Option, List, [], ◌∷◌, ◌++◌, map, ◌==◌, if◌then◌else◌,
  sum_of, sum_of-append, sum_of-sort_by, sort_by, filter_by, All, All-append, All-sort_by, arith,
  every, length, contains,
}
use pokedrop.Inventory.{UserId, CardId, QuantityChange}
use pokedrop.Inventory.Progress.{IsNormal}
use pokedrop.Inventory.Normal.{times, IsSparse-IsNormal, IsNormal-IsSparse}
use pokedrop.Schema.Trade.{
  TradeId, TradeItem, TradeInput, offered, requested, is_offered, to_change, to_item,
  offered_changes, trade_lines, item_le, set_of, cards_of, is_line, is_side,
}
use pokedrop.Trades.{new_terms}

abbrev times_offered : CardId → TradeItem → ℕ
times_offered c i = if is_offered i && i.card == c then 1 else 0

times-filter :
    (c : CardId) (items : List TradeItem)
    → times c (map to_change (filter_by is_offered items)) ≡ sum_of (times_offered c) items
times-filter c [] = refl
times-filter c (i ∷ items) = ground (arith, times-filter c items)

times-offered :
    (c : CardId) (ls : List QuantityChange)
    → sum_of (times_offered c) (map (to_item offered) ls) ≡ times c ls
times-offered c [] = refl
times-offered c (l ∷ ls) = ground (arith, times-offered c ls)

times-requested :
    (c : CardId) (ls : List QuantityChange)
    → sum_of (times_offered c) (map (to_item requested) ls) ≡ 0
times-requested c [] = refl
times-requested c (l ∷ ls) = ground (arith, times-requested c ls)

abbrev IsPositive : TradeItem → Type 0
IsPositive i = is_offered i ≡ true → 0 < i.quantity

IsPositive-offered :
    (ls : List QuantityChange)
    → All (λ l. 0 < l.quantity) ls
    → All IsPositive (map (to_item offered) ls)
IsPositive-offered [] h = tt
IsPositive-offered (l ∷ ls) h = (λ e. h.0, IsPositive-offered ls h.1)

IsPositive-requested : (ls : List QuantityChange) → All IsPositive (map (to_item requested) ls)
IsPositive-requested [] = tt
IsPositive-requested (l ∷ ls) = (λ e. absurd (ground arith), IsPositive-requested ls)

IsPositive-filter :
    (items : List TradeItem)
    → All IsPositive items
    → All (λ x. 0 < x.quantity) (map to_change (filter_by is_offered items))
IsPositive-filter [] h = tt
IsPositive-filter (i ∷ items) h = ground (arith, h.0, IsPositive-filter items h.1)

-- The trade that a request creates offers normal changes if the request does.
pub new_terms-IsNormal :
    (user recipient : UserId) (input : TradeInput) (countered : Option TradeId) (now : ℕ)
    → IsNormal input.offered
    → IsNormal (offered_changes (new_terms user recipient input countered now))
unfolding new_terms offered_changes trade_lines
new_terms-IsNormal user recipient input countered now h =
    let (positive, once) = IsNormal-IsSparse input.offered h in
    let lines = map (to_item offered) input.offered ++ map (to_item requested) input.requested in
    IsSparse-IsNormal (map to_change (filter_by is_offered (sort_by item_le lines))) (
      IsPositive-filter (sort_by item_le lines) (
          All-sort_by IsPositive item_le lines (
            All-append IsPositive (map (to_item offered) input.offered)
              (map (to_item requested) input.requested) (IsPositive-offered input.offered positive)
              (IsPositive-requested input.requested))),
      λ c. omega (
        arith,
        once c,
        times-filter c (sort_by item_le lines),
        sum_of-sort_by (times_offered c) item_le lines,
        sum_of-append (times_offered c) (map (to_item offered) input.offered)
            (map (to_item requested) input.requested),
        times-offered c input.offered,
        times-requested c input.requested,
      ),
    )

distinct_le : (xs : List CardId) → length (set_of xs) ≤ length xs
unfolding set_of
distinct_le [] = omega arith
distinct_le (x ∷ xs) = ground (arith, distinct_le xs)

pub contains-set_of : (c : CardId) (xs : List CardId) → contains c (set_of xs) ≡ contains c xs
unfolding set_of
contains-set_of c [] = refl
contains-set_of c (x ∷ xs) = ground (arith, contains-set_of c xs)

abbrev contained : CardId → List QuantityChange → Bool
contained c ls = contains c (cards_of ls)

distinct-once :
    (c : CardId) (ls : List QuantityChange)
    → length (set_of (cards_of ls)) ≡ length ls
    → times c ls ≡ (if contained c ls then 1 else 0)
unfolding set_of
distinct-once c [] e = refl
distinct-once c (l ∷ ls) e =
    ground (arith, distinct-once c ls, distinct_le (cards_of ls), same_length ls)
  where
    same_length : (ls : List QuantityChange) → length (cards_of ls) ≡ length ls
    same_length [] = refl
    same_length (l ∷ ls) = ground (arith, same_length ls)

lines-positive : (ls : List QuantityChange) → every is_line ls ≡ true → All (λ l. 0 < l.quantity) ls
unfolding is_line
lines-positive [] e = tt
lines-positive (l ∷ ls) e = (ground arith, lines-positive ls (ground arith))

-- A side of a trade that the request schema admits names each card once in a positive quantity.
pub is_side-IsNormal : (ls : List QuantityChange) → is_side ls ≡ true → IsNormal ls
is_side-IsNormal ls e =
    IsSparse-IsNormal ls (lines-positive ls (ground arith), λ c. ground (arith, distinct-once c ls))
