-- ===== src/Composer/Terms.antt =====
-- The form and the API agree: an offer that the form lets through is one that the API's schema
-- admits.
use pokedrop.Base.{
  ℕ, ◌≤◌, ◌≡◌, refl, Bool, true, false, Option, none, some, List, [], ◌∷◌, ◌++◌, map, ◌==◌, some_of,
  every, contains, length, arith,
}
use pokedrop.Inventory.{UserId, CardId}
use pokedrop.Schema.Trade.{max_trade_lines, set_of, cards_of, is_line, is_side, check_terms}
use pokedrop.Trades.Lines.{contains-set_of}
use pokedrop.Composer.{
  Line, ComposerState, ComposerAction, Problem, self_counterparty, nothing_offered, too_many_cards,
  empty, has_card, when, party_problems, both_sides, unavailable, coin_problems, compose_problems,
  to_line, terms_of, after,
}
use pokedrop.Composer.Reducer.{IsFormed, IsComposed, empty-IsComposed, after-IsComposed}

abbrev cards_in : List Line → List CardId
cards_in ls = cards_of (map to_line ls)

has_card-contains : (c : CardId) (ls : List Line) → contains c (cards_in ls) ≡ has_card c ls
has_card-contains c [] = refl
has_card-contains c (l ∷ ls) = ground (arith, has_card-contains c ls)

lines-length : (ls : List Line) → length (map to_line ls) ≡ length ls
lines-length [] = refl
lines-length (l ∷ ls) = ground (arith, lines-length ls)

IsFormed-lines : (ls : List Line) → IsFormed ls → every is_line (map to_line ls) ≡ true
unfolding is_line
IsFormed-lines [] h = refl
IsFormed-lines (l ∷ ls) h = ground (arith, h.0, IsFormed-lines ls h.2)

IsFormed-distinct : (ls : List Line) → IsFormed ls → length (set_of (cards_in ls)) ≡ length ls
unfolding set_of
IsFormed-distinct [] h = refl
IsFormed-distinct (l ∷ ls) h =
    ground (arith, h.1, has_card-contains l.card ls, IsFormed-distinct ls h.2)

IsFormed-is_side :
    (ls : List Line) → IsFormed ls → length ls ≤ max_trade_lines → is_side (map to_line ls) ≡ true
IsFormed-is_side ls h n =
    ground (arith, n, IsFormed-lines ls h, IsFormed-distinct ls h, lines-length ls)

apart_sides :
    (xs ys : List Line)
    → both_sides xs ys ≡ []
    → some_of (λ c. contains c (set_of (cards_in ys))) (set_of (cards_in xs)) ≡ false
unfolding both_sides set_of
apart_sides [] ys e = refl
apart_sides (x ∷ xs) ys e =
    ground
      (arith, apart_sides xs ys, contains-set_of x.card (cards_in ys), has_card-contains x.card ys)

append-nil {ℓ} : {A : Type ℓ} (xs ys : List A) → xs ++ ys ≡ [] → (xs ≡ []) × (ys ≡ [])
append-nil [] ys e = (refl, e)
append-nil (x ∷ xs) ys e = absurd (ground arith)

when-nil : (b : Bool) (p : Problem) → when b p ≡ [] → b ≡ false
when-nil true p e = absurd (ground arith)
when-nil false p e = refl

party_problems-nil :
    (me : UserId) (party : Option UserId)
    → party_problems me party ≡ []
    → (u : UserId) × (party ≡ some u) × ((u == me) ≡ false)
party_problems-nil me none e = absurd (ground arith)
party_problems-nil me (some u) e = (u, refl, when-nil (u == me) self_counterparty e)

no_problems :
    (me : UserId) (balance : Option ℕ) (available : CardId → Option ℕ) (s : ComposerState)
    → IsComposed s
    → compose_problems me balance available s ≡ []
    → ((u : UserId) × (s.counterparty ≡ some u) × ((u == me) ≡ false))
      × (check_terms (terms_of s) ≡ true)
unfolding compose_problems check_terms terms_of
no_problems me balance available s h e =
    let (e₁, _) = append-nil _ (coin_problems s.coins_give balance) e in
    let (e₂, _) = append-nil _ (unavailable available s.give_lines) e₁ in
    let (e₃, apart) = append-nil _ (both_sides s.give_lines s.get_lines) e₂ in
    let (e₄, few) = append-nil _ (when _ too_many_cards) e₃ in
    let (party, something) =
      append-nil (party_problems me s.counterparty) (when _ nothing_offered) e₄ in
    let some_lines = when-nil _ nothing_offered something in
    let short = when-nil _ too_many_cards few in
    (
      party_problems-nil me s.counterparty party,
      ground (
        arith,
        h.give_bounded,
        h.get_bounded,
        some_lines,
        short,
        IsFormed-is_side s.give_lines h.give_formed,
        IsFormed-is_side s.get_lines h.get_formed,
        apart_sides s.give_lines s.get_lines apart,
        lines-length s.give_lines,
        lines-length s.get_lines,
      ),
    )

-- Whatever actions composed an offer from the empty form, if the form then states no problem, a
-- counterparty other than the member is chosen and the API's schema admits the terms that are
-- sent.
pub composed-check_terms :
    (me : UserId) (balance : Option ℕ) (available : CardId → Option ℕ)
    (actions : List ComposerAction)
    → compose_problems me balance available (after actions empty) ≡ []
    → ((u : UserId) × ((after actions empty).counterparty ≡ some u) × ((u == me) ≡ false))
      × (check_terms (terms_of (after actions empty)) ≡ true)
composed-check_terms me balance available actions e =
    no_problems me balance available (after actions empty)
      (after-IsComposed actions empty empty-IsComposed) e
