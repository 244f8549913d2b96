-- ===== src/Examples/Composing.antt =====
-- The theorems on the trade form and on decks.
use pokedrop.Base.{
  ℕ, ◌↔◌, ◌≡◌, refl, Bool, true, false, Option, none, some, List, [], ◌∷◌, ◌==◌, sort_by, insert_by,
}
use pokedrop.Base.Dict.{lookup, insert}
use pokedrop.Inventory.{UserId, CardId}
use pokedrop.Schema.Trade.{check_terms}
use pokedrop.Composer.{
  give, get, ComposerState, ComposerAction, choose, add, set_count, set_coins, empty, clamp,
  add_to_first, add_card, set_counts, composer_reducer, both_sides, unavailable, compose_problems,
  terms_of, after, count_of, pick_refusal,
}
use pokedrop.Composer.Terms.{composed-check_terms}
use pokedrop.Decks.{
  legal, ValidationCard, ValidationInput, copy_limit_key, size_issues, add_printing, by_name,
  over_limit, copy_limit, format_legality, ownership, issue_le, issues_of, rule_result,
  validate_deck,
}
use pokedrop.Decks.Rules.{IsValidDeck}
use pokedrop.Decks.Verdicts.{validate_deck_iff}

-- An offer to member 2: two of card 10 for five of card 20 and some coins.
abbrev actions : List ComposerAction
actions =
    choose (some 2)
    ∷ add give 10
    ∷ add give 10
    ∷ add get 20
    ∷ set_count get 20 5
    ∷ set_coins give 30
    ∷ []

abbrev owned : CardId → Option ℕ
owned c = some 3

no_problem : compose_problems 1 (some 100) owned (after actions empty) ≡ []
unfolding compose_problems both_sides unavailable after composer_reducer add_card add_to_first
    set_counts clamp
no_problem = refl

composed-check_terms_example :
    ((u : UserId) × ((after actions empty).counterparty ≡ some u) × ((u == 1) ≡ false))
    × (check_terms (terms_of (after actions empty)) ≡ true)
composed-check_terms_example = composed-check_terms 1 (some 100) owned actions no_problem

abbrev one_line : ComposerState
one_line = record empty { give_lines = record { card = 10; count = 2 } ∷ [] }

may_pick : pick_refusal one_line give 10 (some 3) ≡ none
unfolding pick_refusal count_of
may_pick = refl

abbrev a_card : CardId → ℕ → ℕ → Bool → ValidationCard
a_card c n name basic = record {
  card = c;
  count = n;
  base_name = name;
  is_energy = basic;
  is_basic = basic;
  legalities = (1, legal) ∷ [];
}

-- Four copies under one name, and six basic energy.
abbrev deck : ValidationInput
deck = record {
  format = 1;
  owned_only = true;
  deck_size = 10;
  cards = a_card 12 2 5 false ∷ a_card 11 2 5 false ∷ a_card 3 6 9 true ∷ [];
  available = (3, 8) ∷ (11, 2) ∷ (12, 2) ∷ [];
}

deck_valid : (validate_deck deck).valid ≡ true
unfolding validate_deck issues_of sort_by insert_by size_issues copy_limit over_limit by_name
    add_printing copy_limit_key format_legality ownership lookup insert issue_le rule_result
deck_valid = refl

validate_deck_iff_example : ((validate_deck deck).valid ≡ true) ↔ IsValidDeck deck
validate_deck_iff_example = validate_deck_iff deck
