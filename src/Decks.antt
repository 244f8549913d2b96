-- ===== src/Decks.antt =====
-- packages/shared/src/decks/validate.ts: the rules of a deck. A name, a format and a status are only
-- compared, so they are numbers; the name that counts for the copy limit, `baseCardName` in lower
-- case, is a field of the card. The texts of the messages are left out.
pub mod Rules
pub mod Verdicts
use pokedrop.Base.{
  ℕ, suc, ◌-◌, ◌+◌, Bool, true, false, ◌&&◌, ◌||◌, not, Option, none, some, List, [], ◌∷◌, ◌++◌,
  map, ◌==◌, ltb, leb, if◌then◌else◌, length, filter_by, every, sum_of, sort_by,
}
use pokedrop.Base.Dict.{Dict, lookup, insert}
use pokedrop.Inventory.{CardId}

pub data LegalityStatus : Type 0 where
  legal banned : LegalityStatus
  other_status : ℕ → LegalityStatus

pub record ValidationCard : Type 0 where
  pub card : CardId
  pub count : ℕ
  pub base_name : ℕ
  pub is_energy : Bool
  pub is_basic : Bool
  pub legalities : Dict LegalityStatus

pub record ValidationInput : Type 0 where
  pub format : ℕ
  pub owned_only : Bool
  pub deck_size : ℕ
  pub cards : List ValidationCard
  pub available : Dict ℕ

pub data DeckRule : Type 0 where
  size_rule copy_rule legality_rule ownership_rule : DeckRule

-- An issue, by its code, with its cards and params.
pub data Issue : Type 0 where
  deck_size_mismatch : ℕ → ℕ → Issue
  copy_limit_exceeded : List CardId → ℕ → ℕ → Issue
  card_legality_unknown card_banned : CardId → Issue
  card_not_legal : CardId → ℕ → Issue
  card_not_owned : Bool → CardId → ℕ → ℕ → Issue

-- Whether its severity is `error`.
abbrev pub is_error : Issue → Bool
is_error (card_legality_unknown c) = false
is_error (card_not_owned owned_only c needed have) = owned_only
is_error _ = true

abbrev pub rule_of : Issue → DeckRule
rule_of (deck_size_mismatch expected actual) = size_rule
rule_of (copy_limit_exceeded cards name count) = copy_rule
rule_of (card_not_owned owned_only c needed have) = ownership_rule
rule_of _ = legality_rule

abbrev pub deck_max_copies : ℕ
deck_max_copies = 4

-- Basic energy is unlimited and has no key.
unfoldable pub copy_limit_key : ValidationCard → Option ℕ
copy_limit_key c = if c.is_energy && c.is_basic then none else some c.base_name

abbrev pub count_cards : List ValidationCard → ℕ
count_cards = sum_of (λ c. c.count)

unfoldable pub size_issues : ℕ → ℕ → List Issue
size_issues expected actual =
    if actual == expected then [] else deck_size_mismatch expected actual ∷ []

abbrev pub get_printings : ℕ → Dict (List ValidationCard) → List ValidationCard
get_printings k groups = elim (lookup k groups) [ none ↦ [] | some cards ↦ cards ]

unfoldable pub add_printing :
    Option ℕ → ValidationCard → Dict (List ValidationCard) → Dict (List ValidationCard)
add_printing none c groups = groups
add_printing (some k) c groups = insert k (get_printings k groups ++ c ∷ []) groups

-- The loop that fills `byName`.
unfoldable pub by_name :
    List ValidationCard → Dict (List ValidationCard) → Dict (List ValidationCard)
by_name [] groups = groups
by_name (c ∷ cs) groups = by_name cs (add_printing (copy_limit_key c) c groups)

unfoldable pub over_limit : Dict (List ValidationCard) → List Issue
over_limit [] = []
over_limit ((k, printings) ∷ groups) =
    if ltb deck_max_copies (count_cards printings)
    then copy_limit_exceeded (map (λ c. c.card) printings) k (count_cards printings)
      ∷ over_limit groups
    else over_limit groups

unfoldable pub copy_limit : List ValidationCard → List Issue
copy_limit cards = over_limit (by_name cards [])

abbrev pub status_issues : ValidationCard → Option LegalityStatus → List Issue
status_issues c none = card_legality_unknown c.card ∷ []
status_issues c (some legal) = []
status_issues c (some banned) = card_banned c.card ∷ []
status_issues c (some (other_status s)) = card_not_legal c.card s ∷ []

unfoldable pub format_legality : List ValidationCard → ℕ → List Issue
format_legality [] format = []
format_legality (c ∷ cs) format =
    status_issues c (lookup format c.legalities) ++ format_legality cs format

abbrev pub available_of : CardId → Dict ℕ → ℕ
available_of c available = elim (lookup c available) [ none ↦ 0 | some n ↦ n ]

unfoldable pub ownership : List ValidationCard → Dict ℕ → Bool → List Issue
ownership [] available owned_only = []
ownership (c ∷ cs) available owned_only =
    let rest = ownership cs available owned_only in
    if ltb (available_of c.card available) c.count
    then card_not_owned owned_only c.card c.count (available_of c.card available) ∷ rest
    else rest

abbrev pub rule_index : DeckRule → ℕ
rule_index size_rule = 0
rule_index copy_rule = 1
rule_index legality_rule = 2
rule_index ownership_rule = 3

abbrev first_of : List CardId → ℕ
first_of [] = 0
first_of (c ∷ cs) = suc c

-- `cardIds[0] ?? ''`: no card comes before every card.
abbrev pub first_card : Issue → ℕ
first_card (deck_size_mismatch expected actual) = 0
first_card (copy_limit_exceeded cards name count) = first_of cards
first_card (card_legality_unknown c) = suc c
first_card (card_banned c) = suc c
first_card (card_not_legal c s) = suc c
first_card (card_not_owned owned_only c needed have) = suc c

-- The place of an issue's code in the order of strings.
abbrev pub code_index : Issue → ℕ
code_index (card_banned c) = 0
code_index (card_legality_unknown c) = 1
code_index (card_not_legal c s) = 2
code_index (card_not_owned owned_only c needed have) = 3
code_index (copy_limit_exceeded cards name count) = 4
code_index (deck_size_mismatch expected actual) = 5

unfoldable pub issue_le : Issue → Issue → Bool
issue_le a b =
    ltb (rule_index (rule_of a)) (rule_index (rule_of b))
    || (rule_index (rule_of a) == rule_index (rule_of b)
        && (ltb (first_card a) (first_card b)
            || (first_card a == first_card b && leb (code_index a) (code_index b))))

pub record RuleResult : Type 0 where
  pub rule : DeckRule
  pub is_ok : Bool
  pub errors : ℕ
  pub warnings : ℕ

abbrev pub same_rule : DeckRule → DeckRule → Bool
same_rule a b = rule_index a == rule_index b

abbrev pub count_errors : List Issue → ℕ
count_errors issues = length (filter_by is_error issues)

unfoldable pub rule_result : List Issue → DeckRule → RuleResult
rule_result issues rule =
    let own = filter_by (λ issue. same_rule (rule_of issue) rule) issues in
    record {
      rule = rule;
      is_ok = count_errors own == 0;
      errors = count_errors own;
      warnings = length own - count_errors own;
    }

pub record DeckValidation : Type 0 where
  pub valid : Bool
  pub actual : ℕ
  pub rules : List RuleResult
  pub issues : List Issue

abbrev pub card_le : ValidationCard → ValidationCard → Bool
card_le a b = leb a.card b.card

unfoldable pub issues_of : ValidationInput → List ValidationCard → List Issue
issues_of input cards = sort_by issue_le (
    size_issues input.deck_size (count_cards cards)
    ++ (copy_limit cards
        ++ (format_legality cards input.format
            ++ ownership cards input.available input.owned_only)))

unfoldable pub validate_deck : ValidationInput → DeckValidation
validate_deck input =
    let cards = sort_by card_le input.cards in
    let issues = issues_of input cards in
    record {
      valid = every (λ issue. not (is_error issue)) issues;
      actual = count_cards cards;
      rules =
          map (rule_result issues) (size_rule ∷ copy_rule ∷ legality_rule ∷ ownership_rule ∷ []);
      issues = issues;
    }
