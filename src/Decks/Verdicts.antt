-- ===== src/Decks/Verdicts.antt =====
-- The validator's verdict is exactly the description of a valid deck.
use pokedrop.Base.{
  ℕ, ◌+◌, ◌≤◌, ◌≡◌, ◌≢◌, ◌↔◌, refl, ap, Bool, true, false, not, Option, none, some, List, [], ◌∷◌,
  ◌++◌, ◌==◌, ==_self, ltb, if◌then◌else◌, every, sum_of, sum_of-append, sum_of-sort_by, sort_by,
  All, Bool-cases, inl, inr, arith,
}
use pokedrop.Base.Dict.{Dict, lookup, insert, lookup-insert}
use pokedrop.Decks.{
  LegalityStatus, legal, banned, other_status, ValidationCard, ValidationInput, Issue, is_error,
  deck_max_copies, copy_limit_key, count_cards, size_issues, get_printings, add_printing, by_name,
  over_limit, copy_limit, status_issues, format_legality, available_of, ownership, issue_le,
  card_le, issues_of, validate_deck,
}
use pokedrop.Decks.Rules.{
  one_error, errors_in, copies_named, add_printing-count, IsPlayable, format_legality-sum,
  ownership-sum, IsValidDeck, validate_deck-IsValidDeck,
}

every-no_errors :
    (issues : List Issue)
    → errors_in issues ≡ 0
    → every (λ issue. not (is_error issue)) issues ≡ true
every-no_errors [] e = refl
every-no_errors (i ∷ issues) e = ground (arith, every-no_errors issues)

-- Every group so far has room for the cards that are still to come.
abbrev HasRoom : List ValidationCard → Dict (List ValidationCard) → Type 0
HasRoom cards = All (λ group. count_cards group.1 + copies_named group.0 cards ≤ deck_max_copies)

HasRoom-drop :
    (c : ValidationCard) (cs : List ValidationCard) (groups : Dict (List ValidationCard))
    → HasRoom (c ∷ cs) groups
    → HasRoom cs groups
HasRoom-drop c cs [] h = tt
HasRoom-drop c cs (group ∷ groups) h = (omega (arith, h.0), HasRoom-drop c cs groups h.1)

HasRoom-insert :
    (cards : List ValidationCard) (k : ℕ) (v : List ValidationCard)
    (groups : Dict (List ValidationCard))
    → count_cards v + copies_named k cards ≤ deck_max_copies
    → HasRoom cards groups
    → HasRoom cards (insert k v groups)
unfolding insert
HasRoom-insert cards k v [] p h = (p, tt)
HasRoom-insert cards k v ((j, w) ∷ groups) p h = elim (Bool-cases (j == k)) [
  | inl e ↦ let same : j ≡ k = ground (arith, e) in rw same (rw (==_self k) (p, h.1))
  | inr e ↦ rw e (h.0, HasRoom-insert cards k v groups p h.1)
]

get_printings-insert :
    (k : ℕ) (v : List ValidationCard) (groups : Dict (List ValidationCard))
    → get_printings k (insert k v groups) ≡ v
get_printings-insert k v groups = ground (arith, lookup-insert k k v groups)

add_printing-HasRoom :
    (key : Option ℕ) (c : ValidationCard) (cs : List ValidationCard)
    (groups : Dict (List ValidationCard))
    → ((k : ℕ)
        → count_cards (get_printings k (add_printing key c groups)) + copies_named k cs
          ≤ deck_max_copies)
    → HasRoom cs groups
    → HasRoom cs (add_printing key c groups)
unfolding add_printing
add_printing-HasRoom none c cs groups bound h = h
add_printing-HasRoom (some k) c cs groups bound h =
    let v = get_printings k groups ++ c ∷ [] in
    HasRoom-insert cs k v groups
      (omega (arith, bound k, ap count_cards (get_printings-insert k v groups))) h

by_name-HasRoom :
    (cards : List ValidationCard) (groups : Dict (List ValidationCard))
    → ((k : ℕ) → count_cards (get_printings k groups) + copies_named k cards ≤ deck_max_copies)
    → HasRoom cards groups
    → HasRoom [] (by_name cards groups)
unfolding by_name
by_name-HasRoom [] groups bound h = h
by_name-HasRoom (c ∷ cs) groups bound h =
    let key = copy_limit_key c in
    let next : (k : ℕ)
        → count_cards (get_printings k (add_printing key c groups)) + copies_named k cs
          ≤ deck_max_copies =
      λ k. omega (arith, bound k, add_printing-count key c groups k) in
    by_name-HasRoom cs (add_printing key c groups) next
      (add_printing-HasRoom key c cs groups next (HasRoom-drop c cs groups h))

over_limit-none :
    (groups : Dict (List ValidationCard)) → HasRoom [] groups → errors_in (over_limit groups) ≡ 0
unfolding over_limit
over_limit-none [] h = refl
over_limit-none ((j, printings) ∷ groups) h = ground (arith, h.0, over_limit-none groups h.1)

copy_limit-none :
    (cards : List ValidationCard)
    → ((k : ℕ) → copies_named k cards ≤ deck_max_copies)
    → errors_in (copy_limit cards) ≡ 0
unfolding copy_limit lookup
copy_limit-none cards h =
    over_limit-none (by_name cards []) (by_name-HasRoom cards [] (λ k. omega (arith, h k)) tt)

status_issues-none :
    (c : ValidationCard) (status : Option LegalityStatus)
    → status ≢ some banned
    → ((s : ℕ) → status ≢ some (other_status s))
    → errors_in (status_issues c status) ≡ 0
status_issues-none c none h k = refl
status_issues-none c (some legal) h k = refl
status_issues-none c (some banned) h k = absurd (h refl)
status_issues-none c (some (other_status s)) h k = absurd (k s refl)

legality-none :
    (cards : List ValidationCard) (format : ℕ)
    → All (IsPlayable format) cards
    → sum_of (λ c. errors_in (status_issues c (lookup format c.legalities))) cards ≡ 0
legality-none [] format h = refl
legality-none (c ∷ cs) format h = omega (
  arith,
  status_issues-none c (lookup format c.legalities) h.0.0 h.0.1,
  legality-none cs format h.1,
)

owned-none :
    (cards : List ValidationCard) (available : Dict ℕ)
    → All (λ c. c.count ≤ available_of c.card available) cards
    → sum_of (λ c. if ltb (available_of c.card available) c.count then 1 else 0) cards ≡ 0
owned-none [] available h = refl
owned-none (c ∷ cs) available h = ground (arith, h.0, owned-none cs available h.1)

ownership-warnings :
    (cards : List ValidationCard) (available : Dict ℕ)
    → errors_in (ownership cards available false) ≡ 0
unfolding ownership
ownership-warnings [] available = refl
ownership-warnings (c ∷ cs) available = ground (arith, ownership-warnings cs available)

module _ (input : ValidationInput) (v : IsValidDeck input) where
  abbrev cards : List ValidationCard
  cards = sort_by card_le input.cards

  size-none : errors_in (size_issues input.deck_size (count_cards cards)) ≡ 0
  unfolding size_issues
  size-none =
      ground (arith, v.sized, sum_of-sort_by (λ (c : ValidationCard). c.count) card_le input.cards)

  copies-none : errors_in (copy_limit cards) ≡ 0
  copies-none = copy_limit-none cards (λ k. omega (
    arith,
    v.limited k,
    sum_of-sort_by
        (λ c. elim (copy_limit_key c) [ none ↦ 0 | some j ↦ if j == k then c.count else 0 ]) card_le
        input.cards,
  ))

  formats-none : errors_in (format_legality cards input.format) ≡ 0
  formats-none = omega (
    arith,
    format_legality-sum cards input.format,
    sum_of-sort_by (λ c. errors_in (status_issues c (lookup input.format c.legalities))) card_le
        input.cards,
    legality-none input.cards input.format v.playable,
  )

  owners-none :
      (b : Bool) → input.owned_only ≡ b → errors_in (ownership cards input.available b) ≡ 0
  owners-none false e = ownership-warnings cards input.available
  owners-none true e = omega (
    arith,
    ownership-sum cards input.available,
    sum_of-sort_by (λ c. if ltb (available_of c.card input.available) c.count then 1 else 0) card_le
        input.cards,
    owned-none input.cards input.available (v.owned e),
  )

  issues-none : errors_in (issues_of input cards) ≡ 0
  unfolding issues_of
  issues-none =
      let size = size_issues input.deck_size (count_cards cards) in
      let legality = format_legality cards input.format in
      let owned = ownership cards input.available input.owned_only in
      omega (
        arith,
        size-none,
        copies-none,
        formats-none,
        owners-none input.owned_only refl,
        sum_of-sort_by one_error issue_le (size ++ (copy_limit cards ++ (legality ++ owned))),
        sum_of-append one_error size (copy_limit cards ++ (legality ++ owned)),
        sum_of-append one_error (copy_limit cards) (legality ++ owned),
        sum_of-append one_error legality owned,
      )

  pub IsValidDeck-valid : (validate_deck input).valid ≡ true
  unfolding validate_deck
  IsValidDeck-valid = every-no_errors (issues_of input cards) issues-none

-- The validator calls a deck valid exactly if it has its size in cards, at most four copies under
-- each name but basic energy, no card that is banned or otherwise not legal in its format, and,
-- if only owned cards count, no more copies of a card than are available.
pub validate_deck_iff :
    (input : ValidationInput) → ((validate_deck input).valid ≡ true) ↔ IsValidDeck input
validate_deck_iff input = (validate_deck-IsValidDeck input, IsValidDeck-valid input)
