-- ===== src/Decks/Rules.antt =====
-- What a verdict of the validator says of the deck.
use pokedrop.Base.{
  ℕ, ◌+◌, ◌≤◌, ◌≡◌, ◌≢◌, refl, true, not, Option, none, some, List, [], ◌∷◌, ◌++◌, ◌==◌, ltb,
  if◌then◌else◌, every, sum_of, sum_of-append, sum_of-sort_by, sort_by, All, arith,
}
use pokedrop.Base.Dict.{Dict, lookup, lookup-insert}
use pokedrop.Decks.{
  LegalityStatus, legal, banned, other_status, ValidationCard, ValidationInput, Issue, is_error,
  deck_max_copies, copy_limit_key, count_cards, size_issues, get_printings, add_printing, by_name,
  over_limit, copy_limit, status_issues, format_legality, available_of, ownership, issue_le,
  card_le, issues_of, validate_deck,
}

abbrev pub one_error : Issue → ℕ
one_error issue = if is_error issue then 1 else 0

abbrev pub errors_in : List Issue → ℕ
errors_in = sum_of one_error

every-errors :
    (issues : List Issue)
    → every (λ issue. not (is_error issue)) issues ≡ true
    → errors_in issues ≡ 0
every-errors [] e = refl
every-errors (i ∷ issues) e = ground (arith, every-errors issues)

-- The copies of the cards with a copy-limit key.
abbrev pub copies_named : ℕ → List ValidationCard → ℕ
copies_named k =
    sum_of (λ c. elim (copy_limit_key c) [ none ↦ 0 | some j ↦ if j == k then c.count else 0 ])

pub add_printing-count :
    (key : Option ℕ) (c : ValidationCard) (groups : Dict (List ValidationCard)) (k : ℕ)
    → count_cards (get_printings k (add_printing key c groups))
      ≡ count_cards (get_printings k groups)
        + elim key [ none ↦ 0 | some j ↦ if j == k then c.count else 0 ]
unfolding add_printing
add_printing-count none c groups k = omega arith
add_printing-count (some j) c groups k = ground (
  arith,
  lookup-insert j k (get_printings j groups ++ c ∷ []) groups,
  sum_of-append (λ (c : ValidationCard). c.count) (get_printings j groups) (c ∷ []),
)

by_name-count :
    (cards : List ValidationCard) (groups : Dict (List ValidationCard)) (k : ℕ)
    → count_cards (get_printings k (by_name cards groups))
      ≡ count_cards (get_printings k groups) + copies_named k cards
unfolding by_name
by_name-count [] groups k = omega arith
by_name-count (c ∷ cs) groups k = omega (
  arith,
  by_name-count cs (add_printing (copy_limit_key c) c groups) k,
  add_printing-count (copy_limit_key c) c groups k,
)

over_limit-errors :
    (groups : Dict (List ValidationCard)) (k : ℕ)
    → errors_in (over_limit groups) ≡ 0
    → count_cards (get_printings k groups) ≤ deck_max_copies
unfolding over_limit lookup
over_limit-errors [] k e = omega arith
over_limit-errors ((j, printings) ∷ groups) k e = ground (arith, e, over_limit-errors groups k)

-- The card is legal in the format, or nothing is recorded of it.
abbrev pub IsPlayable : ℕ → ValidationCard → Type 0
IsPlayable format c =
    (lookup format c.legalities ≢ some banned)
    × ((s : ℕ) → lookup format c.legalities ≢ some (other_status s))

status_issues-playable :
    (c : ValidationCard) (status : Option LegalityStatus)
    → errors_in (status_issues c status) ≡ 0
    → (status ≢ some banned) × ((s : ℕ) → status ≢ some (other_status s))
status_issues-playable c none e = ((λ h. cc), λ s h. cc)
status_issues-playable c (some legal) e = ((λ h. cc), λ s h. cc)
status_issues-playable c (some banned) e = absurd (omega arith)
status_issues-playable c (some (other_status s)) e = absurd (omega arith)

format_legality-errors :
    (cards : List ValidationCard) (format : ℕ)
    → errors_in (format_legality cards format) ≡ 0
    → All (IsPlayable format) cards
unfolding format_legality
format_legality-errors [] format e = tt
format_legality-errors (c ∷ cs) format e =
    let split =
      sum_of-append one_error (status_issues c (lookup format c.legalities))
        (format_legality cs format) in
    (
      status_issues-playable c (lookup format c.legalities) (omega (arith, split)),
      format_legality-errors cs format (omega (arith, split)),
    )

ownership-errors :
    (cards : List ValidationCard) (available : Dict ℕ)
    → errors_in (ownership cards available true) ≡ 0
    → All (λ c. c.count ≤ available_of c.card available) cards
unfolding ownership
ownership-errors [] available e = tt
ownership-errors (c ∷ cs) available e =
    (ground (arith, e), ownership-errors cs available (ground (arith, e)))

pub format_legality-sum :
    (cards : List ValidationCard) (format : ℕ)
    → errors_in (format_legality cards format)
      ≡ sum_of (λ c. errors_in (status_issues c (lookup format c.legalities))) cards
unfolding format_legality
format_legality-sum [] format = refl
format_legality-sum (c ∷ cs) format = omega (
  arith,
  sum_of-append one_error (status_issues c (lookup format c.legalities))
      (format_legality cs format),
  format_legality-sum cs format,
)

pub ownership-sum :
    (cards : List ValidationCard) (available : Dict ℕ)
    → errors_in (ownership cards available true)
      ≡ sum_of (λ c. if ltb (available_of c.card available) c.count then 1 else 0) cards
unfolding ownership
ownership-sum [] available = refl
ownership-sum (c ∷ cs) available = ground (arith, ownership-sum cs available)

issues_of-errors :
    (input : ValidationInput) (cards : List ValidationCard)
    → errors_in (issues_of input cards) ≡ 0
    → (errors_in (size_issues input.deck_size (count_cards cards)) ≡ 0)
      × (errors_in (copy_limit cards) ≡ 0)
      × (errors_in (format_legality cards input.format) ≡ 0)
      × (errors_in (ownership cards input.available input.owned_only) ≡ 0)
unfolding issues_of
issues_of-errors input cards e =
    let size = size_issues input.deck_size (count_cards cards) in
    let owned = ownership cards input.available input.owned_only in
    ground (
      arith,
      e,
      sum_of-sort_by one_error issue_le
          (size ++ (copy_limit cards ++ (format_legality cards input.format ++ owned))),
      sum_of-append one_error size
          (copy_limit cards ++ (format_legality cards input.format ++ owned)),
      sum_of-append one_error (copy_limit cards) (format_legality cards input.format ++ owned),
      sum_of-append one_error (format_legality cards input.format) owned,
    )

-- What a valid deck is.
pub record IsValidDeck (input : ValidationInput) : Type 0 where
  pub sized : count_cards input.cards ≡ input.deck_size
  pub limited : (k : ℕ) → copies_named k input.cards ≤ deck_max_copies
  pub playable : All (IsPlayable input.format) input.cards
  pub owned :
      input.owned_only ≡ true → All (λ c. c.count ≤ available_of c.card input.available) input.cards

-- A deck that the validator calls valid has exactly its size in cards, at most four copies under
-- each name but basic energy, no card that is banned or otherwise not legal in its format, and,
-- if only owned cards count, no more copies of a card than are available.
pub validate_deck-IsValidDeck :
    (input : ValidationInput) → (validate_deck input).valid ≡ true → IsValidDeck input
unfolding validate_deck size_issues copy_limit
validate_deck-IsValidDeck input e =
    let cards = sort_by card_le input.cards in
    let (size, copies, legality, owned) =
      issues_of-errors input cards (every-errors (issues_of input cards) e) in
    record {
      sized =
          ground
            (arith, size, sum_of-sort_by (λ (c : ValidationCard). c.count) card_le input.cards);
      limited = λ k. omega (
        arith,
        by_name-count cards [] k,
        over_limit-errors (by_name cards []) k copies,
        sum_of-sort_by
            (λ c. elim (copy_limit_key c) [ none ↦ 0 | some j ↦ if j == k then c.count else 0 ])
            card_le input.cards,
      );
      playable = format_legality-errors input.cards input.format (
          omega (
            arith,
            legality,
            format_legality-sum cards input.format,
            format_legality-sum input.cards input.format,
            sum_of-sort_by (λ c. errors_in (status_issues c (lookup input.format c.legalities)))
                card_le input.cards,
          ));
      owned = λ only.
          let enforced : errors_in (ownership cards input.available true) ≡ 0 = rw only at owned in
          ownership-errors input.cards input.available (
            omega (
              arith,
              enforced,
              ownership-sum cards input.available,
              ownership-sum input.cards input.available,
              sum_of-sort_by
                  (λ c. if ltb (available_of c.card input.available) c.count then 1 else 0) card_le
                  input.cards,
            ));
    }
