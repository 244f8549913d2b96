-- ===== src/RandomDeck/Service.antt =====
-- apps/api/src/decks/random-deck/random-deck.service.ts and random-deck.pool.ts: the pool that is
-- read from the card table, the deck that is generated from it, and the validator's verdict on it.
-- The digests of SHA-256 are a parameter: the source that each attempt starts from.
pub mod Loading
pub mod Verdict
pub mod Answers
use pokedrop.Base.{
  ℕ, zero, suc, ◌-◌, Bool, true, false, ◌&&◌, ◌||◌, not, Option, none, some, List, [], ◌∷◌, ◌++◌,
  ◌==◌, ltb, if◌then◌else◌, length, filter_by, every, some_of, map, contains,
}
use pokedrop.Base.Dict.{Dict, lookup}
use pokedrop.Decks.{
  LegalityStatus, legal, banned, other_status, ValidationCard, ValidationInput, DeckValidation,
  validate_deck,
}
use pokedrop.RandomDeck.Draft.{
  Amount, copies, unlimited, PoolCard, pokemon_supertype, energy_supertype, basic_subtype,
}
use pokedrop.RandomDeck.Pooled.{get_card}
use pokedrop.RandomDeck.Catalog.{same_option}
use pokedrop.RandomDeck.Shuffle.{Source}
use pokedrop.RandomDeck.Generator.{GenerateResult, deck, shortfall, Shortfall, DeckCard}
use pokedrop.RandomDeck.Choice.{basic_energy_types, generate_deck}

-- A row of the card table, with the parts that the service reads.
pub record CardRow : Type 0 where
  pub id : ℕ
  pub name : ℕ
  pub base_name : ℕ
  pub supertype : ℕ
  pub subtypes : List ℕ
  pub types : List ℕ
  pub evolves_from : Option ℕ
  pub energy_type : Option ℕ
  pub legalities : Dict LegalityStatus

abbrev pub v_union : ℕ
v_union = 7

abbrev pub is_legal_status : Option LegalityStatus → Bool
is_legal_status (some legal) = true
is_legal_status _ = false

abbrev pub is_legal : ℕ → CardRow → Bool
is_legal format row = is_legal_status (lookup format row.legalities)

-- Whose copies count: nobody's for Any card, or a member's copies that are not locked.
abbrev pub Owner : Type 0
Owner = Option (ℕ → ℕ)

abbrev pub available_to : Owner → ℕ → Amount
available_to none id = unlimited
available_to (some available) id = copies (available id)

-- The JOIN on the member's rows.
abbrev pub is_joined : Owner → ℕ → Bool
is_joined none id = true
is_joined (some available) id = ltb 0 (available id)

unfoldable pub is_selected : ℕ → Owner → CardRow → Bool
is_selected format owner row =
    is_legal format row
    && (not (contains v_union row.subtypes)
        && ((not (row.supertype == pokemon_supertype) || ltb 0 (length row.types))
            && is_joined owner row.id))

abbrev pub pool_card : Owner → CardRow → PoolCard
pool_card owner row = record {
  id = row.id;
  name = row.name;
  base_name = row.base_name;
  supertype = row.supertype;
  subtypes = row.subtypes;
  types = row.types;
  evolves_from = row.evolves_from;
  energy_type = row.energy_type;
  available = available_to owner row.id;
}

unfoldable pub load_pool : List CardRow → ℕ → Owner → List PoolCard
unfolding is_selected
load_pool table format owner = map (pool_card owner) (filter_by (is_selected format owner) table)

-- `types`: the types of which the format has a basic Energy.
unfoldable pub allowed_types : List CardRow → ℕ → List ℕ
allowed_types table format =
    filter_by
      (λ type.
        some_of
          (λ row.
            row.supertype == energy_supertype
            && (contains basic_subtype row.subtypes
                && (same_option row.energy_type (some type) && is_legal format row)))
          table)
      basic_energy_types

abbrev pub get_row : ℕ → List CardRow → Option CardRow
get_row k [] = none
get_row k (row ∷ rows) = if row.id == k then some row else get_row k rows

abbrev pub row_card : ℕ → ℕ → Option CardRow → List ValidationCard
row_card id count none = []
row_card id count (some row) =
    record {
      card = id;
      count = count;
      base_name = row.base_name;
      is_energy = row.supertype == energy_supertype;
      is_basic = contains basic_subtype row.subtypes;
      legalities = row.legalities;
    }
    ∷ []

-- The `flatMap` over the cards of the deck.
unfoldable pub validation_cards : List CardRow → List DeckCard → List ValidationCard
validation_cards table [] = []
validation_cards table (dealt ∷ cards) =
    row_card dealt.card dealt.count (get_row dealt.card table) ++ validation_cards table cards

-- `available.get(cardId) ?? 0`; an Owned only pool has no `Infinity`.
abbrev pub held_of : Option PoolCard → ℕ
held_of none = 0
held_of (some c) = elim c.available [ copies n ↦ n | unlimited ↦ 0 ]

unfoldable pub verdict :
    List CardRow → ℕ → Bool → ℕ → List DeckCard → List PoolCard → DeckValidation
verdict table format owned_only deck_size cards pool = validate_deck (record {
  format = format;
  owned_only = owned_only;
  deck_size = deck_size;
  cards = validation_cards table cards;
  available =
      if owned_only
      then map (λ dealt. (dealt.card, held_of (get_card dealt.card pool))) cards
      else [];
})

pub record RandomDeckRequest : Type 0 where
  pub format : ℕ
  pub owned_only : Bool
  pub types : List ℕ
  pub has_seed : Bool

-- A BadRequestException, an InternalServerErrorException, or the answer.
pub data RandomDeckAnswer : Type 0 where
  refused failed : RandomDeckAnswer
  answered : GenerateResult → RandomDeckAnswer

-- The guards of `generate`.
unfoldable pub is_refused : Bool → RandomDeckRequest → List CardRow → Bool
is_refused is_production request table =
    request.has_seed && is_production
    || not (every (λ type. contains type (allowed_types table request.format)) request.types)

abbrev pub owner_of : Bool → (ℕ → ℕ) → Owner
owner_of true available = some available
owner_of false available = none

module _ {S : Type 0} (rng : Source S) (seeded : ℕ → S) (deck_size : ℕ) where
  abbrev pub after_generate :
      RandomDeckAnswer
      → List CardRow
      → RandomDeckRequest
      → List PoolCard
      → GenerateResult
      → RandomDeckAnswer
  after_generate retry table request pool (shortfall short) = answered (shortfall short)
  after_generate retry table request pool (deck types cards) =
      if (verdict table request.format request.owned_only deck_size cards pool).valid
      then answered (deck types cards)
      else retry

  -- The loop over the attempts, of which `left` are left.
  unfoldable pub attempt_from :
      ℕ → ℕ → List CardRow → RandomDeckRequest → List PoolCard → RandomDeckAnswer
  attempt_from zero attempt table request pool = failed
  attempt_from (suc left) attempt table request pool =
      let retry = attempt_from left (suc attempt) table request pool in
      after_generate retry table request pool
        (generate_deck rng pool request.types deck_size (seeded attempt)).result

  unfoldable pub generate : Bool → RandomDeckRequest → List CardRow → (ℕ → ℕ) → RandomDeckAnswer
  generate is_production request table available =
      let pool = load_pool table request.format (owner_of request.owned_only available) in
      let answer = attempt_from 5 0 table request pool in
      if is_refused is_production request table then refused else answer
