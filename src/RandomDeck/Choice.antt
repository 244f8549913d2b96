-- ===== src/RandomDeck/Choice.antt =====
-- apps/api/src/decks/random-deck/random-deck.generator.ts: `generateDeck`, the loop over the types that
-- a deck can be of. The texts of the messages are left out.
pub mod Choosing
pub mod Dealing
use pokedrop.Base.{
  ℕ, zero, suc, ◌+◌, ◌-◌, ◌*◌, Bool, true, false, ◌&&◌, ◌||◌, not, Option, none, some, List, [],
  ◌∷◌, ◌++◌, ◌==◌, ltb, leb, if◌then◌else◌, length, filter_by, some_of, map, get_elem?,
}
use pokedrop.RandomDeck.Draft.{
  Amount, copies, unlimited, PoolCard, Draft, new_draft, min, is_pokemon, is_trainer, is_supporter,
  is_basic_energy, any, total,
}
use pokedrop.RandomDeck.Catalog.{Catalog, catalog_of, first_type_is, same_option, energy_of}
use pokedrop.RandomDeck.Shuffle.{Source, shuffle, between}
use pokedrop.RandomDeck.Lines.{Drawn, Placed, build_pokemon}
use pokedrop.RandomDeck.Trainers.{
  Cap, Filled, add_trainers, plus, is_below, room_of, Short, Energized, add_energy,
}
use pokedrop.RandomDeck.Generator.{
  GenerateResult, deck, shortfall, ShortfallCode, not_enough_pokemon, not_enough_trainers,
  not_enough_energy, Shortfall, Built, pokemon_shortfall, or_all, build,
}

-- `BASIC_ENERGY_TYPES`
abbrev pub basic_energy_types : List ℕ
basic_energy_types = 0 ∷ 1 ∷ 2 ∷ 3 ∷ 4 ∷ 5 ∷ 6 ∷ 7 ∷ 8 ∷ []

unfoldable pub generatable_types : List PoolCard → List ℕ
generatable_types pool =
    filter_by
      (λ type. some_of (λ c. is_basic_energy c && same_option c.energy_type (some type)) pool)
      basic_energy_types

abbrev pub types_of_pokemon : List PoolCard → List ℕ
types_of_pokemon pool =
    filter_by (λ type. some_of (λ c. is_pokemon c && first_type_is type c.types) pool)
      basic_energy_types

abbrev pub pair_with : ℕ → Option ℕ → List (List ℕ)
pair_with type none = []
pair_with type (some other) = (type ∷ other ∷ []) ∷ []

-- A score is a fraction; `copies` only, since a shortfall has less than it needs.
pub record Score : Type 0 where
  pub num : ℕ
  pub den : ℕ

abbrev pub rank : ShortfallCode → ℕ
rank not_enough_pokemon = 0
rank not_enough_trainers = 1
rank not_enough_energy = 2

abbrev amount_within : Amount → ℕ → ℕ
amount_within (copies n) need = min n need
amount_within unlimited need = need

unfoldable pub informative : Shortfall → ℕ → Score
informative short types = record {
  num =
      (rank short.code * 4 + (if types == 1 then 1 else 0)) * short.need
      + 2 * amount_within short.have short.need;
  den = short.need;
}

pub record BestShort : Type 0 where
  pub short : Shortfall
  pub score : Score

abbrev pub is_better : Score → Option BestShort → Bool
is_better score none = true
is_better score (some best) = ltb (best.score.num * score.den) (score.num * best.score.den)

abbrev pub best_or : Option BestShort → List ℕ → Shortfall
best_or none types = pokemon_shortfall types 0
best_or (some best) types = best.short

-- What follows a candidate that was built: `next` is the loop over the other candidates.
abbrev pub after_build :
    {S : Type 0}
    → (Option BestShort → S → Built S)
    → Option BestShort
    → ℕ
    → S
    → GenerateResult
    → Built S
after_build next best count s (deck types cards) = record { result = deck types cards; state = s }
after_build next best count s (shortfall short) =
    let score = informative short count in
    next (if is_better score best then some (record { short = short; score = score }) else best) s

module _ {S : Type 0} (rng : Source S) where
  -- The loop of `candidateTypeSets` over the types in their random order.
  unfoldable pub sets_from : List ℕ → List ℕ → S → Drawn (List (List ℕ)) S
  sets_from order [] s = record { items = []; state = s }
  sets_from order (type ∷ types) s =
      let coin = rng.int 2 s in
      let others = filter_by (λ other. not (other == type)) order in
      let other = rng.int (length others) coin.state in
      let paired = ltb 1 (length order) && coin.value == 1 in
      let pair = if paired then pair_with type (get_elem? others other.value) else [] in
      let after = if paired then other.state else if ltb 1 (length order) then coin.state else s in
      let rest = sets_from order types after in
      record { items = pair ++ ((type ∷ []) ∷ rest.items); state = rest.state }

  unfoldable pub candidate_type_sets : List PoolCard → List ℕ → S → Drawn (List (List ℕ)) S
  candidate_type_sets pool (type ∷ types) s = record { items = (type ∷ types) ∷ []; state = s }
  candidate_type_sets pool [] s =
      let order =
        shuffle rng
          (or_all (generatable_types pool) (or_all (types_of_pokemon pool) basic_energy_types)) s in
      sets_from order.items order.items order.state

  -- The loop of `generateDeck` over the candidates.
  unfoldable pub build_first : Catalog → List ℕ → ℕ → List (List ℕ) → Option BestShort → S → Built S
  build_first catalog requested deck_size [] best s = record {
    result = shortfall (best_or best requested);
    state = s;
  }
  build_first catalog requested deck_size (types ∷ sets) best s =
      let built = build rng catalog types deck_size s in
      after_build (build_first catalog requested deck_size sets) best (length types) built.state
        built.result

  unfoldable pub generate_deck : List PoolCard → List ℕ → ℕ → S → Built S
  generate_deck pool requested deck_size s =
      let sets = candidate_type_sets pool requested s in
      build_first (catalog_of pool) requested deck_size sets.items none sets.state
