-- ===== src/RandomDeck/Generator.antt =====
-- apps/api/src/decks/random-deck/random-deck.generator.ts: `build`. The texts of
-- the messages are left out.
pub mod Parts
pub mod Staffing
pub mod Building
use pokedrop.Base.{
  ℕ, zero, suc, ◌+◌, ◌-◌, ◌*◌, Bool, true, false, ◌&&◌, ◌||◌, not, Option, none, some, List, [],
  ◌∷◌, ◌++◌, ◌==◌, ltb, leb, if◌then◌else◌, length, filter_by, some_of, map, get_elem?,
}
use pokedrop.RandomDeck.Draft.{
  Amount, copies, unlimited, PoolCard, Draft, new_draft, min, is_pokemon, is_trainer, is_supporter,
  is_basic_energy, any, total,
}
use pokedrop.RandomDeck.Catalog.{Catalog, catalog_of, first_type_is, same_option, energy_of}
use pokedrop.RandomDeck.Shuffle.{Source, shuffle, between}
use pokedrop.RandomDeck.Lines.{Drawn, Placed, build_pokemon}
use pokedrop.RandomDeck.Trainers.{
  Cap, Filled, add_trainers, plus, is_below, room_of, Short, Energized, add_energy,
}

pub data ShortfallCode : Type 0 where
  not_enough_pokemon not_enough_trainers not_enough_energy : ShortfallCode

pub record Shortfall : Type 0 where
  pub code : ShortfallCode
  pub type : Option ℕ
  pub have : Amount
  pub need : ℕ

pub record DeckCard : Type 0 where
  pub card : ℕ
  pub count : ℕ

pub data GenerateResult : Type 0 where
  deck : List ℕ → List DeckCard → GenerateResult
  shortfall : Shortfall → GenerateResult

pub record Built (S : Type 0) : Type 0 where
  pub result : GenerateResult
  pub state : S

abbrev pub head_of : List ℕ → Option ℕ
head_of [] = none
head_of (type ∷ types) = some type

abbrev pub pokemon_shortfall : List ℕ → ℕ → Shortfall
pokemon_shortfall types have = record {
  code = not_enough_pokemon;
  type = head_of types;
  have = copies have;
  need = 12;
}

abbrev trainer_shortfall : ℕ → Shortfall
trainer_shortfall have = record {
  code = not_enough_trainers;
  type = none;
  have = copies have;
  need = 8;
}

abbrev energy_shortfall : Short → Shortfall
energy_shortfall short = record {
  code = not_enough_energy;
  type = some short.type;
  have = short.have;
  need = short.need;
}

abbrev pub trainer_cap : ℕ → Cap
trainer_cap max = record { test = is_trainer; max = max }

abbrev pub supporter_cap : ℕ → Cap
supporter_cap max = record { test = is_supporter; max = max }

-- The cards of a finished draft, in the order of their ids.
unfoldable pub cards_of : List PoolCard → Draft → List DeckCard
cards_of pool d =
    map (λ c. record { card = c.id; count = d.counts c.id })
      (filter_by (λ c. ltb 0 (d.counts c.id)) pool)

-- The types that a Pokemon of the deck has, or all of them.
abbrev pub or_all : List ℕ → List ℕ → List ℕ
or_all [] types = types
or_all (type ∷ used) types = type ∷ used

unfoldable pub played_types : List PoolCard → Draft → List ℕ → List ℕ
played_types pool d types =
    or_all
      (filter_by
        (λ type.
          some_of (λ c. ltb 0 (d.counts c.id) && (is_pokemon c && first_type_is type c.types)) pool)
        types)
      types

abbrev pub energy_room : Catalog → Draft → List ℕ → Amount
energy_room catalog d [] = copies 0
energy_room catalog d (type ∷ types) =
    plus (room_of d (energy_of catalog type)) (energy_room catalog d types)

module _ {S : Type 0} (rng : Source S) (catalog : Catalog) where
  abbrev pub trainers_in : Draft → ℕ
  trainers_in = total catalog.by_id is_trainer

  -- The first two calls of `addTrainers`.
  unfoldable pub first_trainers : ℕ → ℕ → Filled S → Filled S
  first_trainers supporters target f =
      add_trainers catalog.by_id rng catalog.other_trainers (trainer_cap target ∷ []) false (
        add_trainers catalog.by_id rng catalog.supporters
          (supporter_cap supporters ∷ trainer_cap target ∷ []) false f)

  -- What a small collection adds.
  unfoldable pub more_trainers : ℕ → Filled S → Filled S
  more_trainers target f =
      let filled =
        add_trainers catalog.by_id rng catalog.supporters
          (supporter_cap 6 ∷ trainer_cap target ∷ []) true
          (add_trainers catalog.by_id rng catalog.other_trainers (trainer_cap target ∷ []) true
            f) in
      if ltb (trainers_in f.draft) target then filled else f

  unfoldable pub least_trainers : Filled S → Filled S
  least_trainers f =
      let filled = add_trainers catalog.by_id rng catalog.supporters (trainer_cap 8 ∷ []) true f in
      if ltb (trainers_in f.draft) 8 then filled else f

  -- What a deck adds that its Energy cannot fill.
  unfoldable pub fill_trainers : ℕ → List ℕ → Filled S → Filled S
  fill_trainers deck_size types f =
      let filled =
        add_trainers catalog.by_id rng catalog.supporters (supporter_cap 6 ∷ trainer_cap 15 ∷ [])
          false
          (add_trainers catalog.by_id rng catalog.other_trainers (trainer_cap 15 ∷ []) false f) in
      if is_below (energy_room catalog f.draft types) (deck_size - total catalog.by_id any f.draft)
      then filled
      else f

  abbrev pub finished_deck : List ℕ → Energized S → Option Short → Built S
  finished_deck types e (some short) = record {
    result = shortfall (energy_shortfall short);
    state = e.state;
  }
  finished_deck types e none = record {
    result = deck types (cards_of catalog.by_id e.draft);
    state = e.state;
  }

  -- `build` from the Energy on.
  unfoldable pub build_energy : List ℕ → ℕ → Filled S → Built S
  build_energy types deck_size f =
      let played = played_types catalog.by_id f.draft types in
      let e =
        add_energy rng catalog (deck_size - total catalog.by_id any f.draft) (length played) 0
          played f.draft f.state in
      finished_deck played e e.short

  -- `build` from the Trainers on.
  unfoldable pub build_trainers : List ℕ → ℕ → Filled S → Built S
  build_trainers types deck_size f =
      let target = between rng 12 14 f.state in
      let supporters = between rng 4 6 target.state in
      let g = least_trainers (
        more_trainers target.value (
          first_trainers supporters.value target.value
            (record { draft = f.draft; state = supporters.state }))) in
      let rest = build_energy types deck_size (fill_trainers deck_size types g) in
      if ltb (trainers_in g.draft) 8
      then record { result = shortfall (trainer_shortfall (trainers_in g.draft)); state = g.state }
      else rest

  unfoldable pub build : List ℕ → ℕ → S → Built S
  build types deck_size s =
      let p = build_pokemon rng catalog types new_draft s in
      let rest = build_trainers types deck_size (record { draft = p.draft; state = p.state }) in
      if ltb p.got 12
      then record { result = shortfall (pokemon_shortfall types p.got); state = p.state }
      else rest
