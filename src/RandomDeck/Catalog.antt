-- ===== src/RandomDeck/Catalog.antt =====
-- apps/api/src/decks/random-deck/random-deck.generator.ts: `Catalog`, the pool split the way the
-- generator reads it, and `resolveLine`. A lookup in one of its maps by name or by type is the list
-- of the cards with that name or type, in the order in which the loop that fills the map meets them.
pub mod Resolving
pub mod Ending
use pokedrop.Base.{
  ℕ, zero, suc, Bool, true, false, ◌&&◌, ◌||◌, not, Option, none, some, List, [], ◌∷◌, ◌==◌, leb,
  if◌then◌else◌, length, filter_by, sort_by, some_of, contains,
}
use pokedrop.RandomDeck.Draft.{
  PoolCard, Draft, room, is_some, is_pokemon, is_trainer, is_supporter, is_basic_energy,
  basic_subtype,
}

pub record Catalog : Type 0 where
  pub by_id : List PoolCard
  pub pokemon : List PoolCard
  pub supporters : List PoolCard
  pub other_trainers : List PoolCard
  pub basic_energy : List PoolCard

unfoldable pub catalog_of : List PoolCard → Catalog
catalog_of pool =
    let sorted = sort_by (λ a b. leb a.id b.id) pool in
    record {
      by_id = sorted;
      pokemon = filter_by is_pokemon sorted;
      supporters = filter_by is_supporter sorted;
      other_trainers = filter_by (λ c. is_trainer c && not (is_supporter c)) sorted;
      basic_energy = filter_by is_basic_energy sorted;
    }

abbrev pub same_option : Option ℕ → Option ℕ → Bool
same_option none none = true
same_option (some a) (some b) = a == b
same_option _ _ = false

-- `this.pokemonByName.get(name) ?? []`
abbrev pub named : Catalog → ℕ → List PoolCard
named catalog name = filter_by (λ c. c.name == name) catalog.pokemon

unfoldable pub energy_of : Catalog → ℕ → List PoolCard
energy_of catalog type = filter_by (λ c. same_option c.energy_type (some type)) catalog.basic_energy

-- `card.types[0] === type`
abbrev pub first_type_is : ℕ → List ℕ → Bool
first_type_is type [] = false
first_type_is type (t ∷ ts) = t == type

abbrev pub of_types : List ℕ → PoolCard → Bool
of_types types c = some_of (λ type. first_type_is type c.types) types

abbrev pub is_null : Option ℕ → Bool
is_null none = true
is_null (some a) = false

abbrev pub evolves : Option ℕ → PoolCard → Bool
evolves from c =
    same_option c.evolves_from from && (not (is_null from) || contains basic_subtype c.subtypes)

abbrev pub has_room : Draft → PoolCard → Bool
has_room d c = is_some (room d c)

abbrev pub find_first : (PoolCard → Bool) → List PoolCard → Option PoolCard
find_first test [] = none
find_first test (c ∷ cs) = if test c then some c else find_first test cs

abbrev or_else : Option PoolCard → Option PoolCard → Option PoolCard
or_else none other = other
or_else (some c) other = some c

-- The printing that says what the stage below evolves from.
abbrev pub next_below : List PoolCard → Option PoolCard
next_below lower =
    or_else (find_first (evolves none) lower) (find_first (λ c. not (is_null c.evolves_from)) lower)

abbrev pub Line : Type 0
Line = List (List PoolCard)

-- `stages.length <= MAX_STAGES ? stages : null`
abbrev pub within_stages : Line → Option Line
within_stages stages = if leb (length stages) 3 then some stages else none

-- Whether the loop goes on, and the rest of its body where it does: `down` is the next round.
abbrev pub step_down :
    (List ℕ → Option ℕ → List PoolCard → Line → Option (Option Line))
    → Catalog
    → Draft
    → List ℕ
    → ℕ
    → Line
    → Option PoolCard
    → Option (Option Line)
step_down down catalog d seen from stages none = some none
step_down down catalog d seen from stages (some next) =
    down (from ∷ seen) next.evolves_from
      (filter_by (evolves next.evolves_from) (filter_by (has_room d) (named catalog from))) stages

abbrev pub round_of :
    (List ℕ → Option ℕ → List PoolCard → Line → Option (Option Line))
    → Catalog
    → Draft
    → List ℕ
    → Option ℕ
    → Line
    → Option (Option Line)
round_of down catalog d seen none stages = some (within_stages stages)
round_of down catalog d seen (some from) stages =
    let lower = filter_by (has_room d) (named catalog from) in
    let rest = step_down down catalog d seen from stages (next_below lower) in
    if contains from seen then some none else rest

-- The loop of `resolveLine`, with fuel for its rounds: `none` where the fuel runs out.
unfoldable pub resolve_down :
    Catalog → Draft → ℕ → List ℕ → Option ℕ → List PoolCard → Line → Option (Option Line)
resolve_down catalog d zero seen from printings stages = none
resolve_down catalog d (suc fuel) seen from printings stages =
    let rest = round_of (resolve_down catalog d fuel) catalog d seen from (printings ∷ stages) in
    if length printings == 0 then some none else rest

abbrev pub or_null : Option (Option Line) → Option Line
or_null none = none
or_null (some line) = line

-- Each round but the first reads a name that was not seen, of which the catalog has a card.
unfoldable pub resolve_line : PoolCard → Catalog → Draft → List ℕ → Option Line
resolve_line top catalog d types = or_null (
    resolve_down catalog d (suc (length catalog.pokemon)) (top.name ∷ []) top.evolves_from
      (filter_by (λ c. of_types types c && (evolves top.evolves_from c && has_room d c))
        (named catalog top.name))
      [])
