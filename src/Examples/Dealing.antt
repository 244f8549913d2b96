-- ===== src/Examples/Dealing.antt =====
-- Random decks from a small card table: the theorems at it, and runs of the generator.
use pokedrop.Base.{
  ℕ, ◌+◌, ◌%◌, ◌<◌, ◌≡◌, refl, true, false, Option, none, some, List, [], ◌∷◌, length, filter_by,
  sort_by, ◌&&◌, arith,
}
use pokedrop.Base.Dict.{lookup}
use pokedrop.Decks.{legal}
use pokedrop.RandomDeck.Draft.{
  PoolCard, new_draft, Fits, room, copy_limit_key, add, change, rollback, since, add_all,
  pokemon_supertype, trainer_supertype, energy_supertype, basic_subtype, supporter_subtype,
  stadium_subtype,
}
use pokedrop.RandomDeck.Grown.{Grown, here, added, rollback_round_trip}
use pokedrop.RandomDeck.Catalog.{
  catalog_of, named, of_types, evolves, has_room, resolve_down, resolve_line,
}
use pokedrop.RandomDeck.Catalog.Ending.{resolve_line-total}
use pokedrop.RandomDeck.Shuffle.{Source}
use pokedrop.RandomDeck.Choice.{generate_deck}
use pokedrop.RandomDeck.Service.{
  owner_of, CardRow, load_pool, RandomDeckRequest, generate, answered, is_refused, allowed_types,
  pool_card,
}
use pokedrop.RandomDeck.Service.Loading.{IsKeyedTable, load_pool-IsKeyed}
use pokedrop.RandomDeck.Service.Answers.{Passes, generate-answered}
use pokedrop.RandomDeck.Choice.Dealing.{IsResult, generate_deck-IsResult}

counting_lt : (max s : ℕ) → 0 < max → s % max < max
counting_lt max s h = grind arith

abbrev counting : Source ℕ
counting = record {
  int = λ max s. record { value = s % max; state = s + 1 };
  int_lt = λ max s h. counting_lt max s h;
}

abbrev row : ℕ → ℕ → ℕ → List ℕ → List ℕ → Option ℕ → Option ℕ → CardRow
row id name supertype subtypes types evolves_from energy_type = record {
  id = id;
  name = name;
  base_name = name;
  supertype = supertype;
  subtypes = subtypes;
  types = types;
  evolves_from = evolves_from;
  energy_type = energy_type;
  legalities = (0, legal) ∷ [];
}

abbrev basic_fire : ℕ → CardRow
basic_fire id = row id id pokemon_supertype (basic_subtype ∷ []) (1 ∷ []) none none

abbrev stage_one : ℕ → ℕ → CardRow
stage_one id below = row id id pokemon_supertype (8 ∷ []) (1 ∷ []) (some below) none

abbrev item : ℕ → CardRow
item id = row id id trainer_supertype [] [] none none

abbrev supporter : ℕ → CardRow
supporter id = row id id trainer_supertype (supporter_subtype ∷ []) [] none none

abbrev table : List CardRow
table =
    basic_fire 1
    ∷ stage_one 2 1
    ∷ basic_fire 3
    ∷ stage_one 4 3
    ∷ basic_fire 5
    ∷ basic_fire 6
    ∷ stage_one 7 6
    ∷ supporter 10
    ∷ supporter 11
    ∷ item 12
    ∷ item 13
    ∷ item 14
    ∷ row 15 15 trainer_supertype (stadium_subtype ∷ []) [] none none
    ∷ row 20 20 energy_supertype (basic_subtype ∷ []) [] none (some 1)
    ∷ []

abbrev request : RandomDeckRequest
request = record { format = 0; owned_only = false; types = 1 ∷ []; has_seed = false }

abbrev pool : List PoolCard
pool = load_pool table 0 none

table-IsKeyedTable : IsKeyedTable table
table-IsKeyedTable k = ground arith

generate_deck-IsResult_example : IsResult pool 60 (generate_deck counting pool (1 ∷ []) 60 3).result
generate_deck-IsResult_example =
    generate_deck-IsResult counting pool (load_pool-IsKeyed 0 none table table-IsKeyedTable) 60
      (1 ∷ []) 3 (omega arith) (omega arith)

request_open : is_refused true request table ≡ false
unfolding is_refused allowed_types lookup
request_open = refl

generate-answered_example :
    let dealt = load_pool table request.format (owner_of request.owned_only (λ _. 0)) in
    let result = (generate_deck counting dealt request.types 60 0).result in
    (generate counting (λ attempt. attempt) 60 true request table (λ _. 0) ≡ answered result)
    × IsResult dealt 60 result
    × Passes counting (λ attempt. attempt) 60 table table-IsKeyedTable request (λ _. 0) result
generate-answered_example =
    generate-answered counting (λ attempt. attempt) 60 table table-IsKeyedTable request (λ _. 0)
      true (omega arith) (omega arith) request_open

abbrev charmeleon : PoolCard
charmeleon = pool_card none (stage_one 2 1)

catalog_small : length (catalog_of pool).pokemon < 20
unfolding catalog_of load_pool lookup sort_by
catalog_small = omega arith

resolve_line-total_example :
    resolve_down
      (catalog_of pool)
      new_draft
      20
      (2 ∷ [])
      (some 1)
      (filter_by
        (λ c. of_types (1 ∷ []) c && (evolves (some 1) c && has_room new_draft c))
        (named (catalog_of pool) 2))
      []
    ≡ some (resolve_line charmeleon (catalog_of pool) new_draft (1 ∷ []))
resolve_line-total_example =
    resolve_line-total (catalog_of pool) new_draft charmeleon (1 ∷ []) 20 catalog_small

two-Fits : Fits 2 (room new_draft charmeleon)
unfolding room copy_limit_key
two-Fits = omega arith

one-Fits : Fits 1 (room (add new_draft charmeleon 2) charmeleon)
unfolding room copy_limit_key add change
one-Fits = omega arith

two_added : Grown (λ _. Unit) new_draft (add (add new_draft charmeleon 2) charmeleon 1)
two_added = added (added here charmeleon 2 tt two-Fits) charmeleon 1 tt one-Fits

rollback_round_trip_example :
    (rollback 0 (add (add new_draft charmeleon 2) charmeleon 1) ≡ new_draft)
    × (add_all (since 0 (add (add new_draft charmeleon 2) charmeleon 1)) new_draft
        ≡ add (add new_draft charmeleon 2) charmeleon 1)
rollback_round_trip_example = rollback_round_trip (λ _. Unit) two_added
