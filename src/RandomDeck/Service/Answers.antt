-- ===== src/RandomDeck/Service/Answers.antt =====
-- What `RandomDeckService.generate` answers: the validator never refuses a generated deck.
use pokedrop.Base.{ℕ, ◌≤◌, ◌≡◌, refl, Bool, true, false, List, length}
use pokedrop.RandomDeck.Draft.{PoolCard}
use pokedrop.RandomDeck.Shuffle.{Source}
use pokedrop.RandomDeck.Generator.{GenerateResult, deck, shortfall}
use pokedrop.RandomDeck.Choice.{generate_deck}
use pokedrop.RandomDeck.Choice.Dealing.{IsResult, generate_deck-IsResult}
use pokedrop.RandomDeck.Service.{
  CardRow, load_pool, owner_of, RandomDeckRequest, RandomDeckAnswer, answered, is_refused, verdict,
  after_generate, attempt_from, generate,
}
use pokedrop.RandomDeck.Service.Loading.{IsKeyedTable, load_pool-IsKeyed}
use pokedrop.RandomDeck.Service.Verdict.{verdict-valid}

module _ {S : Type 0} (rng : Source S) (seeded : ℕ → S) (deck_size : ℕ) (table : List CardRow)
    (keyed : IsKeyedTable table) (request : RandomDeckRequest) (available : ℕ → ℕ) where
  abbrev pub pool : List PoolCard
  pool = load_pool table request.format (owner_of request.owned_only available)

  -- The validator's verdict on a deck that is answered.
  abbrev pub Passes : GenerateResult → Type 0
  Passes (deck types cards) =
      (verdict table request.format request.owned_only deck_size cards pool).valid ≡ true
  Passes (shortfall short) = Unit

  IsResult-Passes : (result : GenerateResult) → IsResult pool deck_size result → Passes result
  IsResult-Passes (deck types cards) h =
      verdict-valid table request.format keyed deck_size request.owned_only available cards h
  IsResult-Passes (shortfall short) h = tt

  after_generate-answered :
      (retry : RandomDeckAnswer) (result : GenerateResult)
      → IsResult pool deck_size result
      → after_generate rng seeded deck_size retry table request pool result ≡ answered result
  after_generate-answered retry (deck types cards) h =
      rw (verdict-valid table request.format keyed deck_size request.owned_only available cards h)
  after_generate-answered retry (shortfall short) h = refl

  -- Where the card table has one row for an id, at most two types are asked for and a deck has 33
  -- cards or more, a request for a random deck that is not refused as a bad request is answered
  -- by what the generator returns to the first attempt's source: a deck of which the validator's
  -- verdict is that it is valid, and which is legal over the pool, or a shortfall that has less
  -- than it needs.
  pub generate-answered :
      (is_production : Bool)
      → length request.types ≤ 2
      → 33 ≤ deck_size
      → is_refused is_production request table ≡ false
      → let result = (generate_deck rng pool request.types deck_size (seeded 0)).result in
        (generate rng seeded deck_size is_production request table available ≡ answered result)
        × IsResult pool deck_size result
        × Passes result
  unfolding generate attempt_from
  generate-answered is_production h big open_to =
      let keyed_pool =
        load_pool-IsKeyed request.format (owner_of request.owned_only available) table keyed in
      let good =
        generate_deck-IsResult rng pool keyed_pool deck_size request.types (seeded 0) h big in
      let result = (generate_deck rng pool request.types deck_size (seeded 0)).result in
      (rw open_to (after_generate-answered _ result good), good, IsResult-Passes result good)
