-- ===== src/RandomDeck/Choice/Dealing.antt =====
-- What a generated deck is, read from its list of cards alone.
use pokedrop.Base.{
  ℕ, ◌≤◌, ◌<◌, ◌≡◌, refl, ◌∙◌, Bool, true, Option, none, some, List, [], ◌∷◌, ltb, if◌then◌else◌,
  length, filter_by, map, sum_of, All, Bool-cases, inl, inr, arith,
}
use pokedrop.RandomDeck.Draft.{
  Fits, PoolCard, Draft, is_pokemon, is_trainer, is_stadium, any, total,
}
use pokedrop.RandomDeck.Pooled.{IsKeyed, IsPooled, All-IsPooled, All-map, get_card}
use pokedrop.RandomDeck.Rooms.{has_key, is_single}
use pokedrop.RandomDeck.Limits.{Grown-IsFair}
use pokedrop.RandomDeck.Catalog.{catalog_of}
use pokedrop.RandomDeck.Shuffle.{Source}
use pokedrop.RandomDeck.Trainers.{is_below}
use pokedrop.RandomDeck.Generator.{GenerateResult, deck, shortfall, DeckCard, cards_of}
use pokedrop.RandomDeck.Choice.{generate_deck}
use pokedrop.RandomDeck.Generator.Parts.{by_id-IsKeyed, by_id-IsPooled}
use pokedrop.RandomDeck.Generator.Building.{IsFinished, IsAnswer}
use pokedrop.RandomDeck.Choice.Choosing.{generate_deck-IsAnswer}

abbrev pub counted_if : (PoolCard → Bool) → ℕ → Option PoolCard → ℕ
counted_if test n none = 0
counted_if test n (some c) = if test c then n else 0

-- The copies in a deck of the pool's cards that meet a test.
abbrev pub in_deck : List PoolCard → (PoolCard → Bool) → List DeckCard → ℕ
in_deck pool test = sum_of (λ dealt. counted_if test dealt.count (get_card dealt.card pool))

-- The entry is of a card of the pool, within what is available of it.
abbrev pub IsHeld : List PoolCard → DeckCard → Type 0
IsHeld pool dealt =
    (c : PoolCard) × (get_card dealt.card pool ≡ some c)
    × (0 < dealt.count)
    × Fits dealt.count c.available

pub record IsLegalDeck (pool : List PoolCard) (deck_size : ℕ) (cards : List DeckCard) : Type 0 where
  pub sized : sum_of (λ dealt. dealt.count) cards ≡ deck_size
  pub held : All (IsHeld pool) cards
  pub named : (k : ℕ) → in_deck pool (has_key k) cards ≤ 4
  pub single : (kind : ℕ) → in_deck pool (is_single kind) cards ≤ 1
  pub pokemon : (12 ≤ in_deck pool is_pokemon cards) × (in_deck pool is_pokemon cards ≤ 18)
  pub trainers : (8 ≤ in_deck pool is_trainer cards) × (in_deck pool is_trainer cards ≤ 15)
  pub stadiums : in_deck pool is_stadium cards ≤ 2

-- A deck is legal; a shortfall needs more than there is.
abbrev pub IsResult : List PoolCard → ℕ → GenerateResult → Type 0
IsResult pool deck_size (deck types cards) = IsLegalDeck pool deck_size cards
IsResult pool deck_size (shortfall short) = is_below short.have short.need ≡ true

module _ (pool : List PoolCard) (d : Draft) where
  abbrev cards_from : List PoolCard → List DeckCard
  cards_from xs =
      map (λ c. record { card = c.id; count = d.counts c.id })
        (filter_by (λ c. ltb 0 (d.counts c.id)) xs)

  cards_from-in_deck :
      (test : PoolCard → Bool) (xs : List PoolCard)
      → All (IsPooled pool) xs
      → in_deck pool test (cards_from xs) ≡ total xs test d
  unfolding total
  cards_from-in_deck test [] h = refl
  cards_from-in_deck test (x ∷ xs) h =
      let rest = cards_from-in_deck test xs h.1 in
      elim (Bool-cases (ltb 0 (d.counts x.id))) [
        | inl e ↦ rw (e, h.0, rest)
        | inr e ↦ rw (e, rest) (ground (arith, e))
      ]

  cards_from-sum :
      (xs : List PoolCard) → sum_of (λ dealt. dealt.count) (cards_from xs) ≡ total xs any d
  unfolding total
  cards_from-sum [] = refl
  cards_from-sum (x ∷ xs) =
      let rest = cards_from-sum xs in
      elim (Bool-cases (ltb 0 (d.counts x.id))) [
        | inl e ↦ rw (e, rest)
        | inr e ↦ rw (e, rest) (ground (arith, e))
      ]

  cards_from-IsHeld :
      (xs : List PoolCard)
      → All (IsPooled pool) xs
      → All (λ c. Fits (d.counts c.id) c.available) xs
      → All (IsHeld pool) (cards_from xs)
  cards_from-IsHeld [] h f = tt
  cards_from-IsHeld (x ∷ xs) h f =
      let rest = cards_from-IsHeld xs h.1 f.1 in
      elim (Bool-cases (ltb 0 (d.counts x.id))) [
        | inl e ↦ rw e ((x, h.0, ground (arith, e), f.0), rest)
        | inr e ↦ rw e rest
      ]

module _ {S : Type 0} (rng : Source S) (pool : List PoolCard) (keyed : IsKeyed pool)
    (deck_size : ℕ) where
  abbrev sorted : List PoolCard
  sorted = (catalog_of pool).by_id

  finished-IsLegalDeck :
      (d : Draft)
      → IsFinished rng pool keyed deck_size d
      → IsLegalDeck pool deck_size (cards_of sorted d)
  unfolding cards_of
  finished-IsLegalDeck d f =
      let ids = by_id-IsKeyed pool keyed in
      let fair = Grown-IsFair sorted ids f.grown in
      let count = λ (test : PoolCard → Bool).
        cards_from-in_deck pool d test sorted (by_id-IsPooled pool keyed) in
      record {
        sized = cards_from-sum pool d sorted ∙ f.sized;
        held = cards_from-IsHeld pool d sorted (by_id-IsPooled pool keyed) (
            All-map (IsPooled sorted) (λ c. Fits (d.counts c.id) c.available) sorted fair.within
              (All-IsPooled sorted ids));
        named = λ k. omega (arith, count (has_key k), fair.named k, fair.at_most k);
        single =
            λ kind. omega (arith, count (is_single kind), fair.single kind, fair.at_most_one kind);
        pokemon = (
          omega (arith, count is_pokemon, f.pokemon_least),
          omega (arith, count is_pokemon, f.pokemon_most),
        );
        trainers = (
          omega (arith, count is_trainer, f.trainers_least),
          omega (arith, count is_trainer, f.trainers_most),
        );
        stadiums = omega (arith, count is_stadium, f.stadiums_most);
      }

  answer-IsResult :
      (result : GenerateResult)
      → IsAnswer rng pool keyed deck_size result
      → IsResult pool deck_size result
  answer-IsResult (deck types cards) (d, same, f) = rw same (finished-IsLegalDeck d f)
  answer-IsResult (shortfall short) h = h

  -- Whatever is drawn, for at most two types, a pool with one card for an id and a deck of 33
  -- cards or more, the generator answers a deck of exactly that size, of the pool's cards within
  -- what is available of each, with at most four copies under a name but of basic Energy, at most
  -- one Radiant, one Star and one ACE SPEC card, 12 to 18 Pokemon, 8 to 15 Trainers and at most
  -- two Stadiums, or a shortfall that has less than it needs.
  pub generate_deck-IsResult :
      (requested : List ℕ) (s : S)
      → length requested ≤ 2
      → 33 ≤ deck_size
      → IsResult pool deck_size (generate_deck rng pool requested deck_size s).result
  generate_deck-IsResult requested s h big =
      answer-IsResult (generate_deck rng pool requested deck_size s).result
        (generate_deck-IsAnswer rng pool keyed deck_size requested s h big)
