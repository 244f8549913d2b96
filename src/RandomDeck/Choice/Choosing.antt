-- ===== src/RandomDeck/Choice/Choosing.antt =====
-- The loop of `generateDeck` over the candidate types, and what its answer is.
use pokedrop.Base.{
  ℕ, ◌≤◌, ◌≡◌, refl, Bool, true, false, ◌&&◌, not, Option, none, some, List, [], ◌∷◌, ◌==◌, ltb,
  if◌then◌else◌, length, filter_by, get_elem?, All, All-append, arith,
}
use pokedrop.RandomDeck.Draft.{PoolCard}
use pokedrop.RandomDeck.Pooled.{IsKeyed}
use pokedrop.RandomDeck.Catalog.{catalog_of}
use pokedrop.RandomDeck.Shuffle.{Source}
use pokedrop.RandomDeck.Trainers.{is_below}
use pokedrop.RandomDeck.Generator.{GenerateResult, deck, shortfall, Shortfall, Built, build}
use pokedrop.RandomDeck.Choice.{
  pair_with, sets_from, candidate_type_sets, BestShort, informative, is_better, best_or,
  after_build, build_first, generate_deck,
}
use pokedrop.RandomDeck.Generator.Staffing.{IsTypes}
use pokedrop.RandomDeck.Generator.Building.{IsAnswer, build-IsAnswer}

pair_with-IsTypes : (type : ℕ) (other : Option ℕ) → All IsTypes (pair_with type other)
pair_with-IsTypes type none = tt
pair_with-IsTypes type (some other) = ((omega arith, omega arith), tt)

if-IsTypes :
    (b : Bool) (sets : List (List ℕ)) → All IsTypes sets → All IsTypes (if b then sets else [])
if-IsTypes true sets h = h
if-IsTypes false sets h = tt

abbrev IsBelow : Shortfall → Type 0
IsBelow short = is_below short.have short.need ≡ true

abbrev IsBestShort : Option BestShort → Type 0
IsBestShort none = Unit
IsBestShort (some best) = IsBelow best.short

if-IsBestShort :
    (b : Bool) (x y : Option BestShort)
    → IsBestShort x
    → IsBestShort y
    → IsBestShort (if b then x else y)
if-IsBestShort true x y h k = h
if-IsBestShort false x y h k = k

best_or-IsBelow :
    (best : Option BestShort) (types : List ℕ) → IsBestShort best → IsBelow (best_or best types)
best_or-IsBelow none types h = refl
best_or-IsBelow (some best) types h = h

module _ {S : Type 0} (rng : Source S) where
  sets_from-IsTypes :
      (order types : List ℕ) (s : S) → All IsTypes (sets_from rng order types s).items
  unfolding sets_from
  sets_from-IsTypes order [] s = tt
  sets_from-IsTypes order (type ∷ types) s =
      let coin = rng.int 2 s in
      let others = filter_by (λ other. not (other == type)) order in
      let other = rng.int (length others) coin.state in
      let paired = ltb 1 (length order) && coin.value == 1 in
      let pair = pair_with type (get_elem? others other.value) in
      let after = if paired then other.state else if ltb 1 (length order) then coin.state else s in
      let rest = sets_from rng order types after in
      let tail : All IsTypes ((type ∷ []) ∷ rest.items) =
        ((omega arith, omega arith), sets_from-IsTypes order types after) in
      All-append IsTypes (if paired then pair else []) ((type ∷ []) ∷ rest.items)
        (if-IsTypes paired pair (pair_with-IsTypes type (get_elem? others other.value))) tail

  candidate_type_sets-IsTypes :
      (pool : List PoolCard) (requested : List ℕ) (s : S)
      → length requested ≤ 2
      → All IsTypes (candidate_type_sets rng pool requested s).items
  unfolding candidate_type_sets
  candidate_type_sets-IsTypes pool [] s h = sets_from-IsTypes _ _ _
  candidate_type_sets-IsTypes pool (type ∷ types) s h = ((omega arith, omega arith), tt)

  module _ (pool : List PoolCard) (keyed : IsKeyed pool) (deck_size : ℕ) where
    abbrev IsGood : GenerateResult → Type 0
    IsGood = IsAnswer rng pool keyed deck_size

    after_build-IsGood :
        (next : Option BestShort → S → Built S) (best : Option BestShort) (count : ℕ) (s : S)
        (result : GenerateResult)
        → IsGood result
        → IsBestShort best
        → ((b : Option BestShort) (t : S) → IsBestShort b → IsGood (next b t).result)
        → IsGood (after_build next best count s result).result
    after_build-IsGood next best count s (deck types cards) h b k = h
    after_build-IsGood next best count s (shortfall short) h b k =
        let score = informative short count in
        k _ s (
          if-IsBestShort (is_better score best) (some (record { short = short; score = score }))
            best h b)

    build_first-IsGood :
        (requested : List ℕ) (sets : List (List ℕ)) (best : Option BestShort) (s : S)
        → 33 ≤ deck_size
        → All IsTypes sets
        → IsBestShort best
        → IsGood (build_first rng (catalog_of pool) requested deck_size sets best s).result
    unfolding build_first
    build_first-IsGood requested [] best s big h b = best_or-IsBelow best requested b
    build_first-IsGood requested (types ∷ sets) best s big h b =
        let built = build rng (catalog_of pool) types deck_size s in
        after_build-IsGood (build_first rng (catalog_of pool) requested deck_size sets) best
          (length types) built.state built.result
          (build-IsAnswer rng pool keyed types deck_size s h.0 big) b
          (λ c t k. build_first-IsGood requested sets c t big h.1 k)

    pub generate_deck-IsAnswer :
        (requested : List ℕ) (s : S)
        → length requested ≤ 2
        → 33 ≤ deck_size
        → IsAnswer rng pool keyed deck_size (generate_deck rng pool requested deck_size s).result
    unfolding generate_deck
    generate_deck-IsAnswer requested s h big =
        let sets = candidate_type_sets rng pool requested s in
        build_first-IsGood requested sets.items none sets.state big
          (candidate_type_sets-IsTypes pool requested s h) tt
