-- ===== src/RandomDeck/Generator/Building.antt =====
-- One build: the Pokemon, the Trainers and the Energy of a deck together.
use pokedrop.Base.{
  ℕ, ◌-◌, ◌≤◌, ◌≡◌, refl, Bool, true, false, Option, none, some, List, ltb, length, Bool-cases, inl,
  inr, arith,
}
use pokedrop.RandomDeck.Draft.{
  PoolCard, Draft, new_draft, is_pokemon, is_trainer, is_stadium, any, total,
}
use pokedrop.RandomDeck.Grown.{Grown, here, Grown-trans, Grown-weaken}
use pokedrop.RandomDeck.Pooled.{IsKeyed, IsPooled}
use pokedrop.RandomDeck.Limits.{total-new}
use pokedrop.RandomDeck.Catalog.{catalog_of}
use pokedrop.RandomDeck.Shuffle.{Source, between, between_bounds}
use pokedrop.RandomDeck.Lines.{build_pokemon}
use pokedrop.RandomDeck.Lines.Placing.{IsPokemon}
use pokedrop.RandomDeck.Lines.Attempts.{build_pokemon-IsBuilt}
use pokedrop.RandomDeck.Trainers.{Filled, is_below, Short, Energized, add_energy}
use pokedrop.RandomDeck.Trainers.Filling.{IsTrainer}
use pokedrop.RandomDeck.Trainers.Spreading.{IsBasicEnergy, add_energy-IsEnergized}
use pokedrop.RandomDeck.Generator.{
  GenerateResult, deck, shortfall, cards_of, played_types, first_trainers, more_trainers,
  least_trainers, fill_trainers, finished_deck, build_energy, build_trainers, build,
}
use pokedrop.RandomDeck.Generator.Parts.{
  by_id-IsKeyed, energy-All, energy-IsKeyed, pokemon-All, total-other, total-all, total-grows,
}
use pokedrop.RandomDeck.Generator.Staffing.{
  IsTypes, shares-need, played_types-IsTypes, IsTrainedFrom, first_trainers-IsTrainedFrom,
  more_trainers-IsTrainedFrom, least_trainers-IsTrainedFrom, fill_trainers-IsTrainedFrom,
}

module _ {S : Type 0} (rng : Source S) (pool : List PoolCard) (keyed : IsKeyed pool) where
  abbrev pub sorted : List PoolCard
  sorted = (catalog_of pool).by_id

  abbrev pub ids : IsKeyed sorted
  ids = by_id-IsKeyed pool keyed

  abbrev pub in_draft : (PoolCard → Bool) → Draft → ℕ
  in_draft = total sorted

  -- What a finished draft holds.
  pub record IsFinished (deck_size : ℕ) (d : Draft) : Type 0 where
    pub grown : Grown (IsPooled sorted) new_draft d
    pub sized : in_draft any d ≡ deck_size
    pub pokemon_least : 12 ≤ in_draft is_pokemon d
    pub pokemon_most : in_draft is_pokemon d ≤ 18
    pub trainers_least : 8 ≤ in_draft is_trainer d
    pub trainers_most : in_draft is_trainer d ≤ 15
    pub stadiums_most : in_draft is_stadium d ≤ 2

  abbrev pub IsAnswer : ℕ → GenerateResult → Type 0
  IsAnswer deck_size (deck types cards) =
      (d : Draft) × (cards ≡ cards_of sorted d) × IsFinished deck_size d
  IsAnswer deck_size (shortfall short) = is_below short.have short.need ≡ true

  pokemon-IsPooled : (c : PoolCard) → IsPokemon rng sorted ids c → IsPooled sorted c
  pokemon-IsPooled c q = q.0

  trainer-IsPooled : (c : PoolCard) → IsTrainer sorted ids c → IsPooled sorted c
  trainer-IsPooled c q = q.0

  energy-IsPooled : (c : PoolCard) → IsBasicEnergy sorted ids c → IsPooled sorted c
  energy-IsPooled c q = q.0

  -- A draft of Pokemon only.
  record IsFirst (d : Draft) : Type 0 where
    grown : Grown (IsPokemon rng sorted ids) new_draft d
    pokemon_least : 12 ≤ in_draft is_pokemon d
    pokemon_most : in_draft is_pokemon d ≤ 18
    all_pokemon : in_draft any d ≡ in_draft is_pokemon d
    no_trainer : in_draft is_trainer d ≡ 0
    no_stadium : in_draft is_stadium d ≡ 0

  build_pokemon-IsFirst :
      (d : Draft)
      → Grown (IsPokemon rng sorted ids) new_draft d
      → 12 ≤ in_draft is_pokemon d
      → in_draft is_pokemon d ≤ 18
      → IsFirst d
  build_pokemon-IsFirst d g low high =
      let others =
        total-other sorted ids (IsPokemon rng sorted ids) pokemon-IsPooled is_trainer
          (λ c q. ground (arith, q.1)) g in
      let stadiums =
        total-other sorted ids (IsPokemon rng sorted ids) pokemon-IsPooled is_stadium
          (λ c q. ground (arith, q.1)) g in
      let all =
        total-all sorted ids (IsPokemon rng sorted ids) pokemon-IsPooled is_pokemon (λ c q. q.1)
          g in
      record {
        grown = g;
        pokemon_least = low;
        pokemon_most = high;
        all_pokemon =
            omega
              (arith, all, total-new pool keyed any sorted, total-new pool keyed is_pokemon sorted);
        no_trainer = omega (arith, others, total-new pool keyed is_trainer sorted);
        no_stadium = omega (arith, stadiums, total-new pool keyed is_stadium sorted);
      }

  finished_deck-IsAnswer :
      (deck_size : ℕ) (types : List ℕ) (e : Energized S) (short : Option Short)
      → ((x : Short) → short ≡ some x → is_below x.have x.need ≡ true)
      → (short ≡ none → IsFinished deck_size e.draft)
      → IsAnswer deck_size (finished_deck rng (catalog_of pool) types e short).result
  finished_deck-IsAnswer deck_size types e (some x) h k = h x refl
  finished_deck-IsAnswer deck_size types e none h k = (e.draft, refl, k refl)

  build_energy-IsAnswer :
      (types : List ℕ) (deck_size : ℕ) (d : Draft) (f : Filled S)
      → IsTypes types
      → 33 ≤ deck_size
      → IsFirst d
      → IsTrainedFrom rng pool keyed d f.draft
      → 8 ≤ in_draft is_trainer f.draft
      → IsAnswer deck_size (build_energy rng (catalog_of pool) types deck_size f).result
  unfolding build_energy
  build_energy-IsAnswer types deck_size d f h big first t low =
      let played = played_types sorted f.draft types in
      let need = deck_size - in_draft any f.draft in
      let e = add_energy rng (catalog_of pool) need (length played) 0 played f.draft f.state in
      let energized =
        add_energy-IsEnergized rng (catalog_of pool) need (length played) ids
          (energy-All pool keyed) (energy-IsKeyed pool keyed) 0 played f.draft f.state in
      let split =
        shares-need rng pool keyed need played
          (played_types-IsTypes rng pool keyed f.draft types h) in
      let pokemon_kept =
        total-other sorted ids (IsTrainer sorted ids) trainer-IsPooled is_pokemon
          (λ c q. ground (arith, q.1)) t.grown in
      let trainers_all =
        total-all sorted ids (IsTrainer sorted ids) trainer-IsPooled is_trainer (λ c q. q.1)
          t.grown in
      let same =
        λ (test : PoolCard → Bool)
            (no_energy : (c : PoolCard) → IsBasicEnergy sorted ids c → test c ≡ false).
          total-other sorted ids (IsBasicEnergy sorted ids) energy-IsPooled test no_energy
            energized.grown in
      let pokemon_same = same is_pokemon (λ c q. ground (arith, q.1)) in
      let trainers_same = same is_trainer (λ c q. ground (arith, q.1)) in
      let stadiums_same = same is_stadium (λ c q. ground (arith, q.1)) in
      finished_deck-IsAnswer deck_size played e e.short energized.short (λ k. record {
        grown =
            Grown-trans (IsPooled sorted)
              (Grown-weaken (IsPokemon rng sorted ids) (IsPooled sorted) pokemon-IsPooled
                first.grown)
              (Grown-trans (IsPooled sorted)
                (Grown-weaken (IsTrainer sorted ids) (IsPooled sorted) trainer-IsPooled t.grown)
                (Grown-weaken (IsBasicEnergy sorted ids) (IsPooled sorted) energy-IsPooled
                  energized.grown));
        sized = omega (
          arith,
          energized.counted k,
          split,
          trainers_all,
          first.all_pokemon,
          first.no_trainer,
          first.pokemon_most,
          t.trained.trainers,
        );
        pokemon_least = omega (arith, pokemon_same, pokemon_kept, first.pokemon_least);
        pokemon_most = omega (arith, pokemon_same, pokemon_kept, first.pokemon_most);
        trainers_least = omega (arith, trainers_same, low);
        trainers_most = omega (arith, trainers_same, t.trained.trainers);
        stadiums_most = omega (arith, stadiums_same, t.trained.stadiums);
      })

  build_trainers-IsAnswer :
      (types : List ℕ) (deck_size : ℕ) (f : Filled S)
      → IsTypes types
      → 33 ≤ deck_size
      → IsFirst f.draft
      → IsAnswer deck_size (build_trainers rng (catalog_of pool) types deck_size f).result
  unfolding build_trainers
  build_trainers-IsAnswer types deck_size f h big first =
      let catalog = catalog_of pool in
      let target = between rng 12 14 f.state in
      let supporters = between rng 4 6 target.state in
      let bound = between_bounds rng 12 14 f.state (omega arith) in
      let start : Filled S = record { draft = f.draft; state = supporters.state } in
      let one = first_trainers rng catalog supporters.value target.value start in
      let two = more_trainers rng catalog target.value one in
      let three = least_trainers rng catalog two in
      let four = fill_trainers rng catalog deck_size types three in
      let staffed : IsTrainedFrom rng pool keyed f.draft three.draft =
        least_trainers-IsTrainedFrom rng pool keyed f.draft two (
          more_trainers-IsTrainedFrom rng pool keyed f.draft target.value one
            (omega (arith, bound.1))
            (first_trainers-IsTrainedFrom rng pool keyed f.draft supporters.value target.value start
              (omega (arith, bound.1))
              (record {
                grown = here;
                trained = record {
                  trainers = omega (arith, first.no_trainer);
                  stadiums = omega (arith, first.no_stadium);
                };
              }))) in
      let more =
        fill_trainers-IsTrainedFrom rng pool keyed three.draft deck_size types three
          (record { grown = here; trained = staffed.trained }) in
      let filled : IsTrainedFrom rng pool keyed f.draft four.draft = record {
        grown = Grown-trans (IsTrainer sorted ids) staffed.grown more.grown;
        trained = more.trained;
      } in
      let enough =
        total-grows sorted ids (IsTrainer sorted ids) trainer-IsPooled is_trainer more.grown in
      elim (Bool-cases (ltb (in_draft is_trainer three.draft) 8)) [
        | inl e ↦ rw e e
        | inr e ↦ rw e (
            build_energy-IsAnswer types deck_size f.draft four h big first filled
              (ground (arith, e, enough)))
      ]

  pub build-IsAnswer :
      (types : List ℕ) (deck_size : ℕ) (s : S)
      → IsTypes types
      → 33 ≤ deck_size
      → IsAnswer deck_size (build rng (catalog_of pool) types deck_size s).result
  unfolding build
  build-IsAnswer types deck_size s h big =
      let p = build_pokemon rng (catalog_of pool) types new_draft s in
      let built =
        build_pokemon-IsBuilt rng (catalog_of pool) types ids (pokemon-All pool keyed rng) new_draft
          s (total-new pool keyed is_pokemon sorted) in
      elim (Bool-cases (ltb p.got 12)) [
        | inl e ↦ rw e e
        | inr e ↦ rw e (
            build_trainers-IsAnswer types deck_size (record { draft = p.draft; state = p.state }) h
              big
              (build_pokemon-IsFirst p.draft built.grown (ground (arith, e, built.counted))
                built.bounded))
      ]
