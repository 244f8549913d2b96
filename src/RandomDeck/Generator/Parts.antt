-- ===== src/RandomDeck/Generator/Parts.antt =====
-- The parts of a catalog hold cards of its pool, and what additions of one kind change.
use pokedrop.Base.{
  ◌+◌, ◌≤◌, ◌≡◌, refl, ◌∙◌, Bool, true, false, ◌&&◌, not, List, ◌==◌, leb, if◌then◌else◌, All,
  All-sort_by, filter_by, sum_of-sort_by, arith,
}
use pokedrop.RandomDeck.Draft.{
  PoolCard, Draft, is_pokemon, is_trainer, is_supporter, is_basic_energy, any, add, total,
}
use pokedrop.RandomDeck.Grown.{Grown, here, added}
use pokedrop.RandomDeck.Pooled.{IsKeyed, IsPooled, All-IsPooled, All-map, All-filter_by, total-add}
use pokedrop.RandomDeck.Catalog.{Catalog, catalog_of}
use pokedrop.RandomDeck.Shuffle.{Source}
use pokedrop.RandomDeck.Lines.Placing.{IsPokemon}
use pokedrop.RandomDeck.Trainers.Filling.{IsTrainer}
use pokedrop.RandomDeck.Trainers.Spreading.{IsBasicEnergy, IsKeyed-filter_by}

module _ (pool : List PoolCard) (keyed : IsKeyed pool) where
  abbrev catalog : Catalog
  catalog = catalog_of pool

  pub by_id-IsKeyed : IsKeyed (catalog_of pool).by_id
  unfolding catalog_of
  by_id-IsKeyed k = omega (
    arith,
    keyed k,
    sum_of-sort_by (λ (c : PoolCard). if c.id == k then 1 else 0) (λ a b. leb a.id b.id) pool,
  )

  -- The sorted cards are the pool's.
  pub by_id-IsPooled : All (IsPooled pool) (catalog_of pool).by_id
  unfolding catalog_of
  by_id-IsPooled = All-sort_by (IsPooled pool) (λ a b. leb a.id b.id) pool (All-IsPooled pool keyed)

  abbrev sorted : List PoolCard
  sorted = (catalog_of pool).by_id

  part-All :
      (P : PoolCard → Type 0) (test : PoolCard → Bool)
      → ((c : PoolCard) → IsPooled sorted c → test c ≡ true → P c)
      → All P (filter_by test sorted)
  part-All P test f =
      All-map (λ c. IsPooled sorted c × (test c ≡ true)) P (filter_by test sorted)
        (λ c q. f c q.0 q.1)
        (All-filter_by (IsPooled sorted) test sorted (All-IsPooled sorted by_id-IsKeyed))

  pub supporters-All : All (IsTrainer sorted by_id-IsKeyed) (catalog_of pool).supporters
  unfolding catalog_of
  supporters-All =
      part-All (IsTrainer sorted by_id-IsKeyed) is_supporter (λ c p t. (p, ground (arith, t)))

  pub other_trainers-All : All (IsTrainer sorted by_id-IsKeyed) (catalog_of pool).other_trainers
  unfolding catalog_of
  other_trainers-All =
      part-All (IsTrainer sorted by_id-IsKeyed) (λ c. is_trainer c && not (is_supporter c))
        (λ c p t. (p, ground (arith, t)))

  pub energy-All : All (IsBasicEnergy sorted by_id-IsKeyed) (catalog_of pool).basic_energy
  unfolding catalog_of
  energy-All = part-All (IsBasicEnergy sorted by_id-IsKeyed) is_basic_energy (λ c p t. (p, t))

  pub energy-IsKeyed : IsKeyed (catalog_of pool).basic_energy
  unfolding catalog_of
  energy-IsKeyed = IsKeyed-filter_by is_basic_energy sorted by_id-IsKeyed

  pub pokemon-All :
      {S : Type 0} (rng : Source S)
      → All (IsPokemon rng sorted by_id-IsKeyed) (catalog_of pool).pokemon
  unfolding catalog_of
  pokemon-All rng = part-All (IsPokemon rng sorted by_id-IsKeyed) is_pokemon (λ c p t. (p, t))

module _ (pool : List PoolCard) (keyed : IsKeyed pool) (Q : PoolCard → Type 0)
    (pooled : (c : PoolCard) → Q c → IsPooled pool c) where
  -- Cards that do not meet a test leave its total.
  pub total-other :
      (test : PoolCard → Bool)
      → ((c : PoolCard) → Q c → test c ≡ false)
      → {a b : Draft} → Grown Q a b
      → total pool test b ≡ total pool test a
  total-other test no_card here = refl
  total-other test no_card (added {d} g c n q fits) =
      let one : total pool test (add d c n) ≡ total pool test d + 0 =
        total-add pool keyed test d c n (pooled c q) ∙ (rw (no_card c q)) in
      omega (arith, one, total-other test no_card g)

  -- Cards that all meet a test count in it as in the whole.
  pub total-all :
      (test : PoolCard → Bool)
      → ((c : PoolCard) → Q c → test c ≡ true)
      → {a b : Draft} → Grown Q a b
      → total pool any b + total pool test a ≡ total pool any a + total pool test b
  total-all test all_cards here = omega arith
  total-all test all_cards (added {d} g c n q fits) =
      let one : total pool test (add d c n) ≡ total pool test d + n =
        total-add pool keyed test d c n (pooled c q) ∙ (rw (all_cards c q)) in
      omega (arith, one, total-add pool keyed any d c n (pooled c q), total-all test all_cards g)

  -- No total falls.
  pub total-grows :
      (test : PoolCard → Bool) {a b : Draft} → Grown Q a b → total pool test a ≤ total pool test b
  total-grows test here = omega arith
  total-grows test (added {d} g c n q fits) =
      omega (arith, total-add pool keyed test d c n (pooled c q), total-grows test g)
