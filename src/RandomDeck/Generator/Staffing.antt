-- ===== src/RandomDeck/Generator/Staffing.antt =====
-- The Trainers of a deck, over the calls of `addTrainers` that `build` makes, and its types' shares.
use pokedrop.Base.{
  ℕ, ◌≤◌, ◌≡◌, refl, Bool, true, false, List, [], ◌∷◌, ltb, if◌then◌else◌, length, filter_by, All,
  inl, inr, arith,
}
use pokedrop.RandomDeck.Draft.{PoolCard, Draft, is_trainer, total}
use pokedrop.RandomDeck.Grown.{Grown, Grown-trans}
use pokedrop.RandomDeck.Pooled.{IsKeyed}
use pokedrop.RandomDeck.Catalog.{catalog_of}
use pokedrop.RandomDeck.Shuffle.{Source}
use pokedrop.RandomDeck.Trainers.{Cap, Filled, add_trainers}
use pokedrop.RandomDeck.Trainers.Filling.{CapsTrainers, IsTrainer, IsTrained, add_trainers-IsFilled}
use pokedrop.RandomDeck.Trainers.Spreading.{shares}
use pokedrop.RandomDeck.Generator.{
  or_all, played_types, trainer_cap, supporter_cap, first_trainers, more_trainers, least_trainers,
  fill_trainers,
}
use pokedrop.RandomDeck.Generator.Parts.{
  by_id-IsKeyed, supporters-All, other_trainers-All, energy-All, energy-IsKeyed,
}

-- One type, or a pair.
abbrev pub IsTypes : List ℕ → Type 0
IsTypes types = (1 ≤ length types) × (length types ≤ 2)

pub shares-need :
    {S : Type 0} (rng : Source S) (pool : List PoolCard) (keyed : IsKeyed pool) (need : ℕ)
    (types : List ℕ)
    → IsTypes types
    → shares rng
        (catalog_of pool)
        need
        (length types)
        (by_id-IsKeyed pool keyed)
        (energy-All pool keyed)
        (energy-IsKeyed pool keyed)
        0
        types
      ≡ need
shares-need rng pool keyed need [] h = absurd (omega arith)
shares-need rng pool keyed need (t ∷ []) h = omega arith
shares-need rng pool keyed need (t ∷ u ∷ []) h = omega arith
shares-need rng pool keyed need (t ∷ u ∷ v ∷ types) h = absurd (omega arith)

length-filter_by : (test : ℕ → Bool) (types : List ℕ) → length (filter_by test types) ≤ length types
length-filter_by test [] = omega arith
length-filter_by test (t ∷ ts) = ground (arith, length-filter_by test ts)

pub or_all-IsTypes :
    (used types : List ℕ) → length used ≤ length types → IsTypes types → IsTypes (or_all used types)
or_all-IsTypes [] types h k = k
or_all-IsTypes (t ∷ used) types h k = (omega arith, omega arith)

module _ {S : Type 0} (rng : Source S) (pool : List PoolCard) (keyed : IsKeyed pool) where
  abbrev sorted : List PoolCard
  sorted = (catalog_of pool).by_id

  abbrev ids : IsKeyed sorted
  ids = by_id-IsKeyed pool keyed

  abbrev in_draft : (PoolCard → Bool) → Draft → ℕ
  in_draft = total sorted

  pub played_types-IsTypes :
      (d : Draft) (types : List ℕ) → IsTypes types → IsTypes (played_types sorted d types)
  unfolding played_types
  played_types-IsTypes d types h = or_all-IsTypes _ types (length-filter_by _ types) h

  -- A draft whose Trainers are within their limits after more of them.
  pub record IsTrainedFrom (d e : Draft) : Type 0 where
    pub grown : Grown (IsTrainer sorted ids) d e
    pub trained : IsTrained sorted ids e

  add-IsTrainedFrom :
      (d : Draft) (printings : List PoolCard) (caps : List Cap) (fill : Bool) (f : Filled S)
      → CapsTrainers caps
      → All (IsTrainer sorted ids) printings
      → IsTrainedFrom d f.draft
      → IsTrainedFrom d (add_trainers sorted rng printings caps fill f).draft
  add-IsTrainedFrom d printings caps fill f k q t =
      let more = add_trainers-IsFilled sorted ids rng printings caps fill f k q t.trained in
      record {
        grown = Grown-trans (IsTrainer sorted ids) t.grown more.grown;
        trained = more.trained;
      }

  if-IsTrainedFrom :
      (d : Draft) (b : Bool) (f g : Filled S)
      → IsTrainedFrom d f.draft
      → IsTrainedFrom d g.draft
      → IsTrainedFrom d (if b then f else g).draft
  if-IsTrainedFrom d true f g h k = h
  if-IsTrainedFrom d false f g h k = k

  pub first_trainers-IsTrainedFrom :
      (d : Draft) (supporters target : ℕ) (f : Filled S)
      → target ≤ 15
      → IsTrainedFrom d f.draft
      → IsTrainedFrom d (first_trainers rng (catalog_of pool) supporters target f).draft
  unfolding first_trainers
  first_trainers-IsTrainedFrom d supporters target f h t =
      add-IsTrainedFrom d (catalog_of pool).other_trainers (trainer_cap target ∷ []) false _
        (inl (refl, h)) (other_trainers-All pool keyed)
        (add-IsTrainedFrom d (catalog_of pool).supporters
          (supporter_cap supporters ∷ trainer_cap target ∷ []) false f (inr (inl (refl, h)))
          (supporters-All pool keyed) t)

  pub more_trainers-IsTrainedFrom :
      (d : Draft) (target : ℕ) (f : Filled S)
      → target ≤ 15
      → IsTrainedFrom d f.draft
      → IsTrainedFrom d (more_trainers rng (catalog_of pool) target f).draft
  unfolding more_trainers
  more_trainers-IsTrainedFrom d target f h t =
      if-IsTrainedFrom d (ltb (in_draft is_trainer f.draft) target) _ f
        (add-IsTrainedFrom d (catalog_of pool).supporters
          (supporter_cap 6 ∷ trainer_cap target ∷ []) true _ (inr (inl (refl, h)))
          (supporters-All pool keyed)
          (add-IsTrainedFrom d (catalog_of pool).other_trainers (trainer_cap target ∷ []) true f
            (inl (refl, h)) (other_trainers-All pool keyed) t))
        t

  pub least_trainers-IsTrainedFrom :
      (d : Draft) (f : Filled S)
      → IsTrainedFrom d f.draft
      → IsTrainedFrom d (least_trainers rng (catalog_of pool) f).draft
  unfolding least_trainers
  least_trainers-IsTrainedFrom d f t =
      if-IsTrainedFrom d (ltb (in_draft is_trainer f.draft) 8) _ f
        (add-IsTrainedFrom d (catalog_of pool).supporters (trainer_cap 8 ∷ []) true f
          (inl (refl, omega arith)) (supporters-All pool keyed) t)
        t

  pub fill_trainers-IsTrainedFrom :
      (d : Draft) (deck_size : ℕ) (types : List ℕ) (f : Filled S)
      → IsTrainedFrom d f.draft
      → IsTrainedFrom d (fill_trainers rng (catalog_of pool) deck_size types f).draft
  unfolding fill_trainers
  fill_trainers-IsTrainedFrom d deck_size types f t =
      if-IsTrainedFrom d _ _ f
        (add-IsTrainedFrom d (catalog_of pool).supporters (supporter_cap 6 ∷ trainer_cap 15 ∷ [])
          false _ (inr (inl (refl, omega arith))) (supporters-All pool keyed)
          (add-IsTrainedFrom d (catalog_of pool).other_trainers (trainer_cap 15 ∷ []) false f
            (inl (refl, omega arith)) (other_trainers-All pool keyed) t))
        t
