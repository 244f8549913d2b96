-- ===== src/RandomDeck/Trainers/Filling.antt =====
-- What `addTrainers` adds: Trainers of the pool within their room, within a cap of 15 on Trainers
-- and of 2 on Stadiums.
use pokedrop.Base.{
  ℕ, ◌+◌, ◌-◌, ◌≤◌, ◌≡◌, refl, ◌⊎◌, Bool, true, false, List, [], ◌∷◌, ltb, if◌then◌else◌, All,
  Bool-cases, inl, inr, arith,
}
use pokedrop.RandomDeck.Draft.{
  PoolCard, Draft, Fits, room, min, min_of, is_trainer, is_stadium, total,
}
use pokedrop.RandomDeck.Grown.{Grown, here, added, Grown-trans}
use pokedrop.RandomDeck.Pooled.{IsKeyed, IsPooled, total-add}
use pokedrop.RandomDeck.Rooms.{Fits-le, min_of-Fits}
use pokedrop.RandomDeck.Shuffle.{Source, shuffle, All-shuffle}
use pokedrop.RandomDeck.Trainers.{
  Cap, Filled, is_reached, within_caps, within_stadiums, add_some, add_each, add_trainers,
}

-- Some cap is one on Trainers, of 15 at most.
abbrev pub CapsTrainers : List Cap → Type 0
CapsTrainers [] = ⊥
CapsTrainers (cap ∷ caps) = ((cap.test ≡ is_trainer) × (cap.max ≤ 15)) ⊎ CapsTrainers caps

module _ (pool : List PoolCard) where
  within_caps-le :
      (caps : List Cap) (c : PoolCard) (d : Draft) (n : ℕ) → within_caps pool caps c d n ≤ n
  unfolding within_caps
  within_caps-le [] c d n = omega arith
  within_caps-le (cap ∷ caps) c d n = ground (
    arith,
    within_caps-le caps c d (if cap.test c then min n (cap.max - total pool cap.test d) else n),
  )

  within_caps-trainer :
      (caps : List Cap) (c : PoolCard) (d : Draft) (n : ℕ)
      → CapsTrainers caps
      → is_trainer c ≡ true
      → within_caps pool caps c d n ≤ 15 - total pool is_trainer d
  unfolding within_caps
  within_caps-trainer [] c d n h t = absurd h
  within_caps-trainer (cap ∷ caps) c d n (inl (same, most)) t =
      rw (same, t)
        (let capped = within_caps-le caps c d (min n (cap.max - total pool is_trainer d)) in
          ground (arith, capped))
  within_caps-trainer (cap ∷ caps) c d n (inr h) t =
      within_caps-trainer caps c d
        (if cap.test c then min n (cap.max - total pool cap.test d) else n) h t

  within_stadiums-le : (c : PoolCard) (d : Draft) (n : ℕ) → within_stadiums pool c d n ≤ n
  unfolding within_stadiums
  within_stadiums-le c d n = ground arith

  within_stadiums-stadium :
      (c : PoolCard) (d : Draft) (n : ℕ)
      → is_stadium c ≡ true
      → within_stadiums pool c d n ≤ 2 - total pool is_stadium d
  unfolding within_stadiums
  within_stadiums-stadium c d n h = rw h (ground arith)

module _ (pool : List PoolCard) (keyed : IsKeyed pool) where
  abbrev pub IsTrainer : PoolCard → Type 0
  IsTrainer c = IsPooled pool c × (is_trainer c ≡ true)

  -- The limits on the Trainers of a draft.
  pub record IsTrained (d : Draft) : Type 0 where
    pub trainers : total pool is_trainer d ≤ 15
    pub stadiums : total pool is_stadium d ≤ 2

  pub record IsFilled (d e : Draft) : Type 0 where
    pub grown : Grown IsTrainer d e
    pub trained : IsTrained e

  if_le : (b : Bool) (n k m : ℕ) → k ≤ m → (b ≡ true → n ≤ m - k) → k + (if b then n else 0) ≤ m
  if_le true n k m h f = omega (arith, f refl)
  if_le false n k m h f = omega arith

  add_some-IsFilled :
      (c : PoolCard) (n : ℕ) (d : Draft)
      → IsTrainer c
      → Fits n (room d c)
      → n ≤ 15 - total pool is_trainer d
      → (is_stadium c ≡ true → n ≤ 2 - total pool is_stadium d)
      → IsTrained d
      → IsFilled d (add_some c n d)
  unfolding add_some
  add_some-IsFilled c n d q fits trainers stadiums t = elim (Bool-cases (ltb 0 n)) [
    | inl e ↦ rw e (record {
      grown = added here c n q fits;
      trained = record {
        trainers =
            rw (total-add pool keyed is_trainer d c n q.0)
              (if_le (is_trainer c) n (total pool is_trainer d) 15 t.trainers (λ _. trainers));
        stadiums =
            rw (total-add pool keyed is_stadium d c n q.0)
              (if_le (is_stadium c) n (total pool is_stadium d) 2 t.stadiums stadiums);
      };
    })
    | inr e ↦ rw e (record { grown = here; trained = t })
  ]

  module _ {S : Type 0} (rng : Source S) where
    add_each-IsFilled :
        (caps : List Cap) (fill : Bool) (cards : List PoolCard) (d : Draft) (s : S)
        → CapsTrainers caps
        → All IsTrainer cards
        → IsTrained d
        → IsFilled d (add_each pool rng caps fill cards d s).draft
    unfolding add_each
    add_each-IsFilled caps fill [] d s k q t = record { grown = here; trained = t }
    add_each-IsFilled caps fill (c ∷ cs) d s k q t =
        let drawn = rng.int 4 s in
        let want = if fill then 4 else 1 + drawn.value in
        let after = if fill then s else drawn.state in
        let asked = min_of want (room d c) in
        let capped = within_caps pool caps c d asked in
        let n = within_stadiums pool c d capped in
        let fewer = within_stadiums-le pool c d capped in
        let one =
          add_some-IsFilled c n d q.0
            (Fits-le n asked (room d c) (omega (arith, fewer, within_caps-le pool caps c d asked))
              (min_of-Fits want (room d c)))
            (omega (arith, fewer, within_caps-trainer pool caps c d asked k q.0.1))
            (within_stadiums-stadium pool c d capped) t in
        let rest = add_each-IsFilled caps fill cs (add_some c n d) after k q.1 one.trained in
        elim (Bool-cases (is_reached pool caps d)) [
          | inl e ↦ rw e (record { grown = here; trained = t })
          | inr e ↦ rw e (record {
            grown = Grown-trans IsTrainer one.grown rest.grown;
            trained = rest.trained;
          })
        ]

    pub add_trainers-IsFilled :
        (printings : List PoolCard) (caps : List Cap) (fill : Bool) (f : Filled S)
        → CapsTrainers caps
        → All IsTrainer printings
        → IsTrained f.draft
        → IsFilled f.draft (add_trainers pool rng printings caps fill f).draft
    unfolding add_trainers
    add_trainers-IsFilled printings caps fill f k q t =
        let mixed = shuffle rng printings f.state in
        add_each-IsFilled caps fill mixed.items f.draft mixed.state k
          (All-shuffle rng IsTrainer printings f.state q) t
