-- ===== src/RandomDeck/Trainers/Spreading.antt =====
-- What `addEnergy` adds: basic Energy of the pool within its room, and exactly each type's share
-- unless a type is short.
use pokedrop.Base.{
  ℕ, suc, ◌+◌, ◌-◌, ◌≤◌, ◌≡◌, refl, Bool, true, false, none, some, List, [], ◌∷◌, ◌==◌, ==_self,
  ltb, if◌then◌else◌, All, filter_by, Bool-cases, inl, inr, arith,
}
use pokedrop.RandomDeck.Draft.{
  Amount, copies, unlimited, left_after, PoolCard, Draft, Fits, room, copy_limit_key, min_of,
  is_basic_energy, any, total,
}
use pokedrop.RandomDeck.Grown.{Grown, here, added, Grown-trans}
use pokedrop.RandomDeck.Pooled.{IsKeyed, IsPooled, count_id, total-add, counts-add, All-map}
use pokedrop.RandomDeck.Rooms.{min_of-Fits, min_of-le}
use pokedrop.RandomDeck.Catalog.{Catalog, same_option, energy_of}
use pokedrop.RandomDeck.Catalog.Resolving.{All-kept}
use pokedrop.RandomDeck.Shuffle.{Source, shuffle, All-shuffle, sum_of-shuffle}
use pokedrop.RandomDeck.Trainers.{
  add_some, plus, is_below, room_of, spread, share_of, Short, Energized, add_energy,
}

-- A basic Energy has no copy limit, so its room is what is left of it.
room-energy :
    (d : Draft) (c : PoolCard)
    → is_basic_energy c ≡ true
    → room d c ≡ left_after c.available (d.counts c.id)
unfolding room copy_limit_key
room-energy d c h = rw h

not_below-plus :
    (a b : Amount) (n : ℕ) → is_below (plus a b) n ≡ false → is_below b (n - min_of n a) ≡ false
not_below-plus (copies x) (copies y) n h = ground (arith, h)
not_below-plus (copies x) unlimited n h = refl
not_below-plus unlimited (copies y) n h = ground arith
not_below-plus unlimited unlimited n h = refl

not_below-zero : (n : ℕ) → is_below (copies 0) n ≡ false → n ≡ 0
not_below-zero n h = ground (arith, h)

abbrev IsEnergy : PoolCard → Type 0
IsEnergy c = is_basic_energy c ≡ true

counts-add_some :
    (c : PoolCard) (n k : ℕ) (d : Draft)
    → (c.id == k) ≡ false
    → (add_some c n d).counts k ≡ d.counts k
unfolding add_some
counts-add_some c n k d h = elim (Bool-cases (ltb 0 n)) [
  | inl e ↦ rw (e, counts-add d c n, h)
  | inr e ↦ rw e
]

-- A copy of another card changes no room of basic Energy.
room_of-add_some :
    (c : PoolCard) (n : ℕ) (d : Draft) (cs : List PoolCard)
    → All IsEnergy cs
    → count_id c.id cs ≡ 0
    → room_of (add_some c n d) cs ≡ room_of d cs
room_of-add_some c n d [] q h = refl
room_of-add_some c n d (x ∷ xs) q h =
    let other : (c.id == x.id) ≡ false = ground (arith, h) in
    let rest = room_of-add_some c n d xs q.1 (ground (arith, h)) in
    rw (
      room-energy (add_some c n d) x q.0,
      room-energy d x q.0,
      counts-add_some c n x.id d other,
      rest,
    )

module _ (pool : List PoolCard) (keyed : IsKeyed pool) where
  abbrev pub IsBasicEnergy : PoolCard → Type 0
  IsBasicEnergy c = IsPooled pool c × (is_basic_energy c ≡ true)

  pub record IsSpread (d e : Draft) (n : ℕ) : Type 0 where
    pub grown : Grown IsBasicEnergy d e
    pub counted : total pool any e ≡ total pool any d + n

  add_some-IsSpread :
      (c : PoolCard) (n : ℕ) (d : Draft)
      → IsBasicEnergy c
      → Fits n (room d c)
      → IsSpread d (add_some c n d) n
  unfolding add_some
  add_some-IsSpread c n d q fits = elim (Bool-cases (ltb 0 n)) [
    | inl e ↦
        rw e
          (record { grown = added here c n q fits; counted = total-add pool keyed any d c n q.0 })
    | inr e ↦ rw e (record { grown = here; counted = ground (arith, e) })
  ]

  spread-IsSpread :
      (left : ℕ) (cards : List PoolCard) (d : Draft)
      → All IsBasicEnergy cards
      → IsKeyed cards
      → is_below (room_of d cards) left ≡ false
      → IsSpread d (spread left cards d) left
  unfolding spread
  spread-IsSpread left [] d q k h = record {
    grown = here;
    counted = omega (arith, not_below-zero left h);
  }
  spread-IsSpread left (c ∷ cs) d q k h =
      let n = min_of left (room d c) in
      let e = add_some c n d in
      let one = add_some-IsSpread c n d q.0 (min_of-Fits left (room d c)) in
      let absent : count_id c.id cs ≡ 0 = ground (arith, k c.id, ==_self c.id) in
      let same =
        room_of-add_some c n d cs (All-map IsBasicEnergy IsEnergy cs (λ c q. q.1) q.1) absent in
      let enough : is_below (room_of e cs) (left - n) ≡ false =
        rw same (not_below-plus (room d c) (room_of d cs) left h) in
      let rest = spread-IsSpread (left - n) cs e q.1 (λ j. omega (arith, k j)) enough in
      elim (Bool-cases (left == 0)) [
        | inl z ↦ rw z (record { grown = here; counted = ground (arith, z) })
        | inr z ↦ rw z (record {
          grown = Grown-trans IsBasicEnergy one.grown rest.grown;
          counted = omega (arith, one.counted, rest.counted, min_of-le left (room d c));
        })
      ]

count_id-filter_by :
    (k : ℕ) (test : PoolCard → Bool) (cards : List PoolCard)
    → count_id k (filter_by test cards) ≤ count_id k cards
count_id-filter_by k test [] = omega arith
count_id-filter_by k test (c ∷ cs) = ground (arith, count_id-filter_by k test cs)

pub IsKeyed-filter_by :
    (test : PoolCard → Bool) (cards : List PoolCard)
    → IsKeyed cards
    → IsKeyed (filter_by test cards)
IsKeyed-filter_by test cards h k = omega (arith, h k, count_id-filter_by k test cards)

module _ {S : Type 0} (rng : Source S) (catalog : Catalog) (need count : ℕ)
    (keyed : IsKeyed catalog.by_id)
    (energy : All (IsBasicEnergy catalog.by_id keyed) catalog.basic_energy)
    (energy_keyed : IsKeyed catalog.basic_energy) where
  abbrev Q : PoolCard → Type 0
  Q = IsBasicEnergy catalog.by_id keyed

  All-energy_of : (type : ℕ) → All Q (energy_of catalog type)
  unfolding energy_of
  All-energy_of type =
      All-kept Q (λ c. same_option c.energy_type (some type)) catalog.basic_energy energy

  energy_of-IsKeyed : (type : ℕ) → IsKeyed (energy_of catalog type)
  unfolding energy_of
  energy_of-IsKeyed type =
      IsKeyed-filter_by (λ c. same_option c.energy_type (some type)) catalog.basic_energy
        energy_keyed

  abbrev pub shares : ℕ → List ℕ → ℕ
  shares i [] = 0
  shares i (type ∷ types) = share_of i need count + shares (suc i) types

  -- A share that is short has less than it needs, and every share is added if none is.
  pub record IsEnergized (d : Draft) (i : ℕ) (types : List ℕ) (e : Energized S) : Type 0 where
    pub grown : Grown Q d e.draft
    pub counted :
        e.short ≡ none
        → total catalog.by_id any e.draft ≡ total catalog.by_id any d + shares i types
    pub short : (s : Short) → e.short ≡ some s → is_below s.have s.need ≡ true

  pub add_energy-IsEnergized :
      (i : ℕ) (types : List ℕ) (d : Draft) (s : S)
      → IsEnergized d i types (add_energy rng catalog need count i types d s)
  unfolding add_energy
  add_energy-IsEnergized i [] d s = record {
    grown = here;
    counted = λ e. omega arith;
    short = λ x e. absurd (cc);
  }
  add_energy-IsEnergized i (type ∷ types) d s =
      let share = share_of i need count in
      let mixed = shuffle rng (energy_of catalog type) s in
      let fit : All Q mixed.items =
        All-shuffle rng Q (energy_of catalog type) s (All-energy_of type) in
      let single : IsKeyed mixed.items = λ j. omega (
        arith,
        sum_of-shuffle rng (λ c. if c.id == j then 1 else 0) (energy_of catalog type) s,
        energy_of-IsKeyed type j,
      ) in
      let rest = add_energy-IsEnergized (suc i) types (spread share mixed.items d) mixed.state in
      elim (Bool-cases (is_below (room_of d mixed.items) share)) [
        | inl e ↦ rw e (record {
          grown = here;
          counted = λ k. absurd (cc);
          short = λ x k.
              let same : record { type = type; have = room_of d mixed.items; need = share } ≡ x =
                cc in
              rw (← same) e;
        })
        | inr e ↦
            let one = spread-IsSpread catalog.by_id keyed share mixed.items d fit single e in
            rw e (record {
              grown = Grown-trans Q one.grown rest.grown;
              counted = λ k. omega (arith, one.counted, rest.counted k);
              short = rest.short;
            })
      ]
