-- ===== src/RandomDeck/Lines/Placing.antt =====
-- What the Pokemon part of the generator adds: Pokemon of the pool within their room, 18 at most.
use pokedrop.Base.{
  ℕ, zero, suc, ◌+◌, ◌-◌, ◌≤◌, ◌<◌, ◌≡◌, refl, ◌∙◌, Bool, true, Option, none, some, List, [], ◌∷◌,
  ◌==◌, length, filter_by, get_elem?, All, Bool-cases, inl, inr, arith,
}
use pokedrop.RandomDeck.Draft.{
  Amount, copies, unlimited, PoolCard, Draft, room, min_of, is_some, is_pokemon, add, total,
}
use pokedrop.RandomDeck.Grown.{Grown, here, added, Grown-trans}
use pokedrop.RandomDeck.Pooled.{IsKeyed, IsPooled, total-add}
use pokedrop.RandomDeck.Rooms.{min_of-Fits}
use pokedrop.RandomDeck.Catalog.{Line, has_room}
use pokedrop.RandomDeck.Catalog.Resolving.{All-kept}
use pokedrop.RandomDeck.Shuffle.{Source}
use pokedrop.RandomDeck.Lines.{Placed, place_drawn, place_stage, place_line}

pub All-get_elem? {κ} :
    {A : Type 0} (P : A → Type κ) (xs : List A) (i : ℕ) (a : A)
    → All P xs
    → get_elem? xs i ≡ some a
    → P a
All-get_elem? P [] i a h e = absurd (cc)
All-get_elem? P (x ∷ xs) zero a h e = let same : x ≡ a = cc in rw (← same) h.0
All-get_elem? P (x ∷ xs) (suc i) a h e = All-get_elem? P xs i a h.1 e

min_of-pos : (n : ℕ) (a : Amount) → 0 < n → is_some a ≡ true → 0 < min_of n a
min_of-pos n (copies m) h e = ground (arith, e)
min_of-pos n unlimited h e = h

All-true :
    (test : PoolCard → Bool) (xs : List PoolCard) → All (λ c. test c ≡ true) (filter_by test xs)
All-true test [] = tt
All-true test (x ∷ xs) = elim (Bool-cases (test x)) [
  | inl e ↦ rw e (e, All-true test xs)
  | inr e ↦ rw e (All-true test xs)
]

module _ {S : Type 0} (rng : Source S) (pool : List PoolCard) (keyed : IsKeyed pool) where
  abbrev pub IsPokemon : PoolCard → Type 0
  IsPokemon c = IsPooled pool c × (is_pokemon c ≡ true)

  abbrev pub total_pokemon : Draft → ℕ
  total_pokemon = total pool is_pokemon

  record IsPlaced (d : Draft) (p : Placed S) : Type 0 where
    pub grown : Grown IsPokemon d p.draft
    counted : total_pokemon p.draft ≡ total_pokemon d + p.got

  stopped-IsPlaced : (d : Draft) (s : S) → IsPlaced d (record { got = 0; draft = d; state = s })
  stopped-IsPlaced d s = record { grown = here; counted = omega arith }

  place_drawn-IsPlaced :
      (rest : ℕ → Draft → S → Placed S) (want : ℕ) (d : Draft) (s t : S) (o : Option PoolCard)
      → ((w : ℕ) (e : Draft) (u : S) → IsPlaced e (rest w e u))
      → ((c : PoolCard) → o ≡ some c → IsPokemon c)
      → IsPlaced d (place_drawn rng rest want d s t o)
  unfolding place_drawn
  place_drawn-IsPlaced rest want d s t none h q = stopped-IsPlaced d s
  place_drawn-IsPlaced rest want d s t (some c) h q =
      let n = min_of want (room d c) in
      let more = h (want - n) (add d c n) t in
      let (pooled, pokemon) = q c refl in
      record {
        grown =
            Grown-trans IsPokemon (added here c n (pooled, pokemon) (min_of-Fits want (room d c)))
              more.grown;
        counted =
            let one : total_pokemon (add d c n) ≡ total_pokemon d + n =
              total-add pool keyed is_pokemon d c n pooled ∙ (rw pokemon) in
            omega (arith, one, more.counted);
      }

  place_stage-IsPlaced :
      (fuel want : ℕ) (printings : List PoolCard) (d : Draft) (s : S)
      → All IsPokemon printings
      → IsPlaced d (place_stage rng fuel want printings d s)
  unfolding place_stage
  place_stage-IsPlaced zero want printings d s h = stopped-IsPlaced d s
  place_stage-IsPlaced (suc fuel) want printings d s h =
      let open_cards = filter_by (has_room d) printings in
      let drawn = rng.int (length open_cards) s in
      elim (Bool-cases (want == 0)) [
        | inl e ↦ rw e (stopped-IsPlaced d s)
        | inr e ↦ rw e (
            place_drawn-IsPlaced (λ w e t. place_stage rng fuel w printings e t) want d s
              drawn.state (get_elem? open_cards drawn.value)
              (λ w e u. place_stage-IsPlaced fuel w printings e u h)
              (λ c.
                All-get_elem? IsPokemon open_cards drawn.value c
                  (All-kept IsPokemon (has_room d) printings h)))
      ]

  -- A line that is placed counts from `placed` on; one that is not counts nothing.
  pub record IsLaid (d : Draft) (before : ℕ) (p : Placed S) : Type 0 where
    pub grown : Grown IsPokemon d p.draft
    pub counted : 0 < p.got → total_pokemon p.draft + before ≡ total_pokemon d + p.got

  pub place_line-IsLaid :
      (before : ℕ) (line : Line) (shape : List ℕ) (d : Draft) (s : S)
      → All (All IsPokemon) line
      → IsLaid d before (place_line rng before line shape d s)
  unfolding place_line
  place_line-IsLaid before [] shape d s h = record { grown = here; counted = λ k. omega arith }
  place_line-IsLaid before (stage ∷ stages) [] d s h = record {
    grown = here;
    counted = λ k. absurd (omega arith);
  }
  place_line-IsLaid before (stage ∷ stages) (want ∷ wants) d s h =
      let p = place_stage rng want want stage d s in
      let first = place_stage-IsPlaced want want stage d s h.0 in
      let rest = place_line-IsLaid (before + p.got) stages wants p.draft p.state h.1 in
      elim (Bool-cases (p.got == 0)) [
        | inl e ↦ rw e (record { grown = first.grown; counted = λ k. absurd (omega (arith, k)) })
        | inr e ↦ rw e (record {
          grown = Grown-trans IsPokemon first.grown rest.grown;
          counted = λ k. omega (arith, first.counted, rest.counted k);
        })
      ]

module _ {S : Type 0} (rng : Source S) where
  -- Two loops that answer the same below `want`.
  place_drawn-agree :
      (one two : ℕ → Draft → S → Placed S) (want : ℕ) (d : Draft) (s t : S) (o : Option PoolCard)
      → ((w : ℕ) (e : Draft) (u : S) → w < want → one w e u ≡ two w e u)
      → ((c : PoolCard) → o ≡ some c → has_room d c ≡ true)
      → 0 < want
      → place_drawn rng one want d s t o ≡ place_drawn rng two want d s t o
  unfolding place_drawn
  place_drawn-agree one two want d s t none h q pos = refl
  place_drawn-agree one two want d s t (some c) h q pos =
      let n = min_of want (room d c) in
      let fewer : want - n < want = omega (arith, min_of-pos want (room d c) pos (q c refl)) in
      rw (h (want - n) (add d c n) t fewer)

  -- Fuel for the copies wanted is enough for the loop of a stage.
  pub place_stage_fuel :
      (f g want : ℕ) (printings : List PoolCard) (d : Draft) (s : S)
      → want ≤ f
      → want ≤ g
      → place_stage rng f want printings d s ≡ place_stage rng g want printings d s
  unfolding place_stage
  place_stage_fuel zero zero want printings d s h k = refl
  place_stage_fuel zero (suc g) want printings d s h k =
      let nothing : want ≡ 0 = omega arith in rw nothing
  place_stage_fuel (suc f) zero want printings d s h k =
      let nothing : want ≡ 0 = omega arith in rw nothing
  place_stage_fuel (suc f) (suc g) want printings d s h k =
      let open_cards = filter_by (has_room d) printings in
      let drawn = rng.int (length open_cards) s in
      elim (Bool-cases (want == 0)) [
        | inl e ↦ rw e
        | inr e ↦ rw e (
            place_drawn-agree (λ w e t. place_stage rng f w printings e t)
              (λ w e t. place_stage rng g w printings e t) want d s drawn.state
              (get_elem? open_cards drawn.value)
              (λ w e u fewer. place_stage_fuel f g w printings e u (omega arith) (omega arith))
              (λ c.
                All-get_elem? (λ c. has_room d c ≡ true) open_cards drawn.value c
                  (All-true (has_room d) printings))
              (ground (arith, e)))
      ]
