-- ===== src/RandomDeck/Catalog/Ending.antt =====
-- The loop of `resolveLine` ends: each round but the first reads a name that was not seen.
use pokedrop.Base.{
  ℕ, zero, suc, ◌≤◌, ◌<◌, ◌≡◌, refl, ◌∙◌, Bool, false, ◌&&◌, Option, none, some, List, [], ◌∷◌,
  ◌==◌, if◌then◌else◌, length, filter_by, contains, sum_of, Bool-cases, inl, inr, arith,
}
use pokedrop.RandomDeck.Draft.{PoolCard, Draft}
use pokedrop.RandomDeck.Catalog.{
  Catalog, Line, named, evolves, has_room, of_types, next_below, within_stages, step_down, round_of,
  resolve_down, or_null, resolve_line,
}

-- The cards of a name that was not seen yet, which fuel is counted by.
abbrev unseen : List ℕ → List PoolCard → ℕ
unseen seen = sum_of (λ c. if contains c.name seen then 0 else 1)

unseen-le : (seen : List ℕ) (cards : List PoolCard) → unseen seen cards ≤ length cards
unseen-le seen [] = omega arith
unseen-le seen (c ∷ cs) = ground (arith, unseen-le seen cs)

unseen-cons :
    (name : ℕ) (seen : List ℕ) (cards : List PoolCard)
    → unseen (name ∷ seen) cards ≤ unseen seen cards
unseen-cons name seen [] = omega arith
unseen-cons name seen (c ∷ cs) = ground (arith, unseen-cons name seen cs)

-- A round whose name was not seen and has a card leaves fewer.
unseen-lt :
    (name : ℕ) (seen : List ℕ) (test : PoolCard → Bool) (cards : List PoolCard)
    → contains name seen ≡ false
    → 0 < length (filter_by test (filter_by (λ c. c.name == name) cards))
    → unseen (name ∷ seen) cards < unseen seen cards
unseen-lt name seen test [] h k = absurd (omega arith)
unseen-lt name seen test (c ∷ cs) h k = elim (Bool-cases (c.name == name)) [
  | inl e ↦
      let same : c.name ≡ name = ground (arith, e) in
      rw same (ground (arith, h, unseen-cons name seen cs))
  | inr e ↦ ground (arith, e, unseen-lt name seen test cs h (rw e at k))
]

next_below-some :
    (lower : List PoolCard) {next : PoolCard} → next_below lower ≡ some next → 0 < length lower
next_below-some [] e = absurd (cc)
next_below-some (c ∷ cs) e = omega arith

abbrev Ends : Option (Option Line) → Type 0
Ends result = (found : Option Line) × (result ≡ some found)

module _ (catalog : Catalog) (d : Draft) where
  abbrev EndsFrom : (List ℕ → Option ℕ → List PoolCard → Line → Option (Option Line)) → ℕ → Type 0
  EndsFrom down fuel =
      (seen : List ℕ) (from : Option ℕ) (printings : List PoolCard) (stages : Line)
      → unseen seen catalog.pokemon < fuel
      → Ends (down seen from printings stages)

  step_down-Ends :
      (down : List ℕ → Option ℕ → List PoolCard → Line → Option (Option Line)) (fuel : ℕ)
      → EndsFrom down fuel
      → (seen : List ℕ) (from : ℕ) (stages : Line) (next : Option PoolCard)
      → contains from seen ≡ false
      → next_below (filter_by (has_room d) (named catalog from)) ≡ next
      → unseen seen catalog.pokemon < suc fuel
      → Ends (step_down down catalog d seen from stages next)
  step_down-Ends down fuel ends seen from stages none new e h = (none, refl)
  step_down-Ends down fuel ends seen from stages (some next) new e h =
      let lower = filter_by (has_room d) (named catalog from) in
      let fewer = unseen-lt from seen (has_room d) catalog.pokemon new (next_below-some lower e) in
      ends (from ∷ seen) next.evolves_from (filter_by (evolves next.evolves_from) lower) stages
        (omega (arith, fewer))

  round_of-Ends :
      (down : List ℕ → Option ℕ → List PoolCard → Line → Option (Option Line)) (fuel : ℕ)
      → EndsFrom down fuel
      → (seen : List ℕ) (from : Option ℕ) (stages : Line) → unseen seen catalog.pokemon < suc fuel
      → Ends (round_of down catalog d seen from stages)
  round_of-Ends down fuel ends seen none stages h = (within_stages stages, refl)
  round_of-Ends down fuel ends seen (some from) stages h = elim (Bool-cases (contains from seen)) [
    | inl e ↦ rw e (none, refl)
    | inr e ↦ rw e (
        step_down-Ends down fuel ends seen from stages
          (next_below (filter_by (has_room d) (named catalog from))) e refl h)
  ]

  resolve_down-Ends : (fuel : ℕ) → EndsFrom (resolve_down catalog d fuel) fuel
  unfolding resolve_down
  resolve_down-Ends zero seen from printings stages h = absurd (omega arith)
  resolve_down-Ends (suc fuel) seen from printings stages h =
      elim (Bool-cases (length printings == 0)) [
        | inl e ↦ rw e (none, refl)
        | inr e ↦ rw e (
            round_of-Ends (resolve_down catalog d fuel) fuel (resolve_down-Ends fuel) seen from
              (printings ∷ stages) h)
      ]

  pub resolve_down-total :
      (fuel : ℕ) (seen : List ℕ) (from : Option ℕ) (printings : List PoolCard) (stages : Line)
      → length catalog.pokemon < fuel
      → (found : Option Line) × (resolve_down catalog d fuel seen from printings stages
          ≡ some found)
  resolve_down-total fuel seen from printings stages h =
      resolve_down-Ends fuel seen from printings stages
        (omega (arith, unseen-le seen catalog.pokemon))

module _ (catalog : Catalog) (d : Draft) where
  abbrev Down : Type 0
  Down = List ℕ → Option ℕ → List PoolCard → Line → Option (Option Line)

  -- Two loops that answer the same where both have fuel left.
  abbrev Agree : Down → Down → ℕ → ℕ → Type 0
  Agree one two f g =
      (seen : List ℕ) (from : Option ℕ) (printings : List PoolCard) (stages : Line)
      → unseen seen catalog.pokemon < f
      → unseen seen catalog.pokemon < g
      → one seen from printings stages ≡ two seen from printings stages

  step_down-Agree :
      (one two : Down) (f g : ℕ)
      → Agree one two f g
      → (seen : List ℕ) (from : ℕ) (stages : Line) (next : Option PoolCard)
      → contains from seen ≡ false
      → next_below (filter_by (has_room d) (named catalog from)) ≡ next
      → unseen seen catalog.pokemon < suc f
      → unseen seen catalog.pokemon < suc g
      → step_down one catalog d seen from stages next
        ≡ step_down two catalog d seen from stages next
  step_down-Agree one two f g agree seen from stages none new e h k = refl
  step_down-Agree one two f g agree seen from stages (some next) new e h k =
      let lower = filter_by (has_room d) (named catalog from) in
      let fewer = unseen-lt from seen (has_room d) catalog.pokemon new (next_below-some lower e) in
      agree (from ∷ seen) next.evolves_from (filter_by (evolves next.evolves_from) lower) stages
        (omega (arith, fewer)) (omega (arith, fewer))

  round_of-Agree :
      (one two : Down) (f g : ℕ)
      → Agree one two f g
      → (seen : List ℕ) (from : Option ℕ) (stages : Line) → unseen seen catalog.pokemon < suc f
      → unseen seen catalog.pokemon < suc g
      → round_of one catalog d seen from stages ≡ round_of two catalog d seen from stages
  round_of-Agree one two f g agree seen none stages h k = refl
  round_of-Agree one two f g agree seen (some from) stages h k =
      elim (Bool-cases (contains from seen)) [
        | inl e ↦ rw e
        | inr e ↦ rw e (
            step_down-Agree one two f g agree seen from stages
              (next_below (filter_by (has_room d) (named catalog from))) e refl h k)
      ]

  resolve_down-Agree : (f g : ℕ) → Agree (resolve_down catalog d f) (resolve_down catalog d g) f g
  unfolding resolve_down
  resolve_down-Agree zero g seen from printings stages h k = absurd (omega arith)
  resolve_down-Agree (suc f) zero seen from printings stages h k = absurd (omega arith)
  resolve_down-Agree (suc f) (suc g) seen from printings stages h k =
      elim (Bool-cases (length printings == 0)) [
        | inl e ↦ rw e
        | inr e ↦ rw e (
            round_of-Agree (resolve_down catalog d f) (resolve_down catalog d g) f g
              (resolve_down-Agree f g) seen from (printings ∷ stages) h k)
      ]

  or_null-Ends : (result : Option (Option Line)) → Ends result → result ≡ some (or_null result)
  or_null-Ends none (found, e) = absurd (cc)
  or_null-Ends (some found) e = refl

  -- The loop that resolves an evolution line ends: with any fuel above the number of the
  -- catalog's Pokemon it answers what the line's resolution answers.
  pub resolve_line-total :
      (top : PoolCard) (types : List ℕ) (fuel : ℕ)
      → length catalog.pokemon < fuel
      → resolve_down catalog d fuel
          (top.name ∷ [])
          top.evolves_from
          (filter_by
            (λ c. of_types types c && (evolves top.evolves_from c && has_room d c))
            (named catalog top.name))
          []
        ≡ some (resolve_line top catalog d types)
  unfolding resolve_line
  resolve_line-total top types fuel h =
      let printings =
        filter_by (λ c. of_types types c && (evolves top.evolves_from c && has_room d c))
          (named catalog top.name) in
      let start = top.name ∷ [] in
      let few = unseen-le start catalog.pokemon in
      resolve_down-Agree fuel (suc (length catalog.pokemon)) start top.evolves_from printings []
        (omega (arith, few)) (omega (arith, few))
      ∙ or_null-Ends _ (
          resolve_down-total catalog d (suc (length catalog.pokemon)) start top.evolves_from
            printings [] (omega arith))
