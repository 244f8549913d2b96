-- ===== src/RandomDeck/Catalog/Resolving.antt =====
-- The lines that `resolveLine` finds: their printings are the catalog's, and its loop ends.
use pokedrop.Base.{
  ℕ, zero, suc, ◌≡◌, Bool, true, ◌&&◌, Option, none, some, List, [], ◌∷◌, ◌==◌, leb, length,
  filter_by, All, contains, Bool-cases, inl, inr,
}
use pokedrop.RandomDeck.Draft.{PoolCard, Draft}
use pokedrop.RandomDeck.Pooled.{All-map, All-filter_by}
use pokedrop.RandomDeck.Catalog.{
  Catalog, Line, named, evolves, has_room, of_types, next_below, within_stages, step_down, round_of,
  resolve_down, or_null, resolve_line,
}

module _ (Q : PoolCard → Type 0) where
  pub All-kept :
      (test : PoolCard → Bool) (xs : List PoolCard) → All Q xs → All Q (filter_by test xs)
  All-kept test xs h =
      All-map (λ c. Q c × (test c ≡ true)) Q (filter_by test xs) (λ c p. p.0)
        (All-filter_by Q test xs h)

  abbrev pub AllLines : Option Line → Type 0
  AllLines none = Unit
  AllLines (some line) = All (All Q) line

  abbrev AllFound : Option (Option Line) → Type 0
  AllFound none = Unit
  AllFound (some found) = AllLines found

  module _ (catalog : Catalog) (d : Draft) (pokemon : All Q catalog.pokemon) where
    within_stages-AllLines : (line : Line) → All (All Q) line → AllLines (within_stages line)
    within_stages-AllLines line h = elim (Bool-cases (leb (length line) 3)) [
      | inl e ↦ rw e h
      | inr e ↦ rw e tt
    ]

    All-named : (name : ℕ) → All Q (named catalog name)
    All-named name = All-kept (λ c. c.name == name) catalog.pokemon pokemon

    abbrev Keeps : (List ℕ → Option ℕ → List PoolCard → Line → Option (Option Line)) → Type 0
    Keeps down =
        (seen : List ℕ) (from : Option ℕ) (printings : List PoolCard) (stages : Line)
        → All Q printings
        → All (All Q) stages
        → AllFound (down seen from printings stages)

    step_down-AllFound :
        (down : List ℕ → Option ℕ → List PoolCard → Line → Option (Option Line))
        → Keeps down
        → (seen : List ℕ) (from : ℕ) (stages : Line) (next : Option PoolCard) → All (All Q) stages
        → AllFound (step_down down catalog d seen from stages next)
    step_down-AllFound down keep seen from stages none h = tt
    step_down-AllFound down keep seen from stages (some next) h =
        keep (from ∷ seen) next.evolves_from
          (filter_by (evolves next.evolves_from) (filter_by (has_room d) (named catalog from)))
          stages
          (All-kept (evolves next.evolves_from) (filter_by (has_room d) (named catalog from))
            (All-kept (has_room d) (named catalog from) (All-named from)))
          h

    round_of-AllFound :
        (down : List ℕ → Option ℕ → List PoolCard → Line → Option (Option Line))
        → Keeps down
        → (seen : List ℕ) (from : Option ℕ) (stages : Line) → All (All Q) stages
        → AllFound (round_of down catalog d seen from stages)
    round_of-AllFound down keep seen none stages h = within_stages-AllLines stages h
    round_of-AllFound down keep seen (some from) stages h = elim (Bool-cases (contains from seen)) [
      | inl e ↦ rw e tt
      | inr e ↦ rw e (
          step_down-AllFound down keep seen from stages
            (next_below (filter_by (has_room d) (named catalog from))) h)
    ]

    resolve_down-AllFound : (fuel : ℕ) → Keeps (resolve_down catalog d fuel)
    unfolding resolve_down
    resolve_down-AllFound zero seen from printings stages p h = tt
    resolve_down-AllFound (suc fuel) seen from printings stages p h =
        elim (Bool-cases (length printings == 0)) [
          | inl e ↦ rw e tt
          | inr e ↦ rw e (
              round_of-AllFound (resolve_down catalog d fuel) (resolve_down-AllFound fuel) seen from
                (printings ∷ stages) (p, h))
        ]

    or_null-AllLines : (found : Option (Option Line)) → AllFound found → AllLines (or_null found)
    or_null-AllLines none h = tt
    or_null-AllLines (some found) h = h

    pub resolve_line-AllLines :
        (top : PoolCard) (types : List ℕ) → AllLines (resolve_line top catalog d types)
    unfolding resolve_line
    resolve_line-AllLines top types =
        let printings =
          filter_by (λ c. of_types types c && (evolves top.evolves_from c && has_room d c))
            (named catalog top.name) in
        or_null-AllLines
          (resolve_down catalog d (suc (length catalog.pokemon)) (top.name ∷ []) top.evolves_from
            printings [])
          (resolve_down-AllFound (suc (length catalog.pokemon)) (top.name ∷ []) top.evolves_from
            printings []
            (All-kept (λ c. of_types types c && (evolves top.evolves_from c && has_room d c))
              (named catalog top.name) (All-named top.name))
            tt)
