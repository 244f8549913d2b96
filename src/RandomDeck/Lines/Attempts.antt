-- ===== src/RandomDeck/Lines/Attempts.antt =====
-- The loops over lines, tops and attempts: what they draw is Pokemon of the pool, 18 at most.
use pokedrop.Base.{
  ℕ, zero, suc, ◌+◌, ◌≤◌, ◌<◌, ◌≡◌, refl, sym, subst, Bool, true, false, ◌&&◌, ◌||◌, Option, none,
  some, List, [], ◌∷◌, ◌==◌, ltb, leb, if◌then◌else◌, length, filter_by, some_of, All, Bool-cases,
  inl, inr, arith,
}
use pokedrop.RandomDeck.Draft.{PoolCard, Draft, is_pokemon, add_all, mark, since, total}
use pokedrop.RandomDeck.Grown.{Grown, here, Grown-trans, rollback-Grown, add_all-since}
use pokedrop.RandomDeck.Pooled.{IsKeyed}
use pokedrop.RandomDeck.Catalog.{Catalog, Line, of_types, resolve_line}
use pokedrop.RandomDeck.Catalog.Resolving.{AllLines, resolve_line-AllLines}
use pokedrop.RandomDeck.Shuffle.{Source, between}
use pokedrop.RandomDeck.Lines.{
  Placed, used_first, place_line, shapes_for, keeps, try_shapes, try_line, draw_pass, draw_lines,
  interleave, Best, attempts, build_pokemon,
}
use pokedrop.RandomDeck.Lines.Placing.{IsPokemon, place_line-IsLaid}

module _ {S : Type 0} (rng : Source S) (catalog : Catalog) (types : List ℕ)
    (keyed : IsKeyed catalog.by_id)
    (pokemon : All (IsPokemon rng catalog.by_id keyed) catalog.pokemon) where
  abbrev pub Q : PoolCard → Type 0
  Q = IsPokemon rng catalog.by_id keyed

  abbrev pub count : Draft → ℕ
  count = total catalog.by_id is_pokemon

  record IsDrawn (d : Draft) (e : Draft) : Type 0 where
    grown : Grown Q d e
    bounded : count e ≤ 18

  kept-bounded :
      (strict : Bool) (lines before placed : ℕ)
      → keeps rng catalog types strict lines before placed ≡ true
      → (0 < placed) × (before + placed ≤ 18)
  kept-bounded strict lines before placed h = (ground (arith, h), ground (arith, h))

  try_shapes-IsDrawn :
      (strict : Bool) (lines : ℕ) (line : Line) (shapes : List (List ℕ)) (d : Draft) (s : S)
      → All (All Q) line
      → count d ≤ 18
      → IsDrawn d (try_shapes rng catalog types strict lines line shapes d s).draft
  unfolding try_shapes
  try_shapes-IsDrawn strict lines line [] d s q h = record { grown = here; bounded = h }
  try_shapes-IsDrawn strict lines line (shape ∷ shapes) d s q h =
      let p = place_line rng 0 line shape d s in
      let laid = place_line-IsLaid rng catalog.by_id keyed 0 line shape d s q in
      let back = rollback-Grown Q laid.grown in
      elim (Bool-cases (keeps rng catalog types strict lines (count d) p.got)) [
        | inl e ↦
            let (pos, fits) = kept-bounded strict lines (count d) p.got e in
            rw e (record { grown = laid.grown; bounded = omega (arith, laid.counted pos) })
        | inr e ↦ rw (e, back) (try_shapes-IsDrawn strict lines line shapes d p.state q h)
      ]

  try_line-IsDrawn :
      (strict : Bool) (lines : ℕ) (d : Draft) (s : S) (line : Option Line)
      → AllLines Q line
      → count d ≤ 18
      → IsDrawn d (try_line rng catalog types strict lines d s line).draft
  unfolding try_line
  try_line-IsDrawn strict lines d s none q h = record { grown = here; bounded = h }
  try_line-IsDrawn strict lines d s (some line) q h =
      let shapes = shapes_for rng (length line) s in
      let tried = try_shapes-IsDrawn strict lines line shapes.items d shapes.state q h in
      elim (Bool-cases (strict && some_of (λ stage. ltb 0 (used_first d stage)) line)) [
        | inl e ↦ rw e (record { grown = here; bounded = h })
        | inr e ↦ rw e tried
      ]

  draw_pass-IsDrawn :
      (target : ℕ) (strict : Bool) (tops : List PoolCard) (lines : ℕ) (d : Draft) (s : S)
      → count d ≤ 18
      → IsDrawn d (draw_pass rng catalog types target strict tops lines d s).draft
  unfolding draw_pass
  draw_pass-IsDrawn target strict [] lines d s h = record { grown = here; bounded = h }
  draw_pass-IsDrawn target strict (top ∷ tops) lines d s h =
      let line = resolve_line top catalog d types in
      let tried = try_line rng catalog types strict lines d s line in
      let one =
        try_line-IsDrawn strict lines d s line (resolve_line-AllLines Q catalog d pokemon top types)
          h in
      let rest =
        draw_pass-IsDrawn target strict tops tried.lines tried.draft tried.state one.bounded in
      elim (Bool-cases (leb target (count d) || lines == 4)) [
        | inl e ↦ rw e (record { grown = here; bounded = h })
        | inr e ↦
            rw e (record { grown = Grown-trans Q one.grown rest.grown; bounded = rest.bounded })
      ]

  draw_lines-IsDrawn :
      (tops : List PoolCard) (target : ℕ) (d : Draft) (s : S)
      → count d ≤ 18
      → IsDrawn d (draw_lines rng catalog types tops target d s).draft
  unfolding draw_lines
  draw_lines-IsDrawn tops target d s h =
      let first = draw_pass rng catalog types target true tops 0 d s in
      let one = draw_pass-IsDrawn target true tops 0 d s h in
      let two =
        draw_pass-IsDrawn target false tops first.lines first.draft first.state one.bounded in
      elim (Bool-cases first.finished) [
        | inl e ↦ rw e one
        | inr e ↦ rw e (record { grown = Grown-trans Q one.grown two.grown; bounded = two.bounded })
      ]

  -- The best of the draws so far can be drawn again.
  record IsBest (d : Draft) (best : Best rng catalog types) : Type 0 where
    drawn : Draft
    grown : Grown Q d drawn
    replayed : add_all best.added d ≡ drawn
    counted : best.total ≡ count drawn
    bounded : count drawn ≤ 18

  if-IsBest :
      (d : Draft) (b : Bool) (x y : Best rng catalog types)
      → IsBest d x
      → IsBest d y
      → IsBest d (if b then x else y)
  if-IsBest d true x y h k = h
  if-IsBest d false x y h k = k

  pub record IsBuilt (d : Draft) (p : Placed S) : Type 0 where
    pub grown : Grown Q d p.draft
    pub counted : p.got ≡ count p.draft
    pub bounded : count p.draft ≤ 18

  attempts-IsBuilt :
      (n target : ℕ) (tops : List PoolCard) (best : Best rng catalog types) (d : Draft) (s : S)
      → count d ≤ 18
      → IsBest d best
      → IsBuilt d (attempts rng catalog types n target tops best d s)
  unfolding attempts
  attempts-IsBuilt zero target tops best d s h b = record {
    grown = subst (Grown Q d) (sym b.replayed) b.grown;
    counted = rw b.replayed b.counted;
    bounded = rw b.replayed b.bounded;
  }
  attempts-IsBuilt (suc n) target tops best d s h b =
      let mixed = interleave rng catalog types tops s in
      let r = draw_lines rng catalog types mixed.items target d mixed.state in
      let drawn = draw_lines-IsDrawn mixed.items target d mixed.state h in
      let kept : Best rng catalog types = record {
        total = count r.draft;
        added = since (mark d) r.draft;
      } in
      let next : IsBest d (if ltb best.total (count r.draft) then kept else best) =
        if-IsBest d (ltb best.total (count r.draft)) kept best
          (record {
            drawn = r.draft;
            grown = drawn.grown;
            replayed = add_all-since Q drawn.grown;
            counted = refl;
            bounded = drawn.bounded;
          })
          b in
      elim (Bool-cases (leb 16 (count r.draft))) [
        | inl e ↦ rw e (record { grown = drawn.grown; counted = refl; bounded = drawn.bounded })
        | inr e ↦
            rw (e, rollback-Grown Q drawn.grown) (attempts-IsBuilt n target tops _ d r.state h next)
      ]

  -- From a draft with no Pokemon.
  pub build_pokemon-IsBuilt :
      (d : Draft) (s : S) → count d ≡ 0 → IsBuilt d (build_pokemon rng catalog types d s)
  unfolding build_pokemon add_all
  build_pokemon-IsBuilt d s none_yet =
      let target = between rng 16 18 s in
      attempts-IsBuilt 5 target.value (filter_by (of_types types) catalog.pokemon)
        (record { total = 0; added = [] }) d target.state (omega arith)
        (record {
          drawn = d;
          grown = here;
          replayed = refl;
          counted = sym none_yet;
          bounded = omega arith;
        })
