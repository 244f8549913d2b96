-- ===== src/RandomDeck/Lines.antt =====
-- apps/api/src/decks/random-deck/random-deck.generator.ts: the Pokemon of a deck, as whole lines from
-- a Basic up. A draw is threaded through as the state of the source.
pub mod Placing
pub mod Attempts
use pokedrop.Base.{
  ℕ, zero, suc, ◌+◌, ◌-◌, ◌*◌, Bool, true, false, ◌&&◌, ◌||◌, not, Option, none, some, List, [],
  ◌∷◌, ◌++◌, ◌==◌, ltb, leb, if◌then◌else◌, length, filter_by, some_of, get_elem?,
}
use pokedrop.RandomDeck.Draft.{
  PoolCard, Draft, Added, room, min_of, is_some, is_pokemon, add, add_all, used, mark, since,
  rollback, total,
}
use pokedrop.RandomDeck.Catalog.{Catalog, Line, first_type_is, of_types, has_room, resolve_line}
use pokedrop.RandomDeck.Shuffle.{Source, shuffle, between}

pub record Placed (S : Type 0) : Type 0 where
  pub got : ℕ
  pub draft : Draft
  pub state : S

pub record Drawing (S : Type 0) : Type 0 where
  pub finished : Bool
  pub lines : ℕ
  pub draft : Draft
  pub state : S

pub record Drawn (A S : Type 0) : Type 0 where
  pub items : A
  pub state : S

abbrev pub used_first : Draft → List PoolCard → ℕ
used_first d [] = 0
used_first d (c ∷ cs) = used d c

module _ {S : Type 0} (rng : Source S) where
  -- The body of the loop of `placeLine` once a card is drawn; `rest` is the rounds after it.
  unfoldable pub place_drawn :
      (ℕ → Draft → S → Placed S) → ℕ → Draft → S → S → Option PoolCard → Placed S
  place_drawn rest want d s t none = record { got = 0; draft = d; state = s }
  place_drawn rest want d s t (some c) =
      let n = min_of want (room d c) in
      let more = rest (want - n) (add d c n) t in
      record { got = n + more.got; draft = more.draft; state = more.state }

  -- The `while (want > 0)` loop: each round places at least one copy, so it takes at most `want`
  -- rounds. No card is open exactly if none can be drawn.
  unfoldable pub place_stage : ℕ → ℕ → List PoolCard → Draft → S → Placed S
  place_stage zero want printings d s = record { got = 0; draft = d; state = s }
  place_stage (suc fuel) want printings d s =
      let open_cards = filter_by (has_room d) printings in
      let drawn = rng.int (length open_cards) s in
      let round =
        place_drawn (λ w e t. place_stage fuel w printings e t) want d s drawn.state
          (get_elem? open_cards drawn.value) in
      if want == 0 then record { got = 0; draft = d; state = s } else round

  unfoldable pub place_line : ℕ → Line → List ℕ → Draft → S → Placed S
  place_line placed [] shape d s = record { got = placed; draft = d; state = s }
  place_line placed (stage ∷ stages) [] d s = record { got = 0; draft = d; state = s }
  place_line placed (stage ∷ stages) (want ∷ wants) d s =
      let p = place_stage want want stage d s in
      let rest = place_line (placed + p.got) stages wants p.draft p.state in
      if p.got == 0 then record { got = 0; draft = p.draft; state = p.state } else rest

  abbrev pub one_of : List (List ℕ) → List (List ℕ) → S → Drawn (List (List ℕ)) S
  one_of longer shorter s =
      let d = rng.int 2 s in
      record { items = if d.value == 1 then longer else shorter; state = d.state }

  unfoldable pub shapes_for : ℕ → S → Drawn (List (List ℕ)) S
  shapes_for stages s =
      if stages == 3
      then one_of ((4 ∷ 3 ∷ 3 ∷ []) ∷ (3 ∷ 2 ∷ 2 ∷ []) ∷ []) ((3 ∷ 2 ∷ 2 ∷ []) ∷ []) s
      else if stages == 2
      then record { items = (3 ∷ 2 ∷ []) ∷ []; state = s }
      else one_of ((3 ∷ []) ∷ (2 ∷ []) ∷ []) ((2 ∷ []) ∷ []) s

  module _ (catalog : Catalog) (types : List ℕ) where
    abbrev pub pokemon_in : Draft → ℕ
    pokemon_in = total catalog.by_id is_pokemon

    -- Whether a line that was placed is kept.
    abbrev pub keeps : Bool → ℕ → ℕ → ℕ → Bool
    keeps strict lines before placed =
        ltb 0 placed
        && (leb (before + placed) 18
            && (not strict || leb 16 (before + placed + (4 - lines - 1) * 10)))

    -- The loop over the shapes of a line.
    unfoldable pub try_shapes : Bool → ℕ → Line → List (List ℕ) → Draft → S → Drawing S
    try_shapes strict lines line [] d s = record {
      finished = false;
      lines = lines;
      draft = d;
      state = s;
    }
    try_shapes strict lines line (shape ∷ shapes) d s =
        let p = place_line 0 line shape d s in
        let next = try_shapes strict lines line shapes (rollback (mark d) p.draft) p.state in
        if keeps strict lines (pokemon_in d) p.got
        then record { finished = false; lines = lines + 1; draft = p.draft; state = p.state }
        else next

    unfoldable pub try_line : Bool → ℕ → Draft → S → Option Line → Drawing S
    try_line strict lines d s none = record {
      finished = false;
      lines = lines;
      draft = d;
      state = s;
    }
    try_line strict lines d s (some line) =
        let shapes = shapes_for (length line) s in
        let tried = try_shapes strict lines line shapes.items d shapes.state in
        if strict && some_of (λ stage. ltb 0 (used_first d stage)) line
        then record { finished = false; lines = lines; draft = d; state = s }
        else tried

    -- The loop over the tops, once with `strict`.
    unfoldable pub draw_pass : ℕ → Bool → List PoolCard → ℕ → Draft → S → Drawing S
    draw_pass target strict [] lines d s = record {
      finished = false;
      lines = lines;
      draft = d;
      state = s;
    }
    draw_pass target strict (top ∷ tops) lines d s =
        let tried = try_line strict lines d s (resolve_line top catalog d types) in
        let rest = draw_pass target strict tops tried.lines tried.draft tried.state in
        if leb target (pokemon_in d) || lines == 4
        then record { finished = true; lines = lines; draft = d; state = s }
        else rest

    unfoldable pub draw_lines : List PoolCard → ℕ → Draft → S → Drawing S
    draw_lines tops target d s =
        let first = draw_pass target true tops 0 d s in
        let second = draw_pass target false tops first.lines first.draft first.state in
        if first.finished then first else second

    -- The queues of `interleave`, each shuffled.
    unfoldable pub queues_of : List ℕ → List PoolCard → S → Drawn (List (List PoolCard)) S
    queues_of [] tops s = record { items = []; state = s }
    queues_of (type ∷ ts) tops s =
        let queue = shuffle rng (filter_by (λ c. first_type_is type c.types) tops) s in
        let rest = queues_of ts tops queue.state in
        record { items = queue.items ∷ rest.items; state = rest.state }

    abbrev pub option_list : Option PoolCard → List PoolCard
    option_list none = []
    option_list (some c) = c ∷ []

    abbrev pub at_turn : ℕ → List (List PoolCard) → List PoolCard
    at_turn i [] = []
    at_turn i (queue ∷ queues) = option_list (get_elem? queue i) ++ at_turn i queues

    abbrev pub longest : List (List PoolCard) → ℕ
    longest [] = 0
    longest (queue ∷ queues) =
        if leb (length queue) (longest queues) then longest queues else length queue

    -- The turns `i`, `i + 1`, ..., of which `n` are left: some queue is longer than `i`.
    unfoldable pub take_turns : ℕ → ℕ → List (List PoolCard) → List PoolCard
    take_turns zero i queues = []
    take_turns (suc n) i queues = at_turn i queues ++ take_turns n (i + 1) queues

    unfoldable pub interleave : List PoolCard → S → Drawn (List PoolCard) S
    interleave tops s =
        let queues = queues_of types tops s in
        record { items = take_turns (longest queues.items) 0 queues.items; state = queues.state }

    pub record Best : Type 0 where
      pub total : ℕ
      pub added : List Added

    -- The loop over the attempts of which `n` are left, and what follows it.
    unfoldable pub attempts : ℕ → ℕ → List PoolCard → Best → Draft → S → Placed S
    attempts zero target tops best d s = record {
      got = best.total;
      draft = add_all best.added d;
      state = s;
    }
    attempts (suc n) target tops best d s =
        let mixed = interleave tops s in
        let r = draw_lines mixed.items target d mixed.state in
        let t = pokemon_in r.draft in
        let next =
          attempts n target tops
            (if ltb best.total t
              then record { total = t; added = since (mark d) r.draft }
              else best)
            (rollback (mark d) r.draft) r.state in
        if leb 16 t then record { got = t; draft = r.draft; state = r.state } else next

    unfoldable pub build_pokemon : Draft → S → Placed S
    build_pokemon d s =
        let target = between rng 16 18 s in
        attempts 5 target.value (filter_by (of_types types) catalog.pokemon)
          (record { total = 0; added = [] }) d target.state
