-- ===== src/Sync/Sweep/Coverage.antt =====
-- What a sweep has covered when it ends, and where the next one goes on.
use mathlib.Core.List.{append-nil, append_assoc}
use pokedrop.Base.{
  ℕ, zero, suc, ◌<◌, ◌≡◌, refl, sym, ap, ap₂, ◌∙◌, ◌≢◌, Bool, true, false, ◌&&◌, ◌||◌, List, [],
  ◌++◌, ◌==◌, leb, if◌then◌else◌, length, take, drop, Bool-cases, inl, inr, arith,
}
use pokedrop.Sync.Providers.{Provider}
use pokedrop.Sync.Runs.{SyncRun}
use pokedrop.Sync.Sweep.{
  Outside, BatchOutcome, advanced, stalled, broken, Ending, completed, Pass, Ended, after, upto,
  batch_end, outcome_of, advance, go_on, progress_write, progress_report, cards_read, after_batch,
  at_end, at_rows, sweep, start,
}
use pokedrop.Sync.Sweep.Order.{IsCatalog, after_self, take-drop, take-empty}
use pokedrop.Sync.Sweep.Parts.{
  pass_of, left_of, later_of, IsPlaced, batch_of-take, left_of-batch, IsPlaced-batch, pass_of-next,
  left_of-last, left_of-empty, later_of-none, later_of-batch,
}

module _ {W : Type 0} (outside : Outside W) (provider : Provider) (cards : List ℕ)
    (batch_size max_stalls started : ℕ) (catalog : IsCatalog cards) (sized : 0 < batch_size) where
  abbrev rest_of : Bool → ℕ → List ℕ
  rest_of b cursor = left_of cards started b cursor ++ later_of cards started b

  -- What a round keeps of a pass.
  record IsUnderway (p : Pass W) : Type 0 where
    placed : IsPlaced cards started p.wrapped p.cursor
    parted : p.swept ++ rest_of p.wrapped p.cursor ≡ pass_of cards started

  -- Where a run ends: nothing of its pass is left if it is complete, and the next run starts with
  -- what is left.
  pub record IsSwept (r : Ended W) : Type 0 where
    pub rest : List ℕ
    pub parted : r.pass.swept ++ rest ≡ pass_of cards started
    pub full : r.ending ≡ completed → rest ≡ []
    pub tail : List ℕ
    pub next : pass_of cards r.pass.cursor ≡ rest ++ tail

  -- A run that is cut short.
  cut-IsSwept :
      (ending : Ending) (p : Pass W)
      → ending ≢ completed
      → IsUnderway p
      → IsSwept (record { ending = ending; pass = p })
  cut-IsSwept ending p short u =
      let (tail, next) = pass_of-next cards started catalog p.wrapped p.cursor u.placed in
      record {
        rest = rest_of p.wrapped p.cursor;
        parted = u.parted;
        full = λ e. absurd (short e);
        tail = tail;
        next = next;
      }

  -- A run that has nothing left, wherever its cursor stands.
  full-IsSwept :
      (p : Pass W)
      → p.swept ≡ pass_of cards started
      → IsSwept (record { ending = completed; pass = p })
  full-IsSwept p e = record {
    rest = [];
    parted = append-nil p.swept ∙ e;
    full = λ _. refl;
    tail = pass_of cards p.cursor;
    next = refl;
  }

  IsUnderway-done :
      (p : Pass W)
      → IsUnderway p
      → left_of cards started p.wrapped p.cursor ≡ []
      → later_of cards started p.wrapped ≡ []
      → p.swept ≡ pass_of cards started
  IsUnderway-done p u none_left none_later =
      sym (append-nil p.swept)
      ∙ ap (λ l. p.swept ++ l) (sym (ap₂ (λ l m. l ++ m) none_left none_later))
      ∙ u.parted

  -- The batch that a round advances by.
  abbrev batch : Pass W → List ℕ
  batch p = take batch_size (left_of cards started p.wrapped p.cursor)

  advance-IsUnderway :
      (p : Pass W) (n f : ℕ) (w : W)
      → IsUnderway p
      → 0 < length (batch p)
      → IsUnderway (advance outside provider cards batch_size max_stalls started p (batch p) n f w)
  advance-IsUnderway p n f w u pos = record {
    placed = IsPlaced-batch cards started catalog p.wrapped batch_size p.cursor u.placed pos;
    parted =
        let left = left_of cards started p.wrapped p.cursor in
        let later = later_of cards started p.wrapped in
        ap (λ l. (p.swept ++ batch p) ++ (l ++ later))
          (left_of-batch cards started catalog p.wrapped batch_size p.cursor pos)
        ∙ append_assoc p.swept (batch p) (drop batch_size left ++ later)
        ∙ ap (λ l. p.swept ++ l) (sym (append_assoc (batch p) (drop batch_size left) later))
        ∙ ap (λ l. p.swept ++ (l ++ later)) (take-drop batch_size left)
        ∙ u.parted;
  }

  abbrev Keeps : (Pass W → Ended W) → Type 0
  Keeps next = (q : Pass W) → IsUnderway q → IsSwept (next q)

  go_on-IsSwept :
      (next : Pass W → Ended W) (p : Pass W) (n f : ℕ) (w : W) (down : Bool)
      → Keeps next
      → IsUnderway p
      → 0 < length (batch p)
      → IsSwept (
          go_on outside provider cards batch_size max_stalls started next p
            (batch p)
            (advance outside provider cards batch_size max_stalls started p (batch p) n f w)
            down)
  go_on-IsSwept next p n f w true keep u pos =
      cut-IsSwept _ _ (λ e. cc) (advance-IsUnderway p n f w u pos)
  go_on-IsSwept next p n f w false keep u pos =
      let q = advance outside provider cards batch_size max_stalls started p (batch p) n f w in
      let moved = advance-IsUnderway p n f w u pos in
      elim (Bool-cases (p.wrapped && leb started (batch_end (batch p)))) [
        | inl e ↦
            let (none_left, none_later) =
              left_of-last cards started p.wrapped (batch_end (batch p)) e in
            rw e (full-IsSwept q (IsUnderway-done q moved none_left none_later))
        | inr e ↦ rw e (keep q moved)
      ]

  after_batch-IsSwept :
      (next : Pass W → Ended W) (p : Pass W) (w : W) (o : BatchOutcome)
      → Keeps next
      → IsUnderway p
      → 0 < length (batch p)
      → IsSwept
          (after_batch outside provider cards batch_size max_stalls started next p (batch p) w o)
  unfolding after_batch
  after_batch-IsSwept next p w broken keep u pos =
      cut-IsSwept _ _ (λ e. cc) (record { placed = u.placed; parted = u.parted })
  after_batch-IsSwept next p w stalled keep u pos =
      let waiting : IsUnderway (record p { stalls = suc p.stalls; world = w }) = record {
        placed = u.placed;
        parted = u.parted;
      } in
      elim (Bool-cases (leb max_stalls (suc p.stalls))) [
        | inl e ↦ rw e (cut-IsSwept _ _ (λ e. cc) waiting)
        | inr e ↦ rw e (keep _ waiting)
      ]
  after_batch-IsSwept next p w (advanced n f down) keep u pos =
      elim (Bool-cases (outside.fails progress_write w)) [
        | inl e ↦ rw e (
            cut-IsSwept _ (record p { world = w }) (λ e. cc)
              (record { placed = u.placed; parted = u.parted }))
        | inr e ↦ elim (Bool-cases (outside.fails progress_report w)) [
          | inl e₁ ↦ rw (e, e₁) (cut-IsSwept _ _ (λ e. cc) (advance-IsUnderway p n f w u pos))
          | inr e₁ ↦ rw (e, e₁) (go_on-IsSwept next p n f w down keep u pos)
        ]
      ]

  wrap-IsUnderway :
      (p : Pass W)
      → p.wrapped ≡ false
      → IsUnderway p
      → after p.cursor cards ≡ []
      → IsUnderway (record p { wrapped = true; cursor = 0 })
  wrap-IsUnderway p unwrapped u none_left =
      let parted : p.swept ++ (after p.cursor cards ++ upto started cards) ≡ pass_of cards started =
        rw unwrapped at u.parted in
      record {
        placed = omega arith;
        parted =
            ap (λ l. p.swept ++ l)
              (append-nil (upto started (after 0 cards))
                ∙ ap (upto started) (after_self 0 cards catalog.0)
                ∙ ap (λ l. l ++ upto started cards) (sym none_left))
            ∙ parted;
      }

  at_end-IsSwept :
      (next : Pass W → Ended W) (p : Pass W)
      → Keeps next
      → IsUnderway p
      → after p.cursor cards ≡ []
      → IsSwept (at_end outside provider cards batch_size max_stalls started next p)
  at_end-IsSwept next p keep u none_left = elim (Bool-cases (p.wrapped || started == 0)) [
    | inl e ↦ rw e (
        full-IsSwept p (
          IsUnderway-done p u (left_of-empty cards started p.wrapped p.cursor none_left)
            (later_of-none cards started catalog p.wrapped e)))
    | inr e ↦ rw e (keep _ (wrap-IsUnderway p (ground (arith, e)) u none_left))
  ]

  at_rows-IsSwept :
      (next : Pass W → Ended W) (p : Pass W) (ids : List ℕ)
      → ids ≡ batch p
      → Keeps next
      → IsUnderway p
      → 0 < length (take batch_size (after p.cursor cards))
      → IsSwept (at_rows outside provider cards batch_size max_stalls started next p ids)
  at_rows-IsSwept next p ids same keep u pos =
      let ran = outside.refresh_batch provider (batch p) p.world in
      rw same (elim (Bool-cases (length (batch p) == 0)) [
        | inl e ↦
            let none_left : length (batch p) ≡ 0 = ground (arith, e) in
            rw e (
              full-IsSwept (record p { cursor = started })
                (IsUnderway-done p u
                  (take-empty batch_size (left_of cards started p.wrapped p.cursor) sized none_left)
                  (later_of-batch cards started p.wrapped batch_size p.cursor pos none_left)))
        | inr e ↦ rw e (
            after_batch-IsSwept next p ran.world
              (outcome_of outside provider cards batch_size max_stalls started (batch p) ran.reply
                ran.world)
              keep u (ground (arith, e)))
      ])

  sweep-IsSwept :
      (fuel : ℕ) → Keeps (sweep outside provider cards batch_size max_stalls started fuel)
  unfolding sweep
  sweep-IsSwept zero p u = cut-IsSwept _ p (λ e. cc) u
  sweep-IsSwept (suc fuel) p u =
      let again = sweep outside provider cards batch_size max_stalls started fuel in
      let rows = take batch_size (after p.cursor cards) in
      elim (Bool-cases (outside.has_headroom provider p.world)) [
        | inr e ↦ rw e (cut-IsSwept _ p (λ e. cc) u)
        | inl e ↦ elim (Bool-cases (outside.fails cards_read p.world)) [
          | inl broken_off ↦ rw (e, broken_off) (cut-IsSwept _ p (λ e. cc) u)
          | inr read ↦ elim (Bool-cases (length rows == 0)) [
            | inl z ↦
                let none_left : length rows ≡ 0 = ground (arith, z) in
                rw (e, read, z)
                  (at_end-IsSwept again p (sweep-IsSwept fuel) u
                    (take-empty batch_size (after p.cursor cards) sized none_left))
            | inr z ↦
                rw (e, read, z)
                  (at_rows-IsSwept again p (if p.wrapped then upto started rows else rows)
                    (batch_of-take cards started catalog p.wrapped batch_size p.cursor)
                    (sweep-IsSwept fuel) u (ground (arith, z)))
          ]
        ]
      ]

  -- What the loop starts with.
  start-IsUnderway :
      (run : SyncRun) (w : W)
      → IsUnderway (start outside provider cards batch_size max_stalls started run w)
  start-IsUnderway run w = record { placed = omega arith; parted = refl }

  -- Over ascending ids and with any fuel, a sweep goes through the ids behind its start and then
  -- through the others, in order: what it swept and what it left make up that pass, nothing is
  -- left if it completed, and a pass that starts at its last cursor begins with what it left.
  pub sweep_covers :
      (fuel : ℕ) (run : SyncRun) (w : W)
      → IsSwept (
          sweep outside provider cards batch_size max_stalls started fuel
            (start outside provider cards batch_size max_stalls started run w))
  sweep_covers fuel run w = sweep-IsSwept fuel _ (start-IsUnderway run w)
