-- ===== src/Sync/Sweep/Rounds.antt =====
-- How many rounds a sweep takes: each batch that is not stalled leaves fewer cards, a batch stalls
-- at most `max_stalls` times in a row, and the cursor wraps once.
use pokedrop.Base.{
  ℕ, zero, suc, ◌+◌, ◌*◌, ◌-◌, ◌≤◌, ◌<◌, ◌≡◌, sym, ap, subst, ◌∙◌, ◌≢◌, Bool, true, false, ◌&&◌,
  ◌||◌, List, [], ◌∷◌, ◌==◌, leb, if◌then◌else◌, length, length-append, take, drop, Bool-cases, inl,
  inr, arith,
}
use pokedrop.Sync.Providers.{Provider}
use pokedrop.Sync.Runs.{SyncRun}
use pokedrop.Sync.Sweep.{
  Outside, BatchOutcome, advanced, stalled, broken, out_of_fuel, Pass, Ended, after, upto,
  batch_end, outcome_of, advance, go_on, progress_write, progress_report, cards_read, after_batch,
  at_end, at_rows, sweep, start, most_rounds,
}
use pokedrop.Sync.Sweep.Order.{IsCatalog, after_self, take-empty, upto-append-after}
use pokedrop.Sync.Sweep.Parts.{left_of, later_of, batch_of-take, left_of-batch}

length-drop : (n : ℕ) (xs : List ℕ) → 0 < length (take n xs) → length (drop n xs) < length xs
length-drop zero xs pos = absurd (omega arith)
length-drop (suc zero) (x ∷ xs) pos = omega arith
length-drop (suc (suc n)) (x ∷ []) pos = omega arith
length-drop (suc (suc n)) (x ∷ y ∷ ys) pos =
    omega (arith, length-drop (suc n) (y ∷ ys) (omega arith))
length-drop (suc n) [] pos = absurd (omega arith)

-- Less to do is fewer rounds, whatever the stalls then are.
rounds-lt :
    (c d m s t : ℕ) → c < d → s ≤ m → t ≤ m → c * suc m + (suc m - t) < d * suc m + (suc m - s)
rounds-lt c zero m s t h k l = absurd (omega (arith, h))
rounds-lt zero (suc d) m s t h k l = omega (arith, k, l)
rounds-lt (suc c) (suc d) m s t h k l = omega (arith, rounds-lt c d m s t (omega (arith, h)) k l)

module _ (cards : List ℕ) (started : ℕ) where
  -- The wraps that are left.
  abbrev pub wraps : Bool → ℕ
  wraps false = 1
  wraps true = 0

  abbrev pub work_of : Bool → ℕ → ℕ
  work_of b cursor =
      length (left_of cards started b cursor) + length (later_of cards started b) + wraps b

  -- A batch leaves less.
  work_of-lt :
      IsCatalog cards
      → (b : Bool) (n cursor : ℕ) → 0 < length (take n (left_of cards started b cursor))
      → work_of b (batch_end (take n (left_of cards started b cursor))) < work_of b cursor
  work_of-lt catalog b n cursor pos =
      let shorter = length-drop n (left_of cards started b cursor) pos in
      rw (left_of-batch cards started catalog b n cursor pos) (omega (arith, shorter))

  -- So does the wrap.
  work_of-wrap :
      IsCatalog cards
      → (cursor : ℕ) → after cursor cards ≡ []
      → work_of true 0 < work_of false cursor
  work_of-wrap catalog cursor none_left =
      let same : upto started (after 0 cards) ≡ upto started cards =
        ap (upto started) (after_self 0 cards catalog.0) in
      rw (none_left, same) (omega arith)

module _ {W : Type 0} (outside : Outside W) (provider : Provider) (cards : List ℕ)
    (batch_size max_stalls started : ℕ) (catalog : IsCatalog cards) (sized : 0 < batch_size) where
  abbrev pub rounds : Pass W → ℕ
  rounds p = work_of cards started p.wrapped p.cursor * suc max_stalls + (suc max_stalls - p.stalls)

  abbrev Ends : (Pass W → Ended W) → ℕ → Type 0
  Ends next fuel =
      (q : Pass W) → q.stalls ≤ max_stalls → rounds q ≤ fuel → (next q).ending ≢ out_of_fuel

  abbrev batch : Pass W → List ℕ
  batch p = take batch_size (left_of cards started p.wrapped p.cursor)

  go_on-Ends :
      (next : Pass W → Ended W) (fuel : ℕ) (p : Pass W) (n f : ℕ) (w : W) (down : Bool)
      → Ends next fuel
      → p.stalls ≤ max_stalls
      → rounds p ≤ suc fuel
      → 0 < length (batch p)
      → (go_on outside provider cards batch_size max_stalls started next p
          (batch p)
          (advance outside provider cards batch_size max_stalls started p (batch p) n f w)
          down).ending
        ≢ out_of_fuel
  go_on-Ends next fuel p n f w true keep few enough pos = λ e. cc
  go_on-Ends next fuel p n f w false keep few enough pos =
      let shorter = work_of-lt cards started catalog p.wrapped batch_size p.cursor pos in
      let less = rounds-lt _ _ max_stalls p.stalls 0 shorter few (omega arith) in
      elim (Bool-cases (p.wrapped && leb started (batch_end (batch p)))) [
        | inl e ↦ rw e (λ e. cc)
        | inr e ↦ rw e (keep _ (omega arith) (omega (arith, less, enough)))
      ]

  after_batch-Ends :
      (next : Pass W → Ended W) (fuel : ℕ) (p : Pass W) (w : W) (o : BatchOutcome)
      → Ends next fuel
      → p.stalls ≤ max_stalls
      → rounds p ≤ suc fuel
      → 0 < length (batch p)
      → (after_batch outside provider cards batch_size max_stalls started next p
          (batch p)
          w
          o).ending
        ≢ out_of_fuel
  unfolding after_batch
  after_batch-Ends next fuel p w broken keep few enough pos = λ e. cc
  after_batch-Ends next fuel p w stalled keep few enough pos =
      elim (Bool-cases (leb max_stalls (suc p.stalls))) [
        | inl e ↦ rw e (λ e. cc)
        | inr e ↦
            let fewer : suc p.stalls ≤ max_stalls = ground (arith, e) in
            rw e (keep _ fewer (omega (arith, fewer, enough)))
      ]
  after_batch-Ends next fuel p w (advanced n f down) keep few enough pos =
      elim (Bool-cases (outside.fails progress_write w)) [
        | inl e ↦ rw e (λ e. cc)
        | inr e ↦ elim (Bool-cases (outside.fails progress_report w)) [
          | inl e₁ ↦ rw (e, e₁) (λ e. cc)
          | inr e₁ ↦ rw (e, e₁) (go_on-Ends next fuel p n f w down keep few enough pos)
        ]
      ]

  at_end-Ends :
      (next : Pass W → Ended W) (fuel : ℕ) (p : Pass W)
      → Ends next fuel
      → p.stalls ≤ max_stalls
      → rounds p ≤ suc fuel
      → after p.cursor cards ≡ []
      → (at_end outside provider cards batch_size max_stalls started next p).ending ≢ out_of_fuel
  at_end-Ends next fuel p keep few enough none_left =
      elim (Bool-cases (p.wrapped || started == 0)) [
        | inl e ↦ rw e (λ e. cc)
        | inr e ↦
            let unwrapped : p.wrapped ≡ false = ground (arith, e) in
            let full =
              subst
                (λ b.
                  work_of cards started b p.cursor * suc max_stalls + (suc max_stalls - p.stalls)
                  ≤ suc fuel)
                unwrapped enough in
            let less =
              rounds-lt _ _ max_stalls p.stalls p.stalls
                (work_of-wrap cards started catalog p.cursor none_left) few few in
            rw e (keep _ few (omega (arith, less, full)))
      ]

  at_rows-Ends :
      (next : Pass W → Ended W) (fuel : ℕ) (p : Pass W) (ids : List ℕ)
      → ids ≡ batch p
      → Ends next fuel
      → p.stalls ≤ max_stalls
      → rounds p ≤ suc fuel
      → (at_rows outside provider cards batch_size max_stalls started next p ids).ending
        ≢ out_of_fuel
  at_rows-Ends next fuel p ids same keep few enough =
      let ran = outside.refresh_batch provider (batch p) p.world in
      rw same (elim (Bool-cases (length (batch p) == 0)) [
        | inl e ↦ rw e (λ e. cc)
        | inr e ↦ rw e (
            after_batch-Ends next fuel p ran.world
              (outcome_of outside provider cards batch_size max_stalls started (batch p) ran.reply
                ran.world)
              keep few enough (ground (arith, e)))
      ])

  sweep-Ends :
      (fuel : ℕ) → Ends (sweep outside provider cards batch_size max_stalls started fuel) fuel
  unfolding sweep
  sweep-Ends zero p few enough = absurd (omega (arith, few, enough))
  sweep-Ends (suc fuel) p few enough =
      let again = sweep outside provider cards batch_size max_stalls started fuel in
      let rows = take batch_size (after p.cursor cards) in
      elim (Bool-cases (outside.has_headroom provider p.world)) [
        | inr e ↦ rw e (λ e. cc)
        | inl e ↦ elim (Bool-cases (outside.fails cards_read p.world)) [
          | inl broken_off ↦ rw (e, broken_off) (λ e. cc)
          | inr read ↦ elim (Bool-cases (length rows == 0)) [
            | inl z ↦
                let none_left : length rows ≡ 0 = ground (arith, z) in
                rw (e, read, z)
                  (at_end-Ends again fuel p (sweep-Ends fuel) few enough
                    (take-empty batch_size (after p.cursor cards) sized none_left))
            | inr z ↦
                rw (e, read, z)
                  (at_rows-Ends again fuel p (if p.wrapped then upto started rows else rows)
                    (batch_of-take cards started catalog p.wrapped batch_size p.cursor)
                    (sweep-Ends fuel) few enough)
          ]
        ]
      ]

  work_of-start : work_of cards started false started ≡ length cards + 1
  work_of-start =
      let parted =
        sym (length-append (upto started cards) (after started cards))
        ∙ ap length (upto-append-after started cards catalog.1) in
      omega (arith, parted)

  -- Over ascending ids a sweep ends, and does not run out of fuel, if it has as many rounds as
  -- two more than the number of cards, times one more than the most stalls in a row.
  pub sweep-total :
      (fuel : ℕ) (run : SyncRun) (w : W)
      → most_rounds cards max_stalls ≤ fuel
      → (sweep outside provider cards batch_size max_stalls started fuel
          (start outside provider cards batch_size max_stalls started run w)).ending
        ≢ out_of_fuel
  sweep-total fuel run w enough =
      let full : (length cards + 1) * suc max_stalls + suc max_stalls ≤ fuel =
        omega (arith, enough) in
      sweep-Ends fuel _ (omega arith) (rw work_of-start (omega (arith, full)))
