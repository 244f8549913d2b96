-- ===== src/Sync/Process/Earned.antt =====
-- Which runs an attempt marks as succeeded.
use mathlib.Core.List.{append-nil, Memᴰ}
use mathlib.Core.List.Memᴰ
use pokedrop.Base.{
  ℕ, ◌≡◌, refl, sym, ap, ◌∙◌, ◌⊎◌, inl, inr, Bool, true, false, Option, none, some, List, [], ◌∷◌,
  ◌++◌, Bool-cases, arith,
}
use pokedrop.Sync.Providers.{
  Provider, ChosenProvider, Selection, all_open, no_client, selected, Resumption, unregistered,
  abandoned, resumed,
}
use pokedrop.Sync.Runs.{
  price, running, succeeded, partial, SyncRun, find_resumable, new_run, close_run,
}
use pokedrop.Sync.Sweep.{
  Outside, resume_read, abandoned_close, run_start, cursor_read, failed_close, final_write,
  final_close, Ending, completed, contract_broken, budget_exhausted, stalled_out, breaker_opened,
  interrupted, out_of_fuel, Pass, sweep, start, most_rounds,
}
use pokedrop.Sync.Sweep.Order.{IsCatalog}
use pokedrop.Sync.Sweep.Parts.{pass_of}
use pokedrop.Sync.Sweep.Coverage.{sweep_covers}
use pokedrop.Sync.Process.{
  Attempt, conclude, finish_as, finish, run_from, begin_with, resume_with, process_with, process,
  price_batch_size,
}
use pokedrop.Sync.Process.Written.{row_of-update_run, Stood, Stood-here, finish_as-IsNew}
use pokedrop.Sync.Providers.Primary.{select_provider-primary, resume_provider-primary}

-- The cards that an attempt has swept are those of its loop, however it ends.
module _ {W : Type 0} (outside : Outside W) (cards : List ℕ) (max_stalls : ℕ) where
  concluded :
      (p : Pass W) (all : Bool) (runs : List SyncRun) (choice : ChosenProvider) (id : ℕ)
      → (conclude outside cards max_stalls choice id p all runs).swept ≡ p.swept
  concluded p all runs choice id = elim (Bool-cases (outside.fails final_write p.world)) [
    | inl f ↦ rw f refl
    | inr f ↦ elim (Bool-cases (outside.fails final_close p.world)) [
      | inl f₁ ↦ rw (f, f₁) refl
      | inr f₁ ↦ rw (f, f₁) refl
    ]
  ]

  swept_of :
      (p : Pass W) (ending : Ending) (runs : List SyncRun) (choice : ChosenProvider) (id : ℕ)
      → (finish_as outside cards max_stalls choice id p ending runs).swept ≡ p.swept
  swept_of p interrupted runs choice id = refl
  swept_of p contract_broken runs choice id =
      elim (Bool-cases (outside.fails failed_close p.world)) [
        | inl f ↦ rw f refl
        | inr f ↦ rw f refl
      ]
  swept_of p completed runs choice id = concluded p true runs choice id
  swept_of p budget_exhausted runs choice id = concluded p false runs choice id
  swept_of p stalled_out runs choice id = concluded p false runs choice id
  swept_of p breaker_opened runs choice id = concluded p false runs choice id
  swept_of p out_of_fuel runs choice id = concluded p false runs choice id

module _ {W : Type 0} (outside : Outside W) (cards : List ℕ) (max_stalls : ℕ)
    (catalog : IsCatalog cards) (primary : Provider) where
  -- An attempt in a world `w` that swept the whole catalog, in the order that starts behind some id,
  -- through the primary while its breaker was closed.
  pub record IsWhole (w : W) (swept : List ℕ) (row : SyncRun) : Type 0 where
    pub started : ℕ
    pub whole : swept ≡ pass_of cards started
    pub none_failed : row.failed ≡ 0
    pub closed : outside.is_open primary w ≡ false

  -- What an attempt over `runs` may mark as succeeded.
  abbrev pub Earns : W → List SyncRun → SyncRun → Attempt W → Type 0
  Earns w runs row r =
      Memᴰ row r.runs → row.status ≡ succeeded → Stood row runs ⊎ IsWhole w r.swept row

  run_from-Earns :
      (started : ℕ) (choice : ChosenProvider) (run : SyncRun) (runs : List SyncRun) (w : W)
      → (row : SyncRun) → (choice.is_fallback ≡ false → outside.is_open primary w ≡ false)
      → Earns w runs row (run_from outside cards max_stalls started choice run runs w)
  unfolding run_from finish
  run_from-Earns started choice run runs w row closed m e =
      let ended =
        sweep outside choice.name cards price_batch_size max_stalls started
          (most_rounds cards max_stalls)
          (start outside choice.name cards price_batch_size max_stalls started run w) in
      elim (finish_as-IsNew outside cards max_stalls choice run.id row runs ended.ending ended.pass
        m e) [
          | inl k ↦ inl k
          | inr (full, none_failed, is_primary) ↦
              let covered =
                sweep_covers outside choice.name cards price_batch_size max_stalls started catalog
                  (omega arith) (most_rounds cards max_stalls) run w in
              inr (record {
                started = started;
                whole =
                    swept_of outside cards max_stalls ended.pass ended.ending runs choice run.id
                    ∙ sym (append-nil ended.pass.swept)
                    ∙ ap (λ l. ended.pass.swept ++ l) (sym (covered.full full))
                    ∙ covered.parted;
                none_failed = none_failed;
                closed = closed is_primary;
              })
        ]

  created-Stood :
      (run row : SyncRun) (runs : List SyncRun)
      → run.status ≡ running
      → Stood row (runs ++ (run ∷ []))
      → Stood row runs
  created-Stood run row runs r s = elim (Memᴰ.append_cases runs s.there) [
    | inl k ↦ record {
      old = s.old;
      there = k;
      id_same = s.id_same;
      succeeded_before = s.succeeded_before;
    }
    | inr k ↦ elim (Memᴰ.cases_cons k) [
      | inl same ↦ absurd (
          let f : running ≡ succeeded =
            sym r ∙ sym (ap (λ (x : SyncRun). x.status) same) ∙ s.succeeded_before in
          cc)
      | inr none_more ↦ absurd (Memᴰ.not-nil none_more)
    ]
  ]

  begin_with-Earns :
      (job id : ℕ) (runs : List SyncRun) (w : W) (s : Selection) (row : SyncRun)
      → ((choice : ChosenProvider)
          → s ≡ selected choice
          → choice.is_fallback ≡ false
          → outside.is_open primary w ≡ false)
      → Earns w runs row (begin_with outside cards max_stalls job id runs w s)
  begin_with-Earns job id runs w all_open row closed = λ m e. inl (Stood-here row runs m e)
  begin_with-Earns job id runs w no_client row closed = λ m e. inl (Stood-here row runs m e)
  begin_with-Earns job id runs w (selected choice) row closed =
      let run = new_run price choice.name job id in
      elim (Bool-cases (outside.fails run_start w)) [
        | inl f ↦ rw f (λ m e. inl (Stood-here row runs m e))
        | inr f ↦ elim (Bool-cases (outside.fails cursor_read w)) [
          | inl f₁ ↦
              rw (f, f₁)
                (λ m e.
                  inl (created-Stood run row runs refl (Stood-here row (runs ++ (run ∷ [])) m e)))
          | inr f₁ ↦
              rw (f, f₁)
                (λ m e.
                  elim (run_from-Earns _ choice run (runs ++ (run ∷ [])) w row (closed choice refl)
                    m e) [ inl k ↦ inl (created-Stood run row runs refl k) | inr k ↦ inr k ])
        ]
      ]

  resume_with-Earns :
      (run : SyncRun) (runs : List SyncRun) (w : W) (s : Resumption) (row : SyncRun)
      → ((choice : ChosenProvider)
          → s ≡ resumed choice
          → choice.is_fallback ≡ false
          → outside.is_open primary w ≡ false)
      → Earns w runs row (resume_with outside cards max_stalls run runs w s)
  unfolding close_run
  resume_with-Earns run runs w unregistered row closed = λ m e. inl (Stood-here row runs m e)
  resume_with-Earns run runs w abandoned row closed =
      elim (Bool-cases (outside.fails abandoned_close w)) [
        | inl f ↦ rw f (λ m e. inl (Stood-here row runs m e))
        | inr f ↦ rw f (λ m e. elim (row_of-update_run run.id _ row runs m) [
          | inl k ↦ inl (Stood-here row runs k e)
          | inr (old, _, same) ↦
              absurd (let g : partial ≡ succeeded = sym (ap (λ r. r.status) same) ∙ e in cc)
        ])
      ]
  resume_with-Earns run runs w (resumed choice) row closed =
      elim (Bool-cases (outside.fails run_start w)) [
        | inl f ↦ rw f (λ m e. inl (Stood-here row runs m e))
        | inr f ↦ rw f (λ m e. run_from-Earns _ choice run runs w row (closed choice refl) m e)
      ]

  -- Over ascending ids, and whatever calls fail, a row that an attempt at a price sweep leaves as
  -- succeeded either has an id that stood so in the table before, or counts no failed card, and
  -- the attempt has then swept every card of the catalog once, in the order that starts behind
  -- some id, with the primary's breaker closed as it began.
  pub process-earned :
      (names : List Provider) (job id : ℕ) (runs : List SyncRun) (w : W) (row : SyncRun)
      → let r = process outside cards max_stalls primary names job id runs w in
        Memᴰ row r.runs → row.status ≡ succeeded → Stood row runs ⊎ IsWhole w r.swept row
  unfolding process
  process-earned names job id runs w row = elim (Bool-cases (outside.fails resume_read w)) [
    | inl f ↦ rw f (λ m e. inl (Stood-here row runs m e))
    | inr f ↦ rw f (go (find_resumable price job runs))
  ]
    where
      go :
          (found : Option SyncRun)
          → Earns w runs row
              (process_with outside cards max_stalls primary names job id runs w found)
      go none =
          begin_with-Earns job id runs w _ row
            (λ choice. select_provider-primary primary names _ choice)
      go (some run) =
          resume_with-Earns run runs w _ row
            (λ choice. resume_provider-primary primary names _ run.provider choice)
