-- ===== src/Sync/Process/Finished.antt =====
-- What an attempt leaves in the table of runs.
use pokedrop.Base.{
  arith, map, if◌then◌else◌, ℕ, ◌≤◌, ◌≡◌, refl, Bool, true, false, ◌&&◌, not, Option, none, some,
  List, [], ◌∷◌, ◌++◌, ◌==◌, length, Bool-cases, inl, inr,
}
use pokedrop.Sync.Providers.{
  Provider, ChosenProvider, Selection, all_open, no_client, selected, Resumption, unregistered,
  abandoned, resumed,
}
use pokedrop.Sync.Runs.{
  close_if_finally_failed, price, SyncStatus, partial, failed_status, SyncRun, owns, is_running,
  close_if_finally_failed, find_last, find_resumable, new_run, update_run, record_progress,
  close_run, kind_index,
}
use pokedrop.Sync.Sweep.{
  resume_read, abandoned_close, run_start, cursor_read, failed_close, final_write, final_close,
  interrupted, Outside, Ending, completed, contract_broken, budget_exhausted, stalled_out,
  breaker_opened, out_of_fuel, Pass, sweep, start, most_rounds,
}
use pokedrop.Sync.Process.{
  Thrown, every_breaker_open, provider_unregistered, contract_changed, call_failed, status_of,
  write_back, conclude, finish_as, finish, run_from, begin_with, resume_with, process_with, process,
  price_batch_size,
}
use pokedrop.Sync.Process.Owned.{
  running_of, OwnedBy, find_last-none, find_last-some, created-OwnedBy, running_of-update_run,
  running_of-kept, created-few, update_run-twice,
}

owns-not_running :
    (job : ℕ) (run : SyncRun) (status : SyncStatus)
    → is_running status ≡ false
    → owns price job (record run { status = status }) ≡ false
owns-not_running job run status e = elim (Bool-cases (kind_index run.kind == 1)) [
  | inl p ↦ rw (p, e) refl
  | inr p ↦ rw p refl
]

-- The final failure of a job.
running_of-failed :
    (job : ℕ) (runs : List SyncRun)
    → running_of job (
        map (λ run. if owns price job run then record run { status = failed_status } else run) runs)
      ≡ []
running_of-failed job [] = refl
running_of-failed job (run ∷ runs) =
    let rest = running_of-failed job runs in
    elim (Bool-cases (owns price job run)) [
      | inl p ↦ rw (p, owns-not_running job run failed_status refl, rest)
      | inr p ↦ rw (p, p, rest)
    ]

-- The write of a run's progress, and then of a status that is not running.
running_of-close_run :
    (job id : ℕ) (g : SyncRun → SyncRun) (status : SyncStatus) (runs : List SyncRun)
    → ((run : SyncRun) → (g run).id ≡ run.id)
    → is_running status ≡ false
    → OwnedBy job id runs
    → running_of job (close_run id status (update_run id g runs)) ≡ []
unfolding close_run
running_of-close_run job id g status runs keep closed owned =
    rw (update_run-twice id (λ run. record run { status = status }) g runs keep) (
      running_of-update_run job id (λ run. record (g run) { status = status }) runs
        (λ run. owns-not_running job (g run) status closed) owned)

is_running-status_of :
    (all : Bool) (failed : ℕ) (choice : ChosenProvider)
    → is_running (status_of all failed choice) ≡ false
is_running-status_of all failed choice =
    elim (Bool-cases (all && (failed == 0 && not choice.is_fallback))) [
      | inl e ↦ rw e refl
      | inr e ↦ rw e refl
    ]

-- What an attempt leaves: no running row of its job; the table as it was; or, if a call failed, one
-- such row at most, which the next attempt resumes.
abbrev pub IsLeft : ℕ → List SyncRun → Option Thrown → List SyncRun → Type 0
IsLeft job before none runs = running_of job runs ≡ []
IsLeft job before (some contract_changed) runs = running_of job runs ≡ []
IsLeft job before (some every_breaker_open) runs = runs ≡ before
IsLeft job before (some provider_unregistered) runs = runs ≡ before
IsLeft job before (some call_failed) runs = length (running_of job runs) ≤ 1

module _ {W : Type 0} (outside : Outside W) (cards : List ℕ) (max_stalls job : ℕ) where
  module _ (before : List SyncRun) (choice : ChosenProvider) (id : ℕ) (runs : List SyncRun)
      (owned : OwnedBy job id runs) (few : length (running_of job runs) ≤ 1) where
    write_back-few : (p : Pass W) → length (running_of job (write_back id p runs)) ≤ 1
    write_back-few p = rw (running_of-kept job id _ runs (λ run. refl)) few

    conclude-IsLeft :
        (p : Pass W) (all : Bool)
        → let r = conclude outside cards max_stalls choice id p all runs in
          IsLeft job before r.thrown r.runs
    unfolding record_progress
    conclude-IsLeft p all = elim (Bool-cases (outside.fails final_write p.world)) [
      | inl e ↦ rw e (write_back-few p)
      | inr e ↦ elim (Bool-cases (outside.fails final_close p.world)) [
        | inl e₁ ↦ rw (e, e₁) (rw (running_of-kept job id _ runs (λ run. refl)) few)
        | inr e₁ ↦
            rw (e, e₁)
              (running_of-close_run job id _ _ runs (λ run. refl)
                (is_running-status_of all p.failed choice) owned)
      ]
    ]

    finish_as-IsLeft :
        (p : Pass W) (ending : Ending)
        → let r = finish_as outside cards max_stalls choice id p ending runs in
          IsLeft job before r.thrown r.runs
    finish_as-IsLeft p interrupted = write_back-few p
    finish_as-IsLeft p contract_broken = elim (Bool-cases (outside.fails failed_close p.world)) [
      | inl e ↦ rw e (write_back-few p)
      | inr e ↦ rw e (running_of-close_run job id _ failed_status runs (λ run. refl) refl owned)
    ]
    finish_as-IsLeft p completed = conclude-IsLeft p true
    finish_as-IsLeft p budget_exhausted = conclude-IsLeft p false
    finish_as-IsLeft p stalled_out = conclude-IsLeft p false
    finish_as-IsLeft p breaker_opened = conclude-IsLeft p false
    finish_as-IsLeft p out_of_fuel = conclude-IsLeft p false

  run_from-IsLeft :
      (before : List SyncRun) (started : ℕ) (choice : ChosenProvider) (run : SyncRun)
      → (runs : List SyncRun) (w : W) → OwnedBy job run.id runs
      → length (running_of job runs) ≤ 1
      → let r = run_from outside cards max_stalls started choice run runs w in
        IsLeft job before r.thrown r.runs
  unfolding run_from finish
  run_from-IsLeft before started choice run runs w owned few =
      let ended =
        sweep outside choice.name cards price_batch_size max_stalls started
          (most_rounds cards max_stalls)
          (start outside choice.name cards price_batch_size max_stalls started run w) in
      finish_as-IsLeft before choice run.id runs owned few ended.pass ended.ending

  begin_with-IsLeft :
      (id : ℕ) (runs : List SyncRun) (w : W) (s : Selection)
      → running_of job runs ≡ []
      → let r = begin_with outside cards max_stalls job id runs w s in
        IsLeft job runs r.thrown r.runs
  begin_with-IsLeft id runs w all_open e = refl
  begin_with-IsLeft id runs w no_client e = refl
  begin_with-IsLeft id runs w (selected choice) none_left =
      let run = new_run price choice.name job id in
      elim (Bool-cases (outside.fails run_start w)) [
        | inl e ↦ rw (e, none_left) (omega arith)
        | inr e ↦ elim (Bool-cases (outside.fails cursor_read w)) [
          | inl e₁ ↦ rw (e, e₁) (created-few job run runs none_left)
          | inr e₁ ↦
              rw (e, e₁)
                (run_from-IsLeft runs _ choice run (runs ++ (run ∷ [])) w
                  (created-OwnedBy job run runs none_left) (created-few job run runs none_left))
        ]
      ]

  resume_with-IsLeft :
      (run : SyncRun) (runs : List SyncRun) (w : W) (s : Resumption)
      → OwnedBy job run.id runs
      → length (running_of job runs) ≤ 1
      → let r = resume_with outside cards max_stalls run runs w s in IsLeft job runs r.thrown r.runs
  unfolding close_run
  resume_with-IsLeft run runs w unregistered owned few = refl
  resume_with-IsLeft run runs w abandoned owned few =
      elim (Bool-cases (outside.fails abandoned_close w)) [
        | inl e ↦ rw e few
        | inr e ↦ rw e (
            running_of-update_run job run.id _ runs (λ r. owns-not_running job r partial refl)
              owned)
      ]
  resume_with-IsLeft run runs w (resumed choice) owned few =
      elim (Bool-cases (outside.fails run_start w)) [
        | inl e ↦ rw e few
        | inr e ↦ rw e (run_from-IsLeft runs _ choice run runs w owned few)
      ]

  attempt-IsLeft :
      (primary : Provider) (names : List Provider) (id : ℕ) (runs : List SyncRun) (w : W)
      → length (running_of job runs) ≤ 1
      → let r = process outside cards max_stalls primary names job id runs w in
        IsLeft job runs r.thrown r.runs
  unfolding process find_resumable
  attempt-IsLeft primary names id runs w few = elim (Bool-cases (outside.fails resume_read w)) [
    | inl e ↦ rw e few
    | inr e ↦ rw e (go (find_last (owns price job) runs) refl)
  ]
    where
      go :
          (found : Option SyncRun)
          → find_last (owns price job) runs ≡ found
          → let r = process_with outside cards max_stalls primary names job id runs w found in
            IsLeft job runs r.thrown r.runs
      go none e = begin_with-IsLeft id runs w _ (find_last-none job runs e)
      go (some run) e = resume_with-IsLeft run runs w _ (find_last-some job run runs few e) few

  -- An attempt at a job with at most one running row leaves it none, if it ends without an error
  -- or by a contract error; it leaves the table as it was, if every breaker is open or its
  -- provider is not registered; and it leaves one at most, for the next attempt, if a call to the
  -- database or the queue fails on its way. The close of a job that has failed for good then
  -- leaves none, and that of a job with attempts left changes nothing.
  pub process-IsLeft :
      (primary : Provider) (names : List Provider) (id : ℕ) (runs : List SyncRun) (w : W)
      → length (running_of job runs) ≤ 1
      → let r = process outside cards max_stalls primary names job id runs w in
        IsLeft job runs r.thrown r.runs
        × (running_of job (close_if_finally_failed price (some job) true r.runs) ≡ [])
        × (close_if_finally_failed price (some job) false r.runs ≡ r.runs)
  unfolding close_if_finally_failed
  process-IsLeft primary names id runs w few = (
    attempt-IsLeft primary names id runs w few,
    running_of-failed job (process outside cards max_stalls primary names job id runs w).runs,
    refl,
  )
