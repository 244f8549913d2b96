-- ===== src/Sync/Process.antt =====
-- apps/api/src/sync/price-sweep.processor.ts: `process`, one attempt at a job of the price sweep. The
-- progress that the loop writes to the run's row is written at its end.
pub mod Owned
pub mod Finished
pub mod Written
pub mod Earned
use pokedrop.Base.{
  ℕ, zero, suc, ◌+◌, Bool, true, false, ◌&&◌, ◌||◌, not, Option, none, some, List, [], ◌∷◌, ◌++◌,
  ◌==◌, if◌then◌else◌,
}
use pokedrop.Sync.Providers.{
  Provider, ChosenProvider, Selection, all_open, no_client, selected, select_provider, Resumption,
  unregistered, abandoned, resumed, resume_provider,
}
use pokedrop.Sync.Runs.{
  SyncKind, price, SyncStatus, succeeded, partial, failed_status, SyncRun, find_resumable, new_run,
  update_run, record_progress, close_run, read_cursor, last_closed_cursor,
}
use pokedrop.Sync.Sweep.{
  Outside, resume_read, abandoned_close, run_start, cursor_read, failed_close, final_write,
  final_close, Ending, completed, contract_broken, interrupted, Pass, Ended, most_rounds, sweep,
  start,
}

-- What an attempt throws; `call_failed` is the error of a call that nothing catches.
pub data Thrown : Type 0 where
  every_breaker_open provider_unregistered contract_changed call_failed : Thrown

-- `swept` are the cards that the attempt's loop has advanced over.
pub record Attempt (W : Type 0) : Type 0 where
  pub runs : List SyncRun
  pub thrown : Option Thrown
  pub swept : List ℕ
  pub world : W

-- `BATCH_SIZE`
abbrev pub price_batch_size : ℕ
price_batch_size = 250

abbrev pub is_completed : Ending → Bool
is_completed completed = true
is_completed _ = false

abbrev pub status_of : Bool → ℕ → ChosenProvider → SyncStatus
status_of all failed choice =
    if all && (failed == 0 && not choice.is_fallback) then succeeded else partial

-- The write of the progress that the loop last recorded.
abbrev pub write_back : {W : Type 0} → ℕ → Pass W → List SyncRun → List SyncRun
write_back id p =
    update_run id
      (λ run. record run { processed = p.processed; failed = p.failed; cursor = p.recorded })

abbrev pub give_up : {W : Type 0} → List SyncRun → W → Option Thrown → Attempt W
give_up runs w thrown = record { runs = runs; thrown = thrown; swept = []; world = w }

module _ {W : Type 0} (outside : Outside W) (cards : List ℕ) (max_stalls : ℕ) where
  abbrev pub leave : Pass W → List SyncRun → Option Thrown → Attempt W
  leave p runs thrown = record { runs = runs; thrown = thrown; swept = p.swept; world = p.world }

  -- What follows the loop, which has ended by itself.
  abbrev pub conclude : ChosenProvider → ℕ → Pass W → Bool → List SyncRun → Attempt W
  conclude choice id p all runs =
      let written = record_progress id p.processed p.failed p.cursor runs in
      if outside.fails final_write p.world
      then leave p (write_back id p runs) (some call_failed)
      else if outside.fails final_close p.world
      then leave p written (some call_failed)
      else leave p (close_run id (status_of all p.failed choice) written) none

  -- What follows the loop, however it ended. A contract error, or a failed call, leaves the
  -- progress of the last batch.
  abbrev pub finish_as : ChosenProvider → ℕ → Pass W → Ending → List SyncRun → Attempt W
  finish_as choice id p interrupted runs = leave p (write_back id p runs) (some call_failed)
  finish_as choice id p contract_broken runs =
      let written = write_back id p runs in
      if outside.fails failed_close p.world
      then leave p written (some call_failed)
      else leave p (close_run id failed_status written) (some contract_changed)
  finish_as choice id p ending runs = conclude choice id p (is_completed ending) runs

  unfoldable pub finish : ChosenProvider → SyncRun → List SyncRun → Ended W → Attempt W
  finish choice run runs ended = finish_as choice run.id ended.pass ended.ending runs

  -- The loop of a run and what follows it.
  unfoldable pub run_from : ℕ → ChosenProvider → SyncRun → List SyncRun → W → Attempt W
  run_from started choice run runs w = finish choice run runs (
      sweep outside choice.name cards price_batch_size max_stalls started
        (most_rounds cards max_stalls)
        (start outside choice.name cards price_batch_size max_stalls started run w))

  -- A job with no run of its own: `id` is that of the row it creates.
  abbrev pub begin_with : ℕ → ℕ → List SyncRun → W → Selection → Attempt W
  begin_with job id runs w all_open = give_up runs w (some every_breaker_open)
  begin_with job id runs w no_client = give_up runs w (some provider_unregistered)
  begin_with job id runs w (selected choice) =
      let run = new_run price choice.name job id in
      let created = runs ++ (run ∷ []) in
      let ran = run_from (last_closed_cursor price created) choice run created w in
      if outside.fails run_start w
      then give_up runs w (some call_failed)
      else if outside.fails cursor_read w
      then give_up created w (some call_failed)
      else ran

  -- A job that continues its run.
  abbrev pub resume_with : SyncRun → List SyncRun → W → Resumption → Attempt W
  resume_with run runs w unregistered = give_up runs w (some provider_unregistered)
  resume_with run runs w abandoned =
      if outside.fails abandoned_close w
      then give_up runs w (some call_failed)
      else give_up (close_run run.id partial runs) w none
  resume_with run runs w (resumed choice) =
      let ran = run_from (read_cursor run.cursor) choice run runs w in
      if outside.fails run_start w then give_up runs w (some call_failed) else ran

  abbrev pub process_with :
      Provider → List Provider → ℕ → ℕ → List SyncRun → W → Option SyncRun → Attempt W
  process_with primary names job id runs w none =
      begin_with job id runs w (select_provider primary names (λ name. outside.is_open name w))
  process_with primary names job id runs w (some run) =
      resume_with run runs w
        (resume_provider primary names (λ name. outside.is_open name w) run.provider)

  unfoldable pub process : Provider → List Provider → ℕ → ℕ → List SyncRun → W → Attempt W
  process primary names job id runs w =
      let ran = process_with primary names job id runs w (find_resumable price job runs) in
      if outside.fails resume_read w then give_up runs w (some call_failed) else ran
