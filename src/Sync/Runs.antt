-- ===== src/Sync/Runs.antt =====
-- apps/api/src/sync/sync-run.service.ts: the rows of sync runs, oldest first. Ids of cards are
-- compared, so a cursor is a number, 0 before every card; times, and the texts of errors, are left
-- out.
use pokedrop.Base.{
  ℕ, Bool, true, false, ◌&&◌, not, Option, none, some, List, [], ◌∷◌, ◌==◌, if◌then◌else◌, map,
}

pub data SyncKind : Type 0 where
  catalog price price_active : SyncKind

pub data SyncStatus : Type 0 where
  running succeeded partial failed_status : SyncStatus

abbrev pub kind_index : SyncKind → ℕ
kind_index catalog = 0
kind_index price = 1
kind_index price_active = 2

abbrev pub is_running : SyncStatus → Bool
is_running running = true
is_running _ = false

pub record SyncRun : Type 0 where
  pub id : ℕ
  pub kind : SyncKind
  pub provider : ℕ
  pub status : SyncStatus
  pub job : ℕ
  pub processed : ℕ
  pub failed : ℕ
  pub cursor : Option ℕ

abbrev pub or_last : Option SyncRun → SyncRun → Option SyncRun
or_last none run = some run
or_last (some later) run = some later

-- `findFirst` with the newest run first.
unfoldable pub find_last : (SyncRun → Bool) → List SyncRun → Option SyncRun
find_last test [] = none
find_last test (run ∷ runs) =
    let later = find_last test runs in if test run then or_last later run else later

abbrev pub owns : SyncKind → ℕ → SyncRun → Bool
owns kind job run =
    kind_index run.kind == kind_index kind && (is_running run.status && run.job == job)

unfoldable pub find_resumable : SyncKind → ℕ → List SyncRun → Option SyncRun
find_resumable kind job = find_last (owns kind job)

abbrev pub new_run : SyncKind → ℕ → ℕ → ℕ → SyncRun
new_run kind provider job id = record {
  id = id;
  kind = kind;
  provider = provider;
  status = running;
  job = job;
  processed = 0;
  failed = 0;
  cursor = none;
}

-- The write of `update({ where: { id } })`.
unfoldable pub update_run : ℕ → (SyncRun → SyncRun) → List SyncRun → List SyncRun
update_run id change = map (λ run. if run.id == id then change run else run)

unfoldable pub record_progress : ℕ → ℕ → ℕ → ℕ → List SyncRun → List SyncRun
record_progress id processed failed cursor =
    update_run id
      (λ run. record run { processed = processed; failed = failed; cursor = some cursor })

unfoldable pub close_run : ℕ → SyncStatus → List SyncRun → List SyncRun
close_run id status = update_run id (λ run. record run { status = status })

-- `readPriceCursor`
abbrev pub read_cursor : Option ℕ → ℕ
read_cursor none = 0
read_cursor (some cursor) = cursor

abbrev pub cursor_of : Option SyncRun → ℕ
cursor_of none = 0
cursor_of (some run) = read_cursor run.cursor

unfoldable pub last_closed_cursor : SyncKind → List SyncRun → ℕ
last_closed_cursor kind runs =
    cursor_of (
      find_last (λ run. kind_index run.kind == kind_index kind && not (is_running run.status)) runs)

-- `closeIfFinallyFailed`: `is_final` is whether the job's state is read to be `failed` and the update
-- goes through. An error of either call is logged, and changes nothing.
unfoldable pub close_if_finally_failed : SyncKind → Option ℕ → Bool → List SyncRun → List SyncRun
close_if_finally_failed kind none is_final runs = runs
close_if_finally_failed kind (some job) is_final runs =
    if is_final
    then map (λ run. if owns kind job run then record run { status = failed_status } else run) runs
    else runs
