-- ===== src/Sync/Sweep.antt =====
-- apps/api/src/sync/price-sweep.processor.ts: the price sweep. The catalog's ids are the same for the
-- whole of a run, in ascending order. What a batch meets outside (the provider, its budget and its
-- breaker) is an interface over a world that each request changes; waits and log lines are left out.
pub mod Order
pub mod Parts
pub mod Coverage
pub mod Rounds
use pokedrop.Base.{
  ℕ, zero, suc, ◌+◌, ◌*◌, Bool, true, false, ◌&&◌, ◌||◌, not, Option, none, some, List, [], ◌∷◌,
  ◌++◌, ◌==◌, ltb, leb, if◌then◌else◌, length, take, filter_by,
}
use pokedrop.Sync.Providers.{
  Provider, ChosenProvider, choose_provider, Resumption, unregistered, abandoned, resumed,
  resume_provider,
}
use pokedrop.Sync.Runs.{
  SyncKind, price, SyncStatus, succeeded, partial, failed_status, SyncRun, find_resumable, new_run,
  record_progress, close_run, read_cursor, last_closed_cursor,
}

-- How `refreshBatch` ends: with the cards that were priced, or by one of its errors.
pub data Reply : Type 0 where
  priced : ℕ → Reply
  rate_limited unavailable contract_error local_error : Reply

pub record Refreshed (W : Type 0) : Type 0 where
  pub reply : Reply
  pub world : W

-- The calls to the database and to the queue whose errors nothing in `process` catches. Those to
-- Redis, for the breaker and the budget, catch their own.
pub data Await : Type 0 where
  resume_read abandoned_close run_start cursor_read cards_read progress_write progress_report
        failed_close final_write final_close :
      Await

pub record Outside (W : Type 0) : Type 0 where
  pub has_headroom : Provider → W → Bool
  pub refresh_batch : Provider → List ℕ → W → Refreshed W
  pub is_open : Provider → W → Bool
  pub fails : Await → W → Bool

-- What one batch tells the loop; `broken` is the error that it lets out.
pub data BatchOutcome : Type 0 where
  advanced : ℕ → ℕ → Bool → BatchOutcome
  stalled broken : BatchOutcome

pub data Ending : Type 0 where
  completed budget_exhausted stalled_out breaker_opened contract_broken interrupted out_of_fuel :
      Ending

-- The loop's variables. `recorded` is the cursor that the loop last wrote to the run's row, and
-- `swept` lists the cards of the batches whose progress was written.
pub record Pass (W : Type 0) : Type 0 where
  pub cursor : ℕ
  pub wrapped : Bool
  pub processed : ℕ
  pub failed : ℕ
  pub stalls : ℕ
  pub recorded : Option ℕ
  pub swept : List ℕ
  pub world : W

pub record Ended (W : Type 0) : Type 0 where
  pub ending : Ending
  pub pass : Pass W

abbrev pub after : ℕ → List ℕ → List ℕ
after k = filter_by (λ id. ltb k id)

abbrev pub upto : ℕ → List ℕ → List ℕ
upto k = filter_by (λ id. leb id k)

abbrev pub last_of : ℕ → List ℕ → ℕ
last_of id [] = id
last_of id (next ∷ ids) = last_of next ids

-- `ids[ids.length - 1]`
abbrev pub batch_end : List ℕ → ℕ
batch_end [] = 0
batch_end (id ∷ ids) = last_of id ids

-- The most rounds that a sweep takes.
abbrev pub most_rounds : List ℕ → ℕ → ℕ
most_rounds cards max_stalls = (length cards + 1) * suc max_stalls + suc max_stalls

module _ {W : Type 0} (outside : Outside W) (provider : Provider) (cards : List ℕ)
    (batch_size max_stalls started : ℕ) where
  unfoldable pub outcome_of : List ℕ → Reply → W → BatchOutcome
  outcome_of ids (priced n) w = advanced n 0 false
  outcome_of ids rate_limited w = stalled
  outcome_of ids unavailable w = advanced 0 (length ids) (outside.is_open provider w)
  outcome_of ids contract_error w = broken
  outcome_of ids local_error w = advanced 0 (length ids) false

  abbrev pub advance : Pass W → List ℕ → ℕ → ℕ → W → Pass W
  advance p ids n f w = record {
    cursor = batch_end ids;
    wrapped = p.wrapped;
    processed = p.processed + n;
    failed = p.failed + f;
    stalls = 0;
    recorded = some (batch_end ids);
    swept = p.swept ++ ids;
    world = w;
  }

  -- What follows the write of a batch's progress, which led from `p` to `q`.
  abbrev pub go_on : (Pass W → Ended W) → Pass W → List ℕ → Pass W → Bool → Ended W
  go_on next p ids q down =
      let rest = next q in
      if down
      then record { ending = breaker_opened; pass = q }
      else if p.wrapped && leb started (batch_end ids)
      then record { ending = completed; pass = q }
      else rest

  -- What follows `runBatch`; `next` is the rounds after it.
  unfoldable pub after_batch : (Pass W → Ended W) → Pass W → List ℕ → W → BatchOutcome → Ended W
  after_batch next p ids w broken = record {
    ending = contract_broken;
    pass = record p { world = w };
  }
  after_batch next p ids w stalled =
      let waited = record p { stalls = suc p.stalls; world = w } in
      let again = next waited in
      if leb max_stalls (suc p.stalls)
      then record { ending = stalled_out; pass = waited }
      else again
  after_batch next p ids w (advanced n f down) =
      let q = advance p ids n f w in
      let rest = go_on next p ids q down in
      if outside.fails progress_write w
      then record { ending = interrupted; pass = record p { world = w } }
      else if outside.fails progress_report w
      then record { ending = interrupted; pass = q }
      else rest

  -- A round that found no row: the end of the catalog.
  abbrev pub at_end : (Pass W → Ended W) → Pass W → Ended W
  at_end next p =
      let again = next (record p { wrapped = true; cursor = 0 }) in
      if p.wrapped || started == 0 then record { ending = completed; pass = p } else again

  -- A round that found rows.
  abbrev pub at_rows : (Pass W → Ended W) → Pass W → List ℕ → Ended W
  at_rows next p ids =
      let ran = outside.refresh_batch provider ids p.world in
      let rest = after_batch next p ids ran.world (outcome_of ids ran.reply ran.world) in
      if length ids == 0
      then record { ending = completed; pass = record p { cursor = started } }
      else rest

  -- The `for (;;)` loop, with fuel for its rounds.
  unfoldable pub sweep : ℕ → Pass W → Ended W
  sweep zero p = record { ending = out_of_fuel; pass = p }
  sweep (suc fuel) p =
      let rows = take batch_size (after p.cursor cards) in
      let ids = if p.wrapped then upto started rows else rows in
      let none_left = at_end (sweep fuel) p in
      let some_left = at_rows (sweep fuel) p ids in
      if not (outside.has_headroom provider p.world)
      then record { ending = budget_exhausted; pass = p }
      else if outside.fails cards_read p.world
      then record { ending = interrupted; pass = p }
      else if length rows == 0
      then none_left
      else some_left

  -- The loop's variables before the first round.
  abbrev pub start : SyncRun → W → Pass W
  start run w = record {
    cursor = started;
    wrapped = false;
    processed = run.processed;
    failed = run.failed;
    stalls = 0;
    recorded = run.cursor;
    swept = [];
    world = w;
  }
