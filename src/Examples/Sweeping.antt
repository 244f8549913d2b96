-- ===== src/Examples/Sweeping.antt =====
-- The price sweep over a small catalog, and the breaker after some calls: the theorems there, and
-- runs.
use mathlib.Core.List.{Memᴰ}
use pokedrop.Base.{
  ℕ, suc, ◌+◌, ◌≡◌, ◌≢◌, ◌⊎◌, refl, sym, subst, true, false, some, List, [], ◌∷◌, length, ltb, ◌==◌,
  if◌then◌else◌, arith,
}
use pokedrop.Sync.Breaker.{lost, cut, held, is_open, record_failure, state_of}
use pokedrop.Sync.Breaker.History.{
  Call, failure, success, keys_after, streak, tripped, breaker-history,
}
use pokedrop.Sync.Providers.{choose_provider, select_provider}
use pokedrop.Sync.Runs.{
  running, close_if_finally_failed, SyncRun, price, succeeded, partial, find_last, find_resumable,
  new_run, update_run, record_progress, close_run, last_closed_cursor,
}
use pokedrop.Sync.Sweep.{
  final_close, Outside, priced, rate_limited, out_of_fuel, outcome_of, after_batch, sweep, start,
}
use pokedrop.Sync.Sweep.Order.{IsCatalog}
use pokedrop.Sync.Sweep.Coverage.{IsSwept, sweep_covers}
use pokedrop.Sync.Sweep.Rounds.{sweep-total}
use pokedrop.Sync.Process.{process, run_from, finish}
use pokedrop.Sync.Process.Owned.{running_of}
use pokedrop.Sync.Process.Finished.{IsLeft, process-IsLeft}
use pokedrop.Sync.Process.Written.{Stood}
use pokedrop.Sync.Process.Earned.{IsWhole, process-earned}

-- The world counts requests; the third is rate limited.
abbrev upstream : Outside ℕ
upstream = record {
  has_headroom = λ provider w. ltb w 9;
  refresh_batch = λ provider ids w. record {
    reply = if w == 2 then rate_limited else priced (length ids);
    world = w + 1;
  };
  is_open = λ provider w. false;
  fails = λ call w. false;
}

abbrev small_catalog : List ℕ
small_catalog = 1 ∷ 2 ∷ 4 ∷ 7 ∷ 8 ∷ []

small_catalog-IsCatalog : IsCatalog small_catalog
small_catalog-IsCatalog = (
  (omega arith, (omega arith, (omega arith, (omega arith, (omega arith, tt))))),
  (
    (omega arith, (omega arith, (omega arith, (omega arith, tt)))),
    (
      (omega arith, (omega arith, (omega arith, tt))),
      ((omega arith, (omega arith, tt)), ((omega arith, tt), (tt, tt))),
    ),
  ),
)

-- The last run stopped behind card 2.
abbrev earlier : SyncRun
earlier = record (new_run price 1 11 1) { status = partial; cursor = some 2 }

abbrev nightly : SyncRun
nightly = record (new_run price 1 12 2) { status = succeeded; processed = 5; cursor = some 2 }

sweep_order :
    (sweep upstream 1 small_catalog 2 3 2 40
      (start upstream 1 small_catalog 2 3 2 earlier 0)).pass.swept
    ≡ 4 ∷ 7 ∷ 8 ∷ 1 ∷ 2 ∷ []
unfolding sweep after_batch outcome_of
sweep_order = refl

sweep_covers_example :
    IsSwept upstream 1 small_catalog 2 3 2 small_catalog-IsCatalog
      (omega arith)
      (sweep upstream 1 small_catalog 2 3 2 40 (start upstream 1 small_catalog 2 3 2 earlier 0))
sweep_covers_example =
    sweep_covers upstream 1 small_catalog 2 3 2 small_catalog-IsCatalog (omega arith) 40 earlier 0

sweep-total_example :
    (sweep upstream 1 small_catalog 2 3 2 40
      (start upstream 1 small_catalog 2 3 2 earlier 0)).ending
    ≢ out_of_fuel
sweep-total_example =
    sweep-total upstream 1 small_catalog 2 3 2 small_catalog-IsCatalog (omega arith) 40 earlier 0
      (omega arith)

nightly_rows :
    (process upstream small_catalog 3 1 (1 ∷ 2 ∷ []) 12 2 (earlier ∷ []) 0).runs
    ≡ earlier ∷ nightly ∷ []
unfolding process run_from finish find_resumable find_last select_provider choose_provider
    last_closed_cursor sweep after_batch outcome_of record_progress close_run update_run
nightly_rows = refl

nightly_here :
    Memᴰ nightly (process upstream small_catalog 3 1 (1 ∷ 2 ∷ []) 12 2 (earlier ∷ []) 0).runs
nightly_here = subst (Memᴰ nightly) (sym nightly_rows) (Memᴰ.tail (Memᴰ.head refl))

-- Where the last close fails, the run stays open with its progress, and the next attempt resumes it.
abbrev stopped : Outside ℕ
stopped = record upstream { fails = λ call w. elim call [ final_close ↦ true | _ ↦ false ] }

stopped_rows :
    (process stopped small_catalog 3 1 (1 ∷ 2 ∷ []) 12 2 (earlier ∷ []) 0).runs
    ≡ earlier ∷ record nightly { status = running } ∷ []
unfolding process run_from finish find_resumable find_last select_provider choose_provider
    last_closed_cursor sweep after_batch outcome_of record_progress close_run update_run
stopped_rows = refl

process-earned_example :
    Stood nightly (earlier ∷ [])
    ⊎ IsWhole upstream small_catalog 3 small_catalog-IsCatalog 1 0
        (process upstream small_catalog 3 1 (1 ∷ 2 ∷ []) 12 2 (earlier ∷ []) 0).swept
        nightly
process-earned_example =
    process-earned upstream small_catalog 3 small_catalog-IsCatalog 1 (1 ∷ 2 ∷ []) 12 2
      (earlier ∷ []) 0 nightly nightly_here refl

process-IsLeft_example :
    let r = process upstream small_catalog 3 1 (1 ∷ 2 ∷ []) 12 2 (earlier ∷ []) 0 in
    IsLeft 12 (earlier ∷ []) r.thrown r.runs
    × (running_of 12 (close_if_finally_failed price (some 12) true r.runs) ≡ [])
    × (close_if_finally_failed price (some 12) false r.runs ≡ r.runs)
process-IsLeft_example =
    process-IsLeft upstream small_catalog 3 12 1 (1 ∷ 2 ∷ []) 2 (earlier ∷ []) 0 (omega arith)

-- Five failures in a row, the first of them uncounted: the fifth that is counted trips the breaker.
abbrev outage : List Call
outage =
    failure held 60
    ∷ failure held 50
    ∷ failure held 40
    ∷ failure cut 30
    ∷ failure held 20
    ∷ failure lost 10
    ∷ success held 5
    ∷ []

outage_trips : tripped 100 outage ≡ true
unfolding tripped streak
outage_trips = refl

outage_over : tripped 1860 outage ≡ false
unfolding tripped streak
outage_over = refl

breaker-history_example :
    (is_open held 100 (keys_after outage) ≡ tripped 100 outage)
    × ((state_of held 100 (keys_after outage)).failures ≡ streak 100 outage)
    × ((record_failure held 100 (keys_after outage)).answer ≡ suc (streak 100 outage))
    × (is_open lost 100 (keys_after outage) ≡ false)
breaker-history_example = breaker-history 100 outage (
  omega arith,
  (omega arith, (omega arith, (omega arith, (omega arith, (omega arith, (omega arith, tt)))))),
)
