-- ===== src/Sync/Process/Written.antt =====
-- The rows that an attempt writes.
use mathlib.Core.List.{Memᴰ}
use mathlib.Core.List.Memᴰ
use pokedrop.Base.{
  ◌≢◌, ℕ, ◌≡◌, refl, sym, ap, ◌∙◌, ◌⊎◌, inl, inr, Bool, true, false, ◌&&◌, not, List, [], ◌∷◌, ◌==◌,
  Bool-cases, arith,
}
use pokedrop.Sync.Providers.{ChosenProvider}
use pokedrop.Sync.Runs.{
  SyncStatus, succeeded, partial, failed_status, SyncRun, update_run, record_progress, close_run,
}
use pokedrop.Sync.Sweep.{
  Outside, failed_close, final_write, final_close, interrupted, Ending, completed, contract_broken,
  budget_exhausted, stalled_out, breaker_opened, out_of_fuel, Pass,
}
use pokedrop.Sync.Process.{is_completed, status_of, conclude, finish_as}
use pokedrop.Sync.Process.Owned.{update_run-twice}

-- A row of the table after a write is a row before it, or the write of one.
pub row_of-update_run :
    (id : ℕ) (change : SyncRun → SyncRun) (row : SyncRun) (runs : List SyncRun)
    → Memᴰ row (update_run id change runs)
    → Memᴰ row runs ⊎ ((old : SyncRun) × Memᴰ old runs × (row ≡ change old))
unfolding update_run
row_of-update_run id change row [] m = inl m
row_of-update_run id change row (run ∷ runs) m = elim (Memᴰ.cases_cons m) [
  | inl e ↦ elim (Bool-cases (run.id == id)) [
    | inl p ↦ inr (run, Memᴰ.head refl, let f : row ≡ change run = rw p at e in f)
    | inr p ↦ inl (Memᴰ.head (let f : row ≡ run = rw p at e in f))
  ]
  | inr n ↦ elim (row_of-update_run id change row runs n) [
    | inl k ↦ inl (Memᴰ.tail k)
    | inr (old, k, same) ↦ inr (old, Memᴰ.tail k, same)
  ]
]

pub row_of-close_run :
    (id : ℕ) (g : SyncRun → SyncRun) (status : SyncStatus) (row : SyncRun) (runs : List SyncRun)
    → ((run : SyncRun) → (g run).id ≡ run.id)
    → Memᴰ row (close_run id status (update_run id g runs))
    → Memᴰ row runs ⊎ ((old : SyncRun) × Memᴰ old runs × (row ≡ record (g old) { status = status }))
unfolding close_run
row_of-close_run id g status row runs keep m =
    row_of-update_run id (λ run. record (g run) { status = status }) row runs
      (rw (update_run-twice id (λ run. record run { status = status }) g runs keep) at m)

status_of-succeeded :
    (all : Bool) (failed : ℕ) (choice : ChosenProvider)
    → status_of all failed choice ≡ succeeded
    → (all ≡ true) × (failed ≡ 0) × (choice.is_fallback ≡ false)
status_of-succeeded all failed choice e =
    elim (Bool-cases (all && (failed == 0 && not choice.is_fallback))) [
      | inl p ↦ (ground (arith, p), ground (arith, p), ground (arith, p))
      | inr p ↦ absurd (let f : partial ≡ succeeded = rw p at e in cc)
    ]

pub is_completed-true : (ending : Ending) → is_completed ending ≡ true → ending ≡ completed
is_completed-true completed e = refl
is_completed-true contract_broken e = absurd (cc)
is_completed-true budget_exhausted e = absurd (cc)
is_completed-true stalled_out e = absurd (cc)
is_completed-true breaker_opened e = absurd (cc)
is_completed-true interrupted e = absurd (cc)
is_completed-true out_of_fuel e = absurd (cc)

-- A row of the id of `row` stands as succeeded.
pub record Stood (row : SyncRun) (runs : List SyncRun) : Type 0 where
  pub old : SyncRun
  pub there : Memᴰ old runs
  pub id_same : old.id ≡ row.id
  pub succeeded_before : old.status ≡ succeeded

pub Stood-here :
    (row : SyncRun) (runs : List SyncRun) → Memᴰ row runs → row.status ≡ succeeded → Stood row runs
Stood-here row runs m e = record { old = row; there = m; id_same = refl; succeeded_before = e }

-- A write of progress makes no row succeeded.
pub update_run-Stood :
    (id : ℕ) (g : SyncRun → SyncRun) (row : SyncRun) (runs : List SyncRun)
    → ((run : SyncRun) → ((g run).id ≡ run.id) × ((g run).status ≡ run.status))
    → Memᴰ row (update_run id g runs)
    → row.status ≡ succeeded
    → Stood row runs
update_run-Stood id g row runs keep m e = elim (row_of-update_run id g row runs m) [
  | inl k ↦ Stood-here row runs k e
  | inr (old, k, same) ↦ record {
    old = old;
    there = k;
    id_same = sym (keep old).0 ∙ sym (ap (λ r. r.id) same);
    succeeded_before = sym (keep old).1 ∙ sym (ap (λ r. r.status) same) ∙ e;
  }
]

-- Nor does the close with another status.
pub close_run-Stood :
    (id : ℕ) (g : SyncRun → SyncRun) (status : SyncStatus) (row : SyncRun) (runs : List SyncRun)
    → ((run : SyncRun) → (g run).id ≡ run.id)
    → status ≢ succeeded
    → Memᴰ row (close_run id status (update_run id g runs))
    → row.status ≡ succeeded
    → Stood row runs
close_run-Stood id g status row runs keep other m e =
    elim (row_of-close_run id g status row runs keep m) [
      | inl k ↦ Stood-here row runs k e
      | inr (old, k, same) ↦ absurd (other (sym (ap (λ r. r.status) same) ∙ e))
    ]

-- A row that the end of a loop marks as succeeded.
module _ {W : Type 0} (outside : Outside W) (cards : List ℕ) (max_stalls : ℕ)
    (choice : ChosenProvider) (id : ℕ) (row : SyncRun) (runs : List SyncRun) where
  abbrev pub IsNew : Ending → Type 0
  IsNew ending =
      Stood row runs ⊎ ((ending ≡ completed) × (row.failed ≡ 0) × (choice.is_fallback ≡ false))

  conclude-IsNew :
      (ending : Ending) (p : Pass W)
      → Memᴰ row (conclude outside cards max_stalls choice id p (is_completed ending) runs).runs
      → row.status ≡ succeeded
      → IsNew ending
  unfolding record_progress
  conclude-IsNew ending p m e = elim (Bool-cases (outside.fails final_write p.world)) [
    | inl f ↦ inl (update_run-Stood id _ row runs (λ run. (refl, refl)) (rw f at m) e)
    | inr f ↦ elim (Bool-cases (outside.fails final_close p.world)) [
      | inl f₁ ↦ inl (update_run-Stood id _ row runs (λ run. (refl, refl)) (rw (f, f₁) at m) e)
      | inr f₁ ↦ elim (row_of-close_run id _ _ row runs (λ run. refl) (rw (f, f₁) at m)) [
        | inl k ↦ inl (Stood-here row runs k e)
        | inr (old, _, same) ↦
            let (all, none_failed, primary) =
              status_of-succeeded (is_completed ending) p.failed choice
                (sym (ap (λ r. r.status) same) ∙ e) in
            inr (is_completed-true ending all, ap (λ r. r.failed) same ∙ none_failed, primary)
      ]
    ]
  ]

  pub finish_as-IsNew :
      (ending : Ending) (p : Pass W)
      → Memᴰ row (finish_as outside cards max_stalls choice id p ending runs).runs
      → row.status ≡ succeeded
      → IsNew ending
  finish_as-IsNew interrupted p m e = inl (update_run-Stood id _ row runs (λ run. (refl, refl)) m e)
  finish_as-IsNew contract_broken p m e = elim (Bool-cases (outside.fails failed_close p.world)) [
    | inl f ↦ inl (update_run-Stood id _ row runs (λ run. (refl, refl)) (rw f at m) e)
    | inr f ↦
        inl (close_run-Stood id _ failed_status row runs (λ run. refl) (λ x. cc) (rw f at m) e)
  ]
  finish_as-IsNew completed p m e = conclude-IsNew completed p m e
  finish_as-IsNew budget_exhausted p m e = conclude-IsNew budget_exhausted p m e
  finish_as-IsNew stalled_out p m e = conclude-IsNew stalled_out p m e
  finish_as-IsNew breaker_opened p m e = conclude-IsNew breaker_opened p m e
  finish_as-IsNew out_of_fuel p m e = conclude-IsNew out_of_fuel p m e
