-- ===== src/Sync/Process/Owned.antt =====
-- The running rows of a job, and the writes that leave it none.
use pokedrop.Base.{
  ap, suc, ℕ, ◌≤◌, ◌≡◌, refl, ◌≢◌, true, false, Option, none, some, List, [], ◌∷◌, ◌++◌, ◌==◌,
  length, filter_by, All, Bool-cases, inl, inr, arith,
}
use pokedrop.Sync.Runs.{price, SyncRun, owns, or_last, find_last, update_run}

-- The running rows of a job.
abbrev pub running_of : ℕ → List SyncRun → List SyncRun
running_of job = filter_by (owns price job)

-- Every running row of the job has the id.
abbrev pub OwnedBy : ℕ → ℕ → List SyncRun → Type 0
OwnedBy job id = All (λ run. owns price job run ≡ true → run.id ≡ id)

none-OwnedBy : (job id : ℕ) (runs : List SyncRun) → running_of job runs ≡ [] → OwnedBy job id runs
none-OwnedBy job id [] e = tt
none-OwnedBy job id (run ∷ runs) e = elim (Bool-cases (owns price job run)) [
  | inl p ↦ absurd (let f : run ∷ running_of job runs ≡ [] = rw p at e in cc)
  | inr p ↦
      let f : running_of job runs ≡ [] = rw p at e in (λ q. absurd (cc), none-OwnedBy job id runs f)
]

none-or_last : (later : Option SyncRun) (run : SyncRun) → or_last later run ≢ none
none-or_last none run = λ e. cc
none-or_last (some later) run = λ e. cc

pub find_last-none :
    (job : ℕ) (runs : List SyncRun)
    → find_last (owns price job) runs ≡ none
    → running_of job runs ≡ []
unfolding find_last
find_last-none job [] e = refl
find_last-none job (run ∷ runs) e = elim (Bool-cases (owns price job run)) [
  | inl p ↦ absurd (
      none-or_last (find_last (owns price job) runs) run
        (let f : or_last (find_last (owns price job) runs) run ≡ none = rw p at e in f))
  | inr p ↦
      let f : find_last (owns price job) runs ≡ none = rw p at e in rw p (find_last-none job runs f)
]

none-find_last :
    (job : ℕ) (runs : List SyncRun)
    → length (running_of job runs) ≡ 0
    → find_last (owns price job) runs ≡ none
unfolding find_last
none-find_last job [] e = refl
none-find_last job (run ∷ runs) e = elim (Bool-cases (owns price job run)) [
  | inl p ↦ let f : length (run ∷ running_of job runs) ≡ 0 = rw p at e in absurd (omega (arith, f))
  | inr p ↦ let f : length (running_of job runs) ≡ 0 = rw p at e in rw p (none-find_last job runs f)
]

empty-length : (runs : List SyncRun) → length runs ≡ 0 → runs ≡ []
empty-length [] e = refl
empty-length (run ∷ runs) e = absurd (omega (arith, e))

pub find_last-some :
    (job : ℕ) (found : SyncRun) (runs : List SyncRun)
    → length (running_of job runs) ≤ 1
    → find_last (owns price job) runs ≡ some found
    → OwnedBy job found.id runs
unfolding find_last
find_last-some job found [] h e = tt
find_last-some job found (run ∷ runs) h e = elim (Bool-cases (owns price job run)) [
  | inl p ↦
      let k : length (run ∷ running_of job runs) ≤ 1 = rw p at h in
      let no_more : length (running_of job runs) ≡ 0 = omega (arith, k) in
      let f : or_last (find_last (owns price job) runs) run ≡ some found = rw p at e in
      let g : some run ≡ some found = rw (none-find_last job runs no_more) at f in
      (λ q. cc, none-OwnedBy job found.id runs (empty-length _ no_more))
  | inr p ↦
      let k : length (running_of job runs) ≤ 1 = rw p at h in
      let f : find_last (owns price job) runs ≡ some found = rw p at e in
      (λ q. absurd (cc), find_last-some job found runs k f)
]

pub created-OwnedBy :
    (job : ℕ) (run : SyncRun) (runs : List SyncRun)
    → running_of job runs ≡ []
    → OwnedBy job run.id (runs ++ (run ∷ []))
created-OwnedBy job run [] e = (λ q. refl, tt)
created-OwnedBy job run (r ∷ runs) e = elim (Bool-cases (owns price job r)) [
  | inl p ↦ absurd (let f : r ∷ running_of job runs ≡ [] = rw p at e in cc)
  | inr p ↦
      let f : running_of job runs ≡ [] = rw p at e in
      (λ q. absurd (cc), created-OwnedBy job run runs f)
]

-- A write that closes the row of the id leaves the job none.
pub running_of-update_run :
    (job id : ℕ) (change : SyncRun → SyncRun) (runs : List SyncRun)
    → ((run : SyncRun) → owns price job (change run) ≡ false)
    → OwnedBy job id runs
    → running_of job (update_run id change runs) ≡ []
unfolding update_run
running_of-update_run job id change [] closes owned = refl
running_of-update_run job id change (run ∷ runs) closes owned =
    let rest = running_of-update_run job id change runs closes owned.1 in
    elim (Bool-cases (run.id == id)) [
      | inl p ↦ rw (p, closes run, rest)
      | inr p ↦
          let q : owns price job run ≡ false = elim (Bool-cases (owns price job run)) [
            | inl q ↦ absurd (let same = owned.0 q in ground (arith, p, same))
            | inr q ↦ q
          ] in
          rw (p, q, rest)
    ]

pub update_run-twice :
    (id : ℕ) (f g : SyncRun → SyncRun) (runs : List SyncRun)
    → ((run : SyncRun) → (g run).id ≡ run.id)
    → update_run id f (update_run id g runs) ≡ update_run id (λ run. f (g run)) runs
unfolding update_run
update_run-twice id f g [] keep = refl
update_run-twice id f g (run ∷ runs) keep =
    let rest = update_run-twice id f g runs keep in
    elim (Bool-cases (run.id == id)) [
      | inl p ↦ let q : ((g run).id == id) ≡ true = rw (keep run) p in rw (p, q, rest)
      | inr p ↦ rw (p, p, rest)
    ]

-- A write that leaves the status keeps their number.
pub running_of-kept :
    (job id : ℕ) (change : SyncRun → SyncRun) (runs : List SyncRun)
    → ((run : SyncRun) → owns price job (change run) ≡ owns price job run)
    → length (running_of job (update_run id change runs)) ≡ length (running_of job runs)
unfolding update_run
running_of-kept job id change [] keep = refl
running_of-kept job id change (run ∷ runs) keep =
    let rest = running_of-kept job id change runs keep in
    elim (Bool-cases (run.id == id)) [
      | inl p ↦ elim (Bool-cases (owns price job run)) [
        | inl q ↦ rw (p, keep run, q) (ap suc rest)
        | inr q ↦ rw (p, keep run, q) rest
      ]
      | inr p ↦ elim (Bool-cases (owns price job run)) [
        | inl q ↦ rw (p, q) (ap suc rest)
        | inr q ↦ rw (p, q) rest
      ]
    ]

pub created-few :
    (job : ℕ) (run : SyncRun) (runs : List SyncRun)
    → running_of job runs ≡ []
    → length (running_of job (runs ++ (run ∷ []))) ≤ 1
created-few job run [] e = elim (Bool-cases (owns price job run)) [
  | inl p ↦ rw p (omega arith)
  | inr p ↦ rw p (omega arith)
]
created-few job run (r ∷ runs) e = elim (Bool-cases (owns price job r)) [
  | inl p ↦ absurd (let f : r ∷ running_of job runs ≡ [] = rw p at e in cc)
  | inr p ↦ let f : running_of job runs ≡ [] = rw p at e in rw p (created-few job run runs f)
]
