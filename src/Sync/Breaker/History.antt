-- ===== src/Sync/Breaker/History.antt =====
-- What the breaker's keys say of the calls before: an independent account of the threshold, the window
-- and the cooldown.
use pokedrop.Base.{
  ℕ, suc, ◌+◌, ◌≤◌, ◌≡◌, refl, sym, ap, ◌∙◌, Bool, true, false, ◌&&◌, ◌||◌, none, some, List, [],
  ◌∷◌, ltb, leb, if◌then◌else◌, Bool-cases, inl, inr, arith,
}
use pokedrop.Sync.Breaker.{
  failure_threshold, cooldown_seconds, failure_window_seconds, BreakerKeys, Connection, lost, cut,
  held, live_count, is_live, incremented, record_failure, record_success, is_open, state_of,
}

-- The calls to the breaker, each at its time.
pub data Call : Type 0 where
  failure success : Connection → ℕ → Call

-- The keys after the calls, the newest first in the list.
unfoldable pub keys_after : List Call → BreakerKeys
keys_after [] = record { failures = none; open_ends = none }
keys_after (failure c t ∷ calls) = (record_failure c t (keys_after calls)).keys
keys_after (success c t ∷ calls) = record_success c (keys_after calls)

-- The failures in a row, each within the window before the next, that reached the counter.
unfoldable pub streak : ℕ → List Call → ℕ
streak now [] = 0
streak now (failure lost t ∷ calls) = streak now calls
streak now (failure _ t ∷ calls) =
    let before = streak t calls in if ltb now (t + failure_window_seconds) then suc before else 0
streak now (success lost t ∷ calls) = streak now calls
streak now (success _ t ∷ calls) = 0

-- Whether some failure within the cooldown was at least the fifth in a row.
unfoldable pub tripped : ℕ → List Call → Bool
tripped now [] = false
tripped now (failure held t ∷ calls) =
    let before = tripped now calls in
    (leb failure_threshold (suc (streak t calls)) && ltb now (t + cooldown_seconds)) || before
tripped now (_ ∷ calls) = tripped now calls

abbrev time_of : Call → ℕ
time_of (failure c t) = t
time_of (success c t) = t

-- The calls are in the order of their times, none after `now`.
abbrev pub IsBefore : ℕ → List Call → Type 0
IsBefore now [] = Unit
IsBefore now (call ∷ calls) = (time_of call ≤ now) × IsBefore (time_of call) calls

IsBefore-later :
    (now later : ℕ) (calls : List Call) → now ≤ later → IsBefore now calls → IsBefore later calls
IsBefore-later now later [] le h = tt
IsBefore-later now later (call ∷ calls) le h = (omega (arith, le, h.0), h.1)

-- No trip lasts for longer than the cooldown.
tripped-over :
    (now last : ℕ) (calls : List Call)
    → IsBefore last calls
    → last + cooldown_seconds ≤ now
    → tripped now calls ≡ false
unfolding tripped
tripped-over now last [] h over = refl
tripped-over now last (failure held t ∷ calls) h over =
    let rest = tripped-over now t calls h.1 (omega (arith, h.0, over)) in
    let ended : ltb now (t + cooldown_seconds) ≡ false = ground (arith, h.0, over) in
    ground (arith, rest, ended)
tripped-over now last (failure lost t ∷ calls) h over =
    tripped-over now t calls h.1 (omega (arith, h.0, over))
tripped-over now last (failure cut t ∷ calls) h over =
    tripped-over now t calls h.1 (omega (arith, h.0, over))
tripped-over now last (success c t ∷ calls) h over =
    tripped-over now t calls h.1 (omega (arith, h.0, over))

open_held :
    (now t : ℕ) (calls : List Call) (keys : BreakerKeys)
    → t ≤ now
    → IsBefore t calls
    → live_count t keys.failures ≡ streak t calls
    → is_live now keys.open_ends ≡ tripped now calls
    → is_live now (record_failure held t keys).keys.open_ends ≡ tripped now (failure held t ∷ calls)
unfolding record_failure tripped
open_held now t calls keys le h counted same =
    elim (Bool-cases (leb failure_threshold (suc (live_count t keys.failures)))) [
      | inl e ↦
          let f : leb failure_threshold (suc (streak t calls)) ≡ true = rw (sym counted) e in
          elim (Bool-cases (ltb now (t + cooldown_seconds))) [
            | inl q ↦ rw (e, f, q) refl
            | inr q ↦
                let over : t + cooldown_seconds ≤ now = ground (arith, q) in
                rw (e, f, q, tripped-over now t calls h over) refl
          ]
      | inr e ↦
          let f : leb failure_threshold (suc (streak t calls)) ≡ false = rw (sym counted) e in
          rw (e, f) same
    ]

-- The count under the time at which it is read.
count_kept :
    (now t n m : ℕ)
    → n ≡ m
    → live_count now (some (record { count = suc n; ends = t + failure_window_seconds }))
      ≡ (if ltb now (t + failure_window_seconds) then suc m else 0)
count_kept now t n m e = rw e refl

record_failure-failures :
    (t : ℕ) (keys : BreakerKeys)
    → (record_failure held t keys).keys.failures ≡ (incremented t keys).failures
unfolding record_failure
record_failure-failures t keys =
    elim (Bool-cases (leb failure_threshold (suc (live_count t keys.failures)))) [
      | inl e ↦ rw e refl
      | inr e ↦ rw e refl
    ]

-- The keys count the failures in a row.
keys_after-streak :
    (now : ℕ) (calls : List Call)
    → IsBefore now calls
    → live_count now (keys_after calls).failures ≡ streak now calls
unfolding keys_after streak record_failure record_success
keys_after-streak now [] h = refl
keys_after-streak now (failure lost t ∷ calls) h =
    keys_after-streak now calls (IsBefore-later t now calls h.0 h.1)
keys_after-streak now (failure cut t ∷ calls) h =
    count_kept now t _ _ (keys_after-streak t calls h.1)
keys_after-streak now (failure held t ∷ calls) h =
    ap (live_count now) (record_failure-failures t (keys_after calls))
    ∙ count_kept now t _ _ (keys_after-streak t calls h.1)
keys_after-streak now (success lost t ∷ calls) h =
    keys_after-streak now calls (IsBefore-later t now calls h.0 h.1)
keys_after-streak now (success cut t ∷ calls) h = refl
keys_after-streak now (success held t ∷ calls) h = refl

-- The breaker is open exactly within a cooldown.
keys_after-tripped :
    (now : ℕ) (calls : List Call)
    → IsBefore now calls
    → is_live now (keys_after calls).open_ends ≡ tripped now calls
unfolding keys_after tripped record_failure record_success
keys_after-tripped now [] h = refl
keys_after-tripped now (failure lost t ∷ calls) h =
    keys_after-tripped now calls (IsBefore-later t now calls h.0 h.1)
keys_after-tripped now (failure cut t ∷ calls) h =
    keys_after-tripped now calls (IsBefore-later t now calls h.0 h.1)
keys_after-tripped now (failure held t ∷ calls) h =
    open_held now t calls (keys_after calls) h.0 h.1 (keys_after-streak t calls h.1)
      (keys_after-tripped now calls (IsBefore-later t now calls h.0 h.1))
keys_after-tripped now (success lost t ∷ calls) h =
    keys_after-tripped now calls (IsBefore-later t now calls h.0 h.1)
keys_after-tripped now (success cut t ∷ calls) h =
    keys_after-tripped now calls (IsBefore-later t now calls h.0 h.1)
keys_after-tripped now (success held t ∷ calls) h =
    keys_after-tripped now calls (IsBefore-later t now calls h.0 h.1)

-- After calls in the order of their times, the keys in Redis say the breaker open exactly if,
-- within the cooldown, some failure was at least the fifth in a row with each within the window
-- before the next; they count the failures in a row, one more with the next failure; and without
-- Redis the breaker counts as closed.
pub breaker-history :
    (now : ℕ) (calls : List Call)
    → IsBefore now calls
    → (is_open held now (keys_after calls) ≡ tripped now calls)
      × ((state_of held now (keys_after calls)).failures ≡ streak now calls)
      × ((record_failure held now (keys_after calls)).answer ≡ suc (streak now calls))
      × (is_open lost now (keys_after calls) ≡ false)
unfolding is_open state_of record_failure
breaker-history now calls h =
    let counted = keys_after-streak now calls h in
    (keys_after-tripped now calls h, counted, ap suc counted, refl)
