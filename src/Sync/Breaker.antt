-- ===== src/Sync/Breaker.antt =====
-- apps/api/src/sync/providers/provider-breaker.service.ts: the circuit breaker of one provider. Its
-- two keys in Redis expire; times are whole seconds of Redis's clock, and a key with the end `e` is
-- there at the times before `e`.
pub mod History
use pokedrop.Base.{
  ℕ, zero, suc, ◌+◌, Bool, true, false, Option, none, some, ltb, leb, if◌then◌else◌,
}

-- `FAILURE_THRESHOLD`, `COOLDOWN_SECONDS` and `FAILURE_WINDOW_SECONDS`
abbrev pub failure_threshold : ℕ
failure_threshold = 5

abbrev pub cooldown_seconds : ℕ
cooldown_seconds = 1800

abbrev pub failure_window_seconds : ℕ
failure_window_seconds = 3600

pub record Counter : Type 0 where
  pub count : ℕ
  pub ends : ℕ

pub record BreakerKeys : Type 0 where
  pub failures : Option Counter
  pub open_ends : Option ℕ

-- Whether Redis answers a call: not at all, only its first command, or throughout.
pub data Connection : Type 0 where
  lost cut held : Connection

-- What `recordFailure` answers, and the keys then.
pub record Counted : Type 0 where
  pub answer : ℕ
  pub keys : BreakerKeys

abbrev pub live_count : ℕ → Option Counter → ℕ
live_count now none = 0
live_count now (some c) = if ltb now c.ends then c.count else 0

abbrev pub live_end : ℕ → Option ℕ → Option ℕ
live_end now none = none
live_end now (some e) = if ltb now e then some e else none

abbrev pub is_live : ℕ → Option ℕ → Bool
is_live now none = false
is_live now (some e) = ltb now e

-- The `incr` and the `expire` of one transaction.
abbrev pub incremented : ℕ → BreakerKeys → BreakerKeys
incremented now keys = record keys {
  failures =
      some (record {
        count = suc (live_count now keys.failures);
        ends = now + failure_window_seconds;
      });
}

unfoldable pub record_failure : Connection → ℕ → BreakerKeys → Counted
record_failure lost now keys = record { answer = 0; keys = keys }
record_failure cut now keys =
    let failures = suc (live_count now keys.failures) in
    record {
      answer = if leb failure_threshold failures then 0 else failures;
      keys = incremented now keys;
    }
record_failure held now keys =
    let failures = suc (live_count now keys.failures) in
    record {
      answer = failures;
      keys =
          if leb failure_threshold failures
          then record (incremented now keys) { open_ends = some (now + cooldown_seconds) }
          else incremented now keys;
    }

unfoldable pub record_success : Connection → BreakerKeys → BreakerKeys
record_success lost keys = keys
record_success cut keys = record keys { failures = none }
record_success held keys = record keys { failures = none }

unfoldable pub is_open : Connection → ℕ → BreakerKeys → Bool
is_open lost now keys = false
is_open cut now keys = is_live now keys.open_ends
is_open held now keys = is_live now keys.open_ends

pub record BreakerState : Type 0 where
  pub failures : ℕ
  pub open_until : Option ℕ

-- `stateOf` asks for both keys at once.
unfoldable pub state_of : Connection → ℕ → BreakerKeys → BreakerState
state_of held now keys = record {
  failures = live_count now keys.failures;
  open_until = live_end now keys.open_ends;
}
state_of _ now keys = record { failures = 0; open_until = none }
