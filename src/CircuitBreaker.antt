-- ===== src/CircuitBreaker.antt =====
-- srv/blockchain/circuit-breaker.ts: the breaker that each backend has.
-- Backend names are only compared, so they are numbers. `Date.now()` is an argument, in milliseconds;
-- `elapsed >= timeout` is written as `last + timeout <= now`, which also holds its sense if the clock
-- was set back. The state 'open' is `opened`, since `open` is a word of the language.
pub mod Invariant
pub mod Phases
mod Tests
use odatano.Base.{
  ℕ, ◌+◌, ◌-◌, Bool, true, false, Option, none, some, List, [], ◌∷◌, leb, if◌then◌else◌, or_default,
}
use odatano.Base.Dict.{Dict, lookup, insert}

pub data CircuitState : Type 0 where
  closed opened half_open : CircuitState

pub record Config : Type 0 where
  pub failure_threshold : ℕ
  pub success_threshold : ℕ
  pub reset_timeout_ms : ℕ

abbrev pub default_config : Config
default_config = record { failure_threshold = 5; success_threshold = 2; reset_timeout_ms = 30_000 }

pub record CircuitEntry : Type 0 where
  pub state : CircuitState
  pub failures : ℕ
  pub successes : ℕ
  pub last_failure_time : ℕ
  pub half_open_probes : ℕ

abbrev pub Circuits : Type 0
Circuits = Dict CircuitEntry

-- The entry that a first failure creates.
abbrev pub fresh_entry : CircuitEntry
fresh_entry = record {
  state = closed;
  failures = 0;
  successes = 0;
  last_failure_time = 0;
  half_open_probes = 0;
}

module _ (c : Config) where
  open c use {failure_threshold, success_threshold, reset_timeout_ms}

  -- `elapsed >= resetTimeoutMs`
  abbrev pub has_timed_out : CircuitEntry → ℕ → Bool
  has_timed_out e now = leb (e.last_failure_time + reset_timeout_ms) now

  attempt : CircuitState → CircuitEntry → ℕ → ℕ → Circuits → Bool × Circuits
  attempt closed e name now m = (true, m)
  attempt opened e name now m =
      if has_timed_out e now
      then (
        true,
        insert name (record e { state = half_open; successes = 0; half_open_probes = 1 }) m,
      )
      else (false, m)
  attempt half_open e name now m =
      if leb success_threshold e.half_open_probes
      then (false, m)
      else (true, insert name (record e { half_open_probes = e.half_open_probes + 1 }) m)

  unfoldable pub should_attempt : ℕ → ℕ → Circuits → Bool × Circuits
  unfolding attempt
  should_attempt name now m = elim (lookup name m) [
    | none ↦ (true, m)
    | some e ↦ attempt e.state e name now m
  ]

  succeed : CircuitState → CircuitEntry → CircuitEntry
  succeed closed e = record e { failures = 0 }
  succeed opened e = e
  succeed half_open e =
      if leb success_threshold (e.successes + 1)
      then record e { state = closed; failures = 0; successes = 0; half_open_probes = 0 }
      else record e { half_open_probes = e.half_open_probes - 1; successes = e.successes + 1 }

  unfoldable pub record_success : ℕ → Circuits → Circuits
  unfolding succeed
  record_success name m = elim (lookup name m) [
    | none ↦ m
    | some e ↦ insert name (succeed e.state e) m
  ]

  fail : CircuitState → CircuitEntry → ℕ → CircuitEntry
  fail closed e now =
      if leb failure_threshold (e.failures + 1)
      then record e { state = opened; failures = e.failures + 1; last_failure_time = now }
      else record e { failures = e.failures + 1; last_failure_time = now }
  fail opened e now = record e { failures = e.failures + 1; last_failure_time = now }
  fail half_open e now = record e {
    state = opened;
    failures = e.failures + 1;
    successes = 0;
    last_failure_time = now;
    half_open_probes = 0;
  }

  unfoldable pub record_failure : ℕ → ℕ → Circuits → Circuits
  unfolding fail
  record_failure name now m =
      let e = or_default (lookup name m) fresh_entry in insert name (fail e.state e now) m

  shown : CircuitState → CircuitEntry → ℕ → CircuitState
  shown closed e now = closed
  shown opened e now = if has_timed_out e now then half_open else opened
  shown half_open e now = half_open

  unfoldable pub get_state : ℕ → ℕ → Circuits → CircuitState
  unfolding shown
  get_state name now m = elim (lookup name m) [ none ↦ closed | some e ↦ shown e.state e now ]

abbrev pub reset : Circuits → Circuits
reset m = []

-- The calls that the client makes, in any order: requests run concurrently, and each call of the
-- breaker is one uninterrupted step.
pub data Event : Type 0 where
  attempts fails : ℕ → ℕ → Event
  succeeds : ℕ → Event
  resets : Event

unfoldable pub step : Config → Circuits → Event → Circuits
unfolding should_attempt record_success record_failure
step c m (attempts name now) = (should_attempt c name now m).1
step c m (fails name now) = record_failure c name now m
step c m (succeeds name) = record_success c name m
step c m resets = reset m

unfoldable pub run : Config → Circuits → List Event → Circuits
unfolding step
run c m [] = m
run c m (ev ∷ evs) = run c (step c m ev) evs
