-- ===== src/CircuitBreaker/Tests.antt =====
-- Runs of the breaker, and the theorems at concrete inputs.
use odatano.Base.{◌≡◌, refl, ◌↔◌, ◌⊎◌, true, false, some, List, [], ◌∷◌, map, replicate, arith}
use odatano.Base.Dict.{lookup, Each}
use odatano.CircuitBreaker.{
  closed, opened, half_open, CircuitEntry, Circuits, default_config, should_attempt, get_state,
  Event, attempts, fails, succeeds, run,
}
use odatano.CircuitBreaker.Invariant.{IsSound, run-IsSound}
use odatano.CircuitBreaker.Phases.{
  IsSaturated, should_attempt_refuses, trips_at_threshold, recovery,
}

abbrev five_failures : List Event
five_failures = map (fails 1) (10 ∷ 20 ∷ 30 ∷ 40 ∷ 50 ∷ [])

opens : get_state default_config 1 60 (run default_config [] five_failures) ≡ opened
unfolding get_state run
opens = refl

half_opens_later :
    get_state default_config 1 30_050 (run default_config [] five_failures) ≡ half_open
unfolding get_state run
half_opens_later = refl

abbrev history : List Event
history = attempts 1 0 ∷ fails 1 5 ∷ succeeds 1 ∷ fails 2 9 ∷ []

run-IsSound_example : Each (IsSound default_config) (run default_config [] history)
run-IsSound_example = run-IsSound default_config (omega arith) (omega arith) history [] tt

abbrev tripped : CircuitEntry
tripped = record {
  state = opened;
  failures = 5;
  successes = 0;
  last_failure_time = 1000;
  half_open_probes = 0;
}

abbrev tripped_only : Circuits
tripped_only = (1, tripped) ∷ []

trips_at_threshold_example :
    (e : CircuitEntry) × (lookup 1 (run default_config [] five_failures) ≡ some e)
    × (e.failures ≡ 5)
    × (e.state ≡ opened)
trips_at_threshold_example =
    trips_at_threshold default_config 1 10 (20 ∷ 30 ∷ 40 ∷ 50 ∷ []) [] (omega arith) refl

recovery_example :
    ((should_attempt default_config 1 31_000 tripped_only).0 ≡ true)
    × (e' : CircuitEntry) × (lookup 1
          (run default_config tripped_only (attempts 1 31_000 ∷ replicate 2 (succeeds 1)))
        ≡ some e')
    × (e'.state ≡ closed)
recovery_example =
    recovery default_config 1 tripped 31_000 2 tripped_only (omega arith) refl refl (omega arith)

should_attempt_refuses_example :
    (((should_attempt default_config 1 2000 tripped_only).0 ≡ false) ↔ (
      (get_state default_config 1 2000 tripped_only ≡ opened)
      ⊎ IsSaturated default_config 1 tripped_only))
    × ((should_attempt default_config 1 2000 tripped_only).0 ≡ false
        → (should_attempt default_config 1 2000 tripped_only).1 ≡ tripped_only)
should_attempt_refuses_example = should_attempt_refuses default_config 1 2000 tripped_only
