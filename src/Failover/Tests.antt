-- ===== src/Failover/Tests.antt =====
-- Runs of the failover, and the theorems at concrete inputs.
use odatano.Base.{ℕ, ◌≡◌, refl, true, false, none, some, [], ◌∷◌, arith, ◌==◌, if◌then◌else◌}
use odatano.CircuitBreaker.{opened, CircuitEntry, default_config, run, should_attempt}
use odatano.Failover.{
  Backend, answer, error, Reply, World, Client, returned, all_backends_failed, failed,
  does_not_support, open_circuit, all_backends, execute_with_priority, call_with_resilience,
}
use odatano.Failover.Routing.{IsExplained, execute-IsExplained}
use odatano.Failover.Probes.{call_all, client_errors_block}

-- Backends 1 and 2 are in rotation; 2 lacks method 9.
abbrev node : Backend
node = record { name = 1; unsupported = [] }

abbrev koios : Backend
koios = record { name = 2; unsupported = 9 ∷ [] }

abbrev replies : ℕ → Reply ℕ
replies name = if name == 1 then error 503 else answer 7

abbrev world : World ℕ
world = record {
  reply = replies;
  inits = λ n. true;
  started = λ n. 100;
  ended = λ n. 200;
  meanwhile = λ n. [];
}

abbrev start : Client
start = record { circuits = []; uninitialized = [] }

fallback :
    (execute_with_priority default_config world true none false (some node) (koios ∷ []) start).0
    ≡ returned 7
unfolding execute_with_priority run call_with_resilience should_attempt
fallback = refl

exhausted :
    (execute_with_priority default_config world true
      (some 9)
      false
      (some node)
      (koios ∷ [])
      start).0
    ≡ all_backends_failed (failed 1 503 ∷ []) (does_not_support 2 ∷ [])
unfolding execute_with_priority run call_with_resilience
exhausted = refl

execute-IsExplained_example :
    IsExplained default_config world
      (some 9)
      false
      (all_backends true (some node) (koios ∷ []))
      start
      (execute_with_priority default_config world true
        (some 9)
        false
        (some node)
        (koios ∷ [])
        start).0
execute-IsExplained_example =
    execute-IsExplained default_config world true (some 9) false (some node) (koios ∷ []) start

-- A circuit that opened at time 1000.
abbrev tripped : CircuitEntry
tripped = record {
  state = opened;
  failures = 5;
  successes = 0;
  last_failure_time = 1000;
  half_open_probes = 0;
}

abbrev recovering : Client
recovering = record { circuits = (1, tripped) ∷ []; uninitialized = [] }

abbrev not_found : World ℕ
not_found = record world { reply = λ n. error 404; started = λ n. 40_000 }

abbrev healthy : World ℕ
healthy = record world { reply = λ n. answer 7; started = λ n. 900_000_000 }

abbrev probed : Client
probed = call_all default_config 1 (not_found ∷ not_found ∷ []) recovering

client_errors_block_example :
    call_with_resilience default_config healthy 1 probed ≡ (open_circuit, probed)
client_errors_block_example =
    client_errors_block default_config 1 tripped not_found (not_found ∷ []) healthy recovering refl
      refl (omega arith) refl ((404, refl, refl, refl), ((404, refl, refl, refl), tt)) refl
