-- ===== src/Failover.antt =====
-- srv/blockchain/cardano-client.ts: one backend call under the breaker (`callWithResilience`), and
-- the failover over several backends (`executeWithPriority`, with `ensureBackendInitialized`).
-- What a backend answers, how its lazy init ends, at what times the client asks the clock, and which
-- breaker calls other requests make while it waits, are given for each backend by a `World`. The
-- timeout of `withTimeout` is one of the errors (it has a status like any other).
pub mod Routing
pub mod Probes
mod Tests
use odatano.Base.{
  ℕ, Bool, true, false, Option, none, some, List, [], ◌∷◌, ◌++◌, ◌&&◌, leb, ltb, ◌==◌, any, keep,
  not, if◌then◌else◌,
}
use odatano.CircuitBreaker.{
  Config, Circuits, Event, should_attempt, record_success, record_failure, run,
}

pub record Backend : Type 0 where
  pub name : ℕ
  -- `unsupportedMethods`
  pub unsupported : List ℕ

-- How a call of a backend ends; an error is normalized to a `BackendError` with a status.
pub data Reply (A : Type 0) : Type 0 where
  answer : A → Reply A
  error : ℕ → Reply A

pub record World (A : Type 0) : Type 0 where
  pub reply : ℕ → Reply A
  -- Does the retry of a failed `init` succeed?
  pub inits : ℕ → Bool
  -- The time at which the call is admitted, and that at which it ends.
  pub started : ℕ → ℕ
  pub ended : ℕ → ℕ
  -- What other requests do to the breakers while the call is awaited.
  pub meanwhile : ℕ → List Event

pub record Client : Type 0 where
  pub circuits : Circuits
  -- Backends whose init failed (`uninitializedBackends`).
  pub uninitialized : List ℕ

abbrev pub is_client_error : ℕ → Bool
is_client_error status = leb 400 status && ltb status 500

pub data Failure : Type 0 where
  init_failed : ℕ → Failure
  failed : ℕ → ℕ → Failure

pub data Skip : Type 0 where
  does_not_support circuit_open : ℕ → Skip

pub data Outcome (A : Type 0) : Type 0 where
  returned : A → Outcome A
  refused : ℕ → Outcome A
  all_backends_failed : List Failure → List Skip → Outcome A

-- How one call of one backend ends.
pub data Call (A : Type 0) : Type 0 where
  done : A → Call A
  open_circuit : Call A
  not_initialized : Call A
  call_failed : ℕ → Call A

-- Capability routing: a declared lack of support is a skip, not a failure.
unfoldable pub supports : Option ℕ → Backend → Bool
supports none b = true
supports (some m) b = not (any (λ n. n == m) b.unsupported)

module _ {A : Type 0} (c : Config) (w : World A) where
  open w use {reply, inits, started, ended, meanwhile}

  -- `ensureBackendInitialized`: did it succeed, and the client after it.
  unfoldable pub ensure_backend_initialized : ℕ → Client → Bool × Client
  ensure_backend_initialized name s =
      if not (any (λ n. n == name) s.uninitialized)
      then (true, s)
      else if inits name
      then (true, record s { uninitialized = keep (λ n. not (n == name)) s.uninitialized })
      else (false, record s { circuits = record_failure c name (ended name) s.circuits })

  settle : ℕ → Reply A → Circuits → Call A × Circuits
  settle name (answer a) m = (done a, record_success c name m)
  settle name (error status) m = (
    call_failed status,
    if is_client_error status then m else record_failure c name (ended name) m,
  )

  settled : ℕ → Client → Call A × Client
  unfolding settle
  settled name s =
      let (r, m) = settle name (reply name) (run c s.circuits (meanwhile name)) in
      (r, record s { circuits = m })

  prepared : ℕ → Bool × Client → Call A × Client
  unfolding settled
  prepared name (false, s) = (not_initialized, s)
  prepared name (true, s) = settled name s

  admitted : ℕ → Client → Bool × Circuits → Call A × Client
  unfolding prepared ensure_backend_initialized
  admitted name s (false, m) = (open_circuit, record s { circuits = m })
  admitted name s (true, m) =
      prepared name (ensure_backend_initialized name (record s { circuits = m }))

  -- `callWithResilience`; also the body of the loop of `executeWithPriority` for one backend.
  unfoldable pub call_with_resilience : ℕ → Client → Call A × Client
  unfolding admitted
  call_with_resilience name s = admitted name s (should_attempt c name (started name) s.circuits)

  -- The loop of `executeWithPriority`. `finalOnClientError` ends it at a first 4xx.
  module _ (method : Option ℕ) (final_on_client_error : Bool) where
    conclude :
        Backend
        → Call A
        → Client
        → (List Failure → List Skip → Outcome A × Client)
        → List Failure
        → List Skip
        → Outcome A × Client
    conclude b (done a) s next errors skipped = (returned a, s)
    conclude b open_circuit s next errors skipped =
        next errors (skipped ++ circuit_open b.name ∷ [])
    conclude b not_initialized s next errors skipped =
        next (errors ++ init_failed b.name ∷ []) skipped
    conclude b (call_failed status) s next errors skipped =
        if final_on_client_error && is_client_error status
        then (refused status, s)
        else next (errors ++ failed b.name status ∷ []) skipped

    pub try_backends : List Backend → Client → List Failure → List Skip → Outcome A × Client
    unfolding conclude supports call_with_resilience
    try_backends [] s errors skipped = (all_backends_failed errors skipped, s)
    try_backends (b ∷ bs) s errors skipped =
        let (r, s') = call_with_resilience b.name s in
        let unsupported = try_backends bs s errors (skipped ++ does_not_support b.name ∷ []) in
        let called = conclude b r s' (try_backends bs s') errors skipped in
        if supports method b then called else unsupported

-- The order in which the backends are asked.
abbrev pub live_list : Option Backend → List Backend
live_list none = []
live_list (some b) = b ∷ []

abbrev pub all_backends : Bool → Option Backend → List Backend → List Backend
all_backends true live historical = live_list live ++ historical
all_backends false live historical = historical ++ live_list live

unfoldable pub execute_with_priority :
    {A : Type 0}
    → Config
    → World A
    → Bool
    → Option ℕ
    → Bool
    → Option Backend
    → List Backend
    → Client
    → Outcome A × Client
unfolding try_backends
execute_with_priority c w prefer_live method final live historical s =
    try_backends c w method final (all_backends prefer_live live historical) s [] []
