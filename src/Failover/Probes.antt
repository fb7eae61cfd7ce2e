-- ===== src/Failover/Probes.antt =====
-- What 4xx answers do to a circuit that is being probed.
use odatano.Base.{
  ℕ, ◌+◌, ◌≤◌, ◌<◌, ◌≡◌, refl, sym, subst, inr, true, false, some, List, [], ◌∷◌, arith, length,
  any, ◌==◌,
}
use odatano.Base.Dict.{lookup, insert, lookup-insert_self}
use odatano.CircuitBreaker.{opened, half_open, Config, CircuitEntry, Circuits, should_attempt, run}
use odatano.CircuitBreaker.Phases.{IsSaturated, should_attempt_refuses}
use odatano.Failover.{
  error, World, Client, open_circuit, is_client_error, ensure_backend_initialized,
  call_with_resilience,
}

-- The backend answers with a 4xx, and no other request touches the breaker meanwhile.
abbrev pub AnswersClientError : {A : Type 0} → ℕ → World A → Type 0
AnswersClientError name w =
    (status : ℕ) × (w.reply name ≡ error status)
    × (is_client_error status ≡ true)
    × (w.meanwhile name ≡ [])

-- The backend is not waiting for a retry of its init.
abbrev pub IsInitialized : ℕ → Client → Type 0
IsInitialized name s = any (λ n. n == name) s.uninitialized ≡ false

module _ (c : Config) (name : ℕ) where
  -- The circuit is half-open with `k` slots handed out.
  abbrev Slots : ℕ → Circuits → Type 0
  Slots k m =
      (e : CircuitEntry) × (lookup name m ≡ some e)
      × (e.state ≡ half_open)
      × (e.half_open_probes ≡ k)

  admit_next :
      (k now : ℕ) (m : Circuits)
      → Slots k m
      → k < c.success_threshold
      → (m' : Circuits) × (should_attempt c name now m ≡ (true, m')) × Slots (k + 1) m'
  unfolding should_attempt
  admit_next k now m (e, found, half, slots) room =
      let e' : CircuitEntry = record e { half_open_probes = e.half_open_probes + 1 } in
      (insert name e' m, ground arith, (e', lookup-insert_self name e' m, half, ground arith))

  admit_first :
      (now : ℕ) (e : CircuitEntry) (m : Circuits)
      → lookup name m ≡ some e
      → e.state ≡ opened
      → e.last_failure_time + c.reset_timeout_ms ≤ now
      → (m' : Circuits) × (should_attempt c name now m ≡ (true, m')) × Slots 1 m'
  unfolding should_attempt
  admit_first now e m found q late =
      let e' : CircuitEntry = record e { state = half_open; successes = 0; half_open_probes = 1 } in
      (insert name e' m, ground arith, (e', lookup-insert_self name e' m, refl, refl))

module _ {A : Type 0} (c : Config) (name : ℕ) where
  -- A 4xx answer keeps the probe slot that its call took.
  slot_kept :
      (w : World A) (s : Client) (m : Circuits)
      → AnswersClientError name w
      → IsInitialized name s
      → should_attempt c name (w.started name) s.circuits ≡ (true, m)
      → (call_with_resilience c w name s).1 ≡ record s { circuits = m }
  unfolding call_with_resilience ensure_backend_initialized run
  slot_kept w s m (status, replied, client, quiet) ready admit = ground arith

  -- One call after another.
  abbrev pub call_all : List (World A) → Client → Client
  call_all [] s = s
  call_all (w ∷ ws) s = call_all ws (call_with_resilience c w name s).1

  abbrev pub AllAnswerClientErrors : List (World A) → Type 0
  AllAnswerClientErrors [] = Unit
  AllAnswerClientErrors (w ∷ ws) = AnswersClientError name w × AllAnswerClientErrors ws

  fill :
      (ws : List (World A)) (k : ℕ) (s : Client)
      → AllAnswerClientErrors ws
      → IsInitialized name s
      → Slots c name k s.circuits
      → k + length ws ≡ c.success_threshold
      → IsSaturated c name (call_all ws s).circuits
  fill [] k s h ready (e, found, half, slots) sum = (e, found, half, omega arith)
  fill (w ∷ ws) k s h ready slots sum =
      let (m', admit, slots') =
        admit_next c name k (w.started name) s.circuits slots (omega arith) in
      subst (λ (k : Client). IsSaturated c name (call_all ws k).circuits)
        (sym (slot_kept w s m' h.0 ready admit))
        (fill ws (k + 1) (record s { circuits = m' }) h.1 ready slots' (omega arith))

  blocked :
      (w : World A) (s : Client)
      → IsSaturated c name s.circuits
      → call_with_resilience c w name s ≡ (open_circuit, s)
  unfolding call_with_resilience
  blocked w s full =
      let (refusal, same) = should_attempt_refuses c name (w.started name) s.circuits in
      let no = refusal.1 (inr full) in ground (arith, no, same no)

  -- A defect: a 4xx answer is reported neither as a success nor as a failure, so a probe that ends
  -- in one never gives its slot back. When the reset timeout of an open circuit has passed and as
  -- many calls as the success threshold allows end in a 4xx, the circuit is blocked for good:
  -- whatever the backend would answer, and however much later, the next call is refused without
  -- asking the backend, and it leaves the client as it was.
  pub client_errors_block :
      (e : CircuitEntry) (w : World A) (ws : List (World A)) (later : World A) (s : Client)
      → lookup name s.circuits ≡ some e
      → e.state ≡ opened
      → e.last_failure_time + c.reset_timeout_ms ≤ w.started name
      → IsInitialized name s
      → AllAnswerClientErrors (w ∷ ws)
      → length (w ∷ ws) ≡ c.success_threshold
      → let s' = call_all (w ∷ ws) s in call_with_resilience c later name s' ≡ (open_circuit, s')
  client_errors_block e w ws later s found q late ready h sum =
      let (m', admit, slots) = admit_first c name (w.started name) e s.circuits found q late in
      let full = fill ws 1 (record s { circuits = m' }) h.1 ready slots (omega arith) in
      blocked later (call_all (w ∷ ws) s) (
        subst (λ (k : Client). IsSaturated c name (call_all ws k).circuits)
          (sym (slot_kept w s m' h.0 ready admit)) full)
