-- ===== src/CircuitBreaker/Invariant.antt =====
-- The counters of a breaker stay within its thresholds, and backends do not affect one another.
use odatano.Base.{
  ℕ, ◌≤◌, ◌<◌, ◌≡◌, refl, ◌∙◌, inl, inr, List, [], ◌∷◌, ◌+◌, arith, Option-cases, Bool-cases, leb,
}
use odatano.Base.Dict.{lookup, lookup-insert_ne, Each, Each-insert, Each-lookup}
use odatano.CircuitBreaker.{
  CircuitState, closed, opened, half_open, Config, CircuitEntry, Circuits, fresh_entry, attempt,
  succeed, fail, Event, attempts, fails, succeeds, resets, step, run, should_attempt,
  record_success, record_failure,
}

-- What the counters may be in each state.
abbrev pub Counts : Config → CircuitState → CircuitEntry → Type 0
Counts c closed e =
    (e.failures < c.failure_threshold) × (e.successes ≡ 0) × (e.half_open_probes ≡ 0)
Counts c opened e =
    (c.failure_threshold ≤ e.failures) × (e.successes ≡ 0) × (e.half_open_probes ≡ 0)
Counts c half_open e =
    (c.failure_threshold ≤ e.failures)
    × (e.successes < c.success_threshold)
    × (e.half_open_probes ≤ c.success_threshold)

abbrev pub IsSound : Config → CircuitEntry → Type 0
IsSound c e = Counts c e.state e

module _ (c : Config) (pf : 0 < c.failure_threshold) (ps : 0 < c.success_threshold) where
  attempt-IsSound :
      (s : CircuitState) (e : CircuitEntry) (name now : ℕ) (m : Circuits)
      → e.state ≡ s
      → Counts c s e
      → Each (IsSound c) m
      → Each (IsSound c) (attempt c s e name now m).1
  unfolding attempt
  attempt-IsSound closed e name now m q k h = h
  attempt-IsSound opened e name now m q k h = ground (
    arith,
    Each-insert (IsSound c) name
        (record e { state = half_open; successes = 0; half_open_probes = 1 }) m (k.0, ps, ps) h,
  )
  attempt-IsSound half_open e name now m q k h =
      let e' : CircuitEntry = record e { half_open_probes = e.half_open_probes + 1 } in
      elim (Bool-cases (leb c.success_threshold e.half_open_probes)) [
        | inl full ↦ rw full h
        | inr room ↦ rw room (Each-insert (IsSound c) name e' m (rw q (ground arith)) h)
      ]

  succeed-IsSound :
      (s : CircuitState) (e : CircuitEntry) → e.state ≡ s → Counts c s e → IsSound c (succeed c s e)
  unfolding succeed
  succeed-IsSound closed e q k = rw q (pf, k.1, k.2)
  succeed-IsSound opened e q k = rw q k
  succeed-IsSound half_open e q k = ground arith

  fail-IsSound :
      (s : CircuitState) (e : CircuitEntry) (now : ℕ)
      → e.state ≡ s
      → Counts c s e
      → IsSound c (fail c s e now)
  unfolding fail
  fail-IsSound closed e now q k = ground arith
  fail-IsSound opened e now q k = rw q (omega arith)
  fail-IsSound half_open e now q k = omega arith

  step-IsSound : (m : Circuits) (ev : Event) → Each (IsSound c) m → Each (IsSound c) (step c m ev)
  unfolding step should_attempt record_success record_failure
  step-IsSound m (attempts name now) h = elim (Option-cases (lookup name m)) [
    | inl missing ↦ rw (missing, step, should_attempt) h
    | inr (e, found) ↦
        rw (found, step, should_attempt)
          (attempt-IsSound e.state e name now m refl (Each-lookup (IsSound c) name m h found) h)
  ]
  step-IsSound m (succeeds name) h = elim (Option-cases (lookup name m)) [
    | inl missing ↦ rw (missing, step, record_success) h
    | inr (e, found) ↦
        rw (found, step, record_success)
          (Each-insert (IsSound c) name _ m
            (succeed-IsSound e.state e refl (Each-lookup (IsSound c) name m h found)) h)
  ]
  step-IsSound m (fails name now) h = elim (Option-cases (lookup name m)) [
    | inl missing ↦
        rw (missing, step, record_failure)
          (Each-insert (IsSound c) name _ m
            (fail-IsSound closed fresh_entry now refl (pf, refl, refl)) h)
    | inr (e, found) ↦
        rw (found, step, record_failure)
          (Each-insert (IsSound c) name _ m
            (fail-IsSound e.state e now refl (Each-lookup (IsSound c) name m h found)) h)
  ]
  step-IsSound m resets h = tt

  -- With positive thresholds, whatever calls the breaker gets and in whatever order: a closed
  -- circuit has fewer failures than the threshold, one that is open or half-open has at least as
  -- many, and in half-open there are fewer successes, and no more probe slots taken, than the
  -- success threshold; else no success and no slot is counted.
  pub run-IsSound :
      (evs : List Event) (m : Circuits) → Each (IsSound c) m → Each (IsSound c) (run c m evs)
  unfolding run
  run-IsSound [] m h = h
  run-IsSound (ev ∷ evs) m h = run-IsSound evs (step c m ev) (step-IsSound m ev h)

-- The backend that an event is about.
abbrev pub Concerns : ℕ → Event → Type 0
Concerns name (attempts n _) = n ≡ name
Concerns name (fails n _) = n ≡ name
Concerns name (succeeds n) = n ≡ name
Concerns name resets = Unit

abbrev pub Others : ℕ → List Event → Type 0
Others name [] = Unit
Others name (ev ∷ evs) = (¬ Concerns name ev) × Others name evs

step_others :
    (c : Config) (name : ℕ) (m : Circuits) (ev : Event)
    → ¬ Concerns name ev
    → lookup name (step c m ev) ≡ lookup name m
unfolding step should_attempt attempt record_success record_failure
step_others c name m (attempts n now) h = grind (arith, lookup-insert_ne)
step_others c name m (fails n now) h = lookup-insert_ne n name _ m h
step_others c name m (succeeds n) h = grind (arith, lookup-insert_ne)
step_others c name m resets h = absurd (h tt)

-- Calls about other backends, with no reset among them, leave a backend's circuit as it was.
pub run_elsewhere :
    (c : Config) (name : ℕ) (evs : List Event) (m : Circuits)
    → Others name evs
    → lookup name (run c m evs) ≡ lookup name m
unfolding run
run_elsewhere c name [] m h = refl
run_elsewhere c name (ev ∷ evs) m h =
    run_elsewhere c name evs (step c m ev) h.1 ∙ step_others c name m ev h.0
