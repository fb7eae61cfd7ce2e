-- ===== src/CircuitBreaker/Phases.antt =====
-- When a circuit opens, when it refuses calls, and how it recovers.
use odatano.Base.{
  ℕ, zero, suc, ◌+◌, ◌≤◌, ◌<◌, ◌≡◌, refl, ap, ◌∙◌, ◌↔◌, ◌⊎◌, inl, inr, true, false, none, some,
  List, [], ◌∷◌, map, arith, leb, length, replicate, if◌then◌else◌, Option-cases, Bool-cases,
}
use odatano.Base.Dict.{lookup, insert, lookup-insert_self}
use odatano.CircuitBreaker.{
  CircuitState, closed, opened, half_open, Config, CircuitEntry, Circuits, fresh_entry, attempt,
  should_attempt, succeed, record_success, fail, record_failure, get_state, Event, attempts, fails,
  succeeds, step, run,
}

-- The circuit has handed out all its probe slots.
abbrev pub IsSaturated : Config → ℕ → Circuits → Type 0
IsSaturated c name m =
    (e : CircuitEntry) × (lookup name m ≡ some e)
    × (e.state ≡ half_open)
    × (c.success_threshold ≤ e.half_open_probes)

module _ (c : Config) (name : ℕ) where
  refuses_entry :
      (s : CircuitState) (e : CircuitEntry) (now : ℕ) (m : Circuits)
      → e.state ≡ s
      → lookup name m ≡ some e
      → ((should_attempt c name now m).0 ≡ false)
        ↔ ((get_state c name now m ≡ opened) ⊎ IsSaturated c name m)
  unfolding should_attempt get_state
  refuses_entry closed e now m q found = ground arith
  refuses_entry opened e now m q found = ground arith
  refuses_entry half_open e now m q found = (λ r. inr (e, found, q, ground arith), λ d. grind arith)

  -- A call is refused exactly when the circuit shows as open, or is half-open with every probe slot
  -- handed out; and a refused call changes nothing.
  pub should_attempt_refuses :
      (now : ℕ) (m : Circuits)
      → (((should_attempt c name now m).0 ≡ false)
          ↔ ((get_state c name now m ≡ opened) ⊎ IsSaturated c name m))
        × ((should_attempt c name now m).0 ≡ false → (should_attempt c name now m).1 ≡ m)
  unfolding should_attempt get_state
  should_attempt_refuses now m = elim (Option-cases (lookup name m)) [
    | inl missing ↦ (ground arith, ground arith)
    | inr (e, found) ↦ (refuses_entry e.state e now m refl found, ground arith)
  ]

  after :
      {e : CircuitEntry} (evs : List Event) {m m' : Circuits}
      → m ≡ m'
      → lookup name (run c m' evs) ≡ some e
      → lookup name (run c m evs) ≡ some e
  after evs same at = ap (λ k. lookup name (run c k evs)) same ∙ at

  record_failure_found :
      (t : ℕ) (e : CircuitEntry) (m : Circuits)
      → lookup name m ≡ some e
      → record_failure c name t m ≡ insert name (fail c e.state e t) m
  unfolding record_failure
  record_failure_found t e m found = rw (found, record_failure)

  record_failure_missing :
      (t : ℕ) (m : Circuits)
      → lookup name m ≡ none
      → record_failure c name t m ≡ insert name (fail c closed fresh_entry t) m
  unfolding record_failure
  record_failure_missing t m missing = rw (missing, record_failure)

  record_success_found :
      (e : CircuitEntry) (m : Circuits)
      → lookup name m ≡ some e
      → record_success c name m ≡ insert name (succeed c e.state e) m
  unfolding record_success
  record_success_found e m found = rw (found, record_success)

  -- A closed circuit counts failures; it is open from the threshold on.
  abbrev Tripping : ℕ → CircuitEntry → Type 0
  Tripping n e =
      (e.failures ≡ n) × (e.state ≡ (if leb c.failure_threshold n then opened else closed))

  fail-Tripping :
      (n now : ℕ) (e : CircuitEntry) → Tripping n e → Tripping (n + 1) (fail c e.state e now)
  unfolding fail
  fail-Tripping n now e h = ground arith

  fails-Tripping :
      (ts : List ℕ) (n : ℕ) (e : CircuitEntry) (m : Circuits)
      → lookup name m ≡ some e
      → Tripping n e
      → (e' : CircuitEntry) × (lookup name (run c m (map (fails name) ts)) ≡ some e')
        × Tripping (n + length ts) e'
  unfolding run step
  fails-Tripping [] n e m found h = (e, found, (omega (arith, h.0), ground arith))
  fails-Tripping (t ∷ ts) n e m found h =
      let e₁ : CircuitEntry = fail c e.state e t in
      let (e', at, k) =
        fails-Tripping ts (n + 1) e₁ (insert name e₁ m) (lookup-insert_self name e₁ m)
          (fail-Tripping n t e h) in
      (
        e',
        after (map (fails name) ts) (record_failure_found t e m found) at,
        (ground arith, ground arith),
      )

  -- On a backend with no history, `n` failures in a row, one at each given time, leave the circuit
  -- open exactly when `n` has reached the failure threshold, and closed before that.
  pub trips_at_threshold :
      (t : ℕ) (ts : List ℕ) (m : Circuits)
      → 0 < c.failure_threshold
      → lookup name m ≡ none
      → (e : CircuitEntry) × (lookup name (run c m (map (fails name) (t ∷ ts))) ≡ some e)
        × (e.failures ≡ length (t ∷ ts))
        × (e.state ≡ (if leb c.failure_threshold (length (t ∷ ts)) then opened else closed))
  unfolding run step
  trips_at_threshold t ts m pf missing =
      let e₁ : CircuitEntry = fail c closed fresh_entry t in
      let (e', at, k) =
        fails-Tripping ts 1 e₁ (insert name e₁ m) (lookup-insert_self name e₁ m)
          (fail-Tripping 0 t fresh_entry (refl, ground arith)) in
      (
        e',
        after (map (fails name) ts) (record_failure_missing t m missing) at,
        ground arith,
        ground arith,
      )

  -- The entry of a circuit that is being probed, after `k` successes.
  abbrev Probing : ℕ → CircuitEntry → Type 0
  Probing k e = (e.state ≡ half_open) × (e.successes ≡ k) × (k < c.success_threshold)

  succeeds-closed :
      (n : ℕ) (e : CircuitEntry) (m : Circuits)
      → lookup name m ≡ some e
      → e.state ≡ closed
      → (e' : CircuitEntry) × (lookup name (run c m (replicate n (succeeds name))) ≡ some e')
        × (e'.state ≡ closed)
  unfolding run step succeed
  succeeds-closed zero e m found q = (e, found, q)
  succeeds-closed (suc n) e m found q =
      let e₁ : CircuitEntry = succeed c e.state e in
      let (e', at, k) =
        succeeds-closed n e₁ (insert name e₁ m) (lookup-insert_self name e₁ m) (ground arith) in
      (e', after (replicate n (succeeds name)) (record_success_found e m found) at, k)

  succeeds-Probing :
      (n k : ℕ) (e : CircuitEntry) (m : Circuits)
      → lookup name m ≡ some e
      → Probing k e
      → (e' : CircuitEntry) × (lookup name (run c m (replicate n (succeeds name))) ≡ some e')
        × (e'.state ≡ (if leb c.success_threshold (k + n) then closed else half_open))
  unfolding run step succeed
  succeeds-Probing zero k e m found h = (e, found, ground arith)
  succeeds-Probing (suc n) k e m found h =
      let e₁ : CircuitEntry = succeed c e.state e in
      let at₁ : lookup name (insert name e₁ m) ≡ some e₁ = lookup-insert_self name e₁ m in
      elim (Bool-cases (leb c.success_threshold (k + 1))) [
        | inl done ↦
            let (e', at, q) = succeeds-closed n e₁ (insert name e₁ m) at₁ (ground arith) in
            (
              e',
              after (replicate n (succeeds name)) (record_success_found e m found) at,
              ground arith,
            )
        | inr more ↦
            let (e', at, q) = succeeds-Probing n (k + 1) e₁ (insert name e₁ m) at₁ (ground arith) in
            (
              e',
              after (replicate n (succeeds name)) (record_success_found e m found) at,
              ground arith,
            )
      ]

  -- Once the reset timeout of an open circuit has passed, the next call is let through as a probe,
  -- and `n` successes in a row after it close the circuit exactly when `n` has reached the success
  -- threshold; before that it stays half-open.
  pub recovery :
      (e : CircuitEntry) (now n : ℕ) (m : Circuits)
      → 0 < c.success_threshold
      → lookup name m ≡ some e
      → e.state ≡ opened
      → e.last_failure_time + c.reset_timeout_ms ≤ now
      → ((should_attempt c name now m).0 ≡ true)
        × (e' : CircuitEntry) × (lookup name
              (run c m (attempts name now ∷ replicate n (succeeds name)))
            ≡ some e')
        × (e'.state ≡ (if leb c.success_threshold n then closed else half_open))
  unfolding run step should_attempt attempt
  recovery e now n m ps found q late =
      let e₁ : CircuitEntry = record e { state = half_open; successes = 0; half_open_probes = 1 } in
      let (e', at, k) =
        succeeds-Probing n 0 e₁ (insert name e₁ m) (lookup-insert_self name e₁ m)
          (refl, refl, ps) in
      (ground arith, e', ground (arith, at), ground arith)
