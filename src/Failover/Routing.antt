-- ===== src/Failover/Routing.antt =====
-- What a failover returns, and that it accounts for every backend.
use odatano.Base.{
  ℕ, ◌≡◌, refl, sym, subst, ◌∙◌, ap, ◌⊎◌, inl, inr, Bool, true, false, Option, List, [], ◌∷◌, ◌++◌,
  ◌&&◌, arith, Bool-cases, if◌then◌else◌,
}
use odatano.CircuitBreaker.{Config, Circuits, should_attempt}
use odatano.Failover.{
  Backend, Reply, answer, error, World, Client, Failure, init_failed, failed, Skip, circuit_open,
  does_not_support, Outcome, returned, refused, all_backends_failed, Call, done, open_circuit,
  not_initialized, call_failed, ensure_backend_initialized, call_with_resilience, settle, prepared,
  admitted, supports, conclude, try_backends, all_backends, execute_with_priority, is_client_error,
}

append-snoc : {A : Type 0} (x : A) (xs ys : List A) → (xs ++ x ∷ []) ++ ys ≡ xs ++ x ∷ ys
append-snoc x [] ys = refl
append-snoc x (z ∷ xs) ys = ap (λ l. z ∷ l) (append-snoc x xs ys)

append_nil : {A : Type 0} (xs : List A) → xs ++ [] ≡ xs
append_nil [] = refl
append_nil (x ∷ xs) = ap (λ l. x ∷ l) (append_nil xs)

module _ {A : Type 0} (c : Config) (w : World A) where
  -- The backend's circuit lets a call through, in this state of the client.
  abbrev pub lets_through : ℕ → Client → Bool
  lets_through name s = (should_attempt c name (w.started name) s.circuits).0

  -- What the end of a call says of the circuit and of the backend's reply.
  abbrev Tells : ℕ → Bool → Call A → Type 0
  Tells name through (done a) = (through ≡ true) × (w.reply name ≡ answer a)
  Tells name through (call_failed status) = (through ≡ true) × (w.reply name ≡ error status)
  Tells name through open_circuit = through ≡ false
  Tells name through not_initialized = (through ≡ true) × (w.inits name ≡ false)

  settle-Tells :
      (name : ℕ) (r : Reply A) (m : Circuits)
      → w.reply name ≡ r
      → Tells name true (settle c w name r m).0
  unfolding settle
  settle-Tells name (answer a) m h = (refl, h)
  settle-Tells name (error status) m h = (refl, h)

  prepared-Tells :
      (name : ℕ) (p : Bool × Client)
      → (p.0 ≡ false → w.inits name ≡ false)
      → Tells name true (prepared c w name p).0
  unfolding prepared
  prepared-Tells name (false, s) h = (refl, h refl)
  prepared-Tells name (true, s) h = settle-Tells name (w.reply name) _ refl

  ensure_false :
      (name : ℕ) (s : Client)
      → (ensure_backend_initialized c w name s).0 ≡ false
      → w.inits name ≡ false
  unfolding ensure_backend_initialized
  ensure_false name s h = ground arith

  admitted-Tells :
      (name : ℕ) (s : Client) (p : Bool × Circuits) → Tells name p.0 (admitted c w name s p).0
  unfolding admitted
  admitted-Tells name s (false, m) = refl
  admitted-Tells name s (true, m) = prepared-Tells name _ (ensure_false name _)

  call-Tells :
      (name : ℕ) (s : Client) → Tells name (lets_through name s) (call_with_resilience c w name s).0
  unfolding call_with_resilience
  call-Tells name s = admitted-Tells name s (should_attempt c name (w.started name) s.circuits)

  module _ (method : Option ℕ) (final : Bool) where
    abbrev pub FoundIn : List Backend → (Backend → Type 0) → Type 0
    FoundIn [] P = ⊥
    FoundIn (b ∷ bs) P = P b ⊎ FoundIn bs P

    abbrev pub Answered : A → Backend → Type 0
    Answered a b = (supports method b ≡ true) × (w.reply b.name ≡ answer a)

    abbrev pub Refused : ℕ → Backend → Type 0
    Refused status b =
        (supports method b ≡ true)
        × (w.reply b.name ≡ error status)
        × (is_client_error status ≡ true)
        × (final ≡ true)

    -- The failure is this backend's own.
    abbrev pub Reported : Backend → Failure → Type 0
    Reported b (init_failed name) = (name ≡ b.name) × (w.inits b.name ≡ false)
    Reported b (failed name status) = (name ≡ b.name) × (w.reply b.name ≡ error status)

    -- The backend was called in the state `s` of the client and failed as told, or it was skipped for the
    -- reason told.
    abbrev pub HasFailed : Backend → Client → Failure → Type 0
    HasFailed b s f = (supports method b ≡ true) × (lets_through b.name s ≡ true) × Reported b f

    abbrev pub WasSkipped : Backend → Client → Skip → Type 0
    WasSkipped b s (does_not_support name) = (name ≡ b.name) × (supports method b ≡ false)
    WasSkipped b s (circuit_open name) =
        (name ≡ b.name) × (supports method b ≡ true) × (lets_through b.name s ≡ false)

    -- The client after the backend has had its turn.
    abbrev pub after_turn : Backend → Client → Client
    after_turn b s = if supports method b then (call_with_resilience c w b.name s).1 else s

    -- Each backend, in the order of the list, has exactly one entry in one of the two lists, and these
    -- have no other entries.
    abbrev pub IsAccounted : List Backend → Client → List Failure → List Skip → Type 0
    IsAccounted [] s errors skipped = (errors ≡ []) × (skipped ≡ [])
    IsAccounted (b ∷ bs) s errors skipped =
        ((f : Failure) × (rest : List Failure) × (errors ≡ f ∷ rest)
          × HasFailed b s f
          × IsAccounted bs (after_turn b s) rest skipped)
        ⊎ ((k : Skip) × (rest : List Skip) × (skipped ≡ k ∷ rest)
            × WasSkipped b s k
            × IsAccounted bs (after_turn b s) errors rest)

    abbrev pub IsExplained : List Backend → Client → Outcome A → Type 0
    IsExplained bs s (returned a) = FoundIn bs (Answered a)
    IsExplained bs s (refused status) = FoundIn bs (Refused status)
    IsExplained bs s (all_backends_failed errors skipped) = IsAccounted bs s errors skipped

    -- The same for the rest of the loop, which adds to the lists that it is given.
    abbrev Extends : List Backend → Client → List Failure → List Skip → Outcome A → Type 0
    Extends bs s errors skipped (returned a) = FoundIn bs (Answered a)
    Extends bs s errors skipped (refused status) = FoundIn bs (Refused status)
    Extends bs s errors skipped (all_backends_failed errors' skipped') =
        (es : List Failure) × (ks : List Skip) × (errors' ≡ errors ++ es)
        × (skipped' ≡ skipped ++ ks)
        × IsAccounted bs s es ks

    failed_cons :
        (b : Backend) (bs : List Backend) (s : Client) (errors : List Failure) (skipped : List Skip)
        (f : Failure) (o : Outcome A)
        → HasFailed b s f
        → Extends bs (after_turn b s) (errors ++ f ∷ []) skipped o
        → Extends (b ∷ bs) s errors skipped o
    failed_cons b bs s errors skipped f (returned a) p h = inr h
    failed_cons b bs s errors skipped f (refused status) p h = inr h
    failed_cons b bs s errors skipped f (all_backends_failed es' ks') p (es, ks, e, k, rest) =
        (f ∷ es, ks, e ∙ append-snoc f errors es, k, inl (f, es, refl, p, rest))

    skipped_cons :
        (b : Backend) (bs : List Backend) (s : Client) (errors : List Failure) (skipped : List Skip)
        (x : Skip) (o : Outcome A)
        → WasSkipped b s x
        → Extends bs (after_turn b s) errors (skipped ++ x ∷ []) o
        → Extends (b ∷ bs) s errors skipped o
    skipped_cons b bs s errors skipped x (returned a) p h = inr h
    skipped_cons b bs s errors skipped x (refused status) p h = inr h
    skipped_cons b bs s errors skipped x (all_backends_failed es' ks') p (es, ks, e, k, rest) =
        (es, x ∷ ks, e, k ∙ append-snoc x skipped ks, inr (x, ks, refl, p, rest))

    -- One round of the loop, by the end of the call.
    conclude-Extends :
        (b : Backend) (bs : List Backend) (s s' : Client) (errors : List Failure)
        (skipped : List Skip) (r : Call A) (next : List Failure → List Skip → Outcome A × Client)
        → supports method b ≡ true
        → Tells b.name (lets_through b.name s) r
        → ((errors : List Failure) (skipped : List Skip)
            → Extends bs (after_turn b s) errors skipped (next errors skipped).0)
        → Extends (b ∷ bs) s errors skipped (conclude c w method final b r s' next errors skipped).0
    unfolding conclude
    conclude-Extends b bs s s' errors skipped (done a) next can told ih = inl (can, told.1)
    conclude-Extends b bs s s' errors skipped open_circuit next can told ih =
        skipped_cons b bs s errors skipped (circuit_open b.name) _ (refl, can, told) (ih _ _)
    conclude-Extends b bs s s' errors skipped not_initialized next can told ih =
        failed_cons b bs s errors skipped (init_failed b.name) _ (can, told.0, (refl, told.1))
          (ih _ _)
    conclude-Extends b bs s s' errors skipped (call_failed status) next can told ih =
        elim (Bool-cases (final && is_client_error status)) [
          | inl last ↦ rw last (inl (can, told.1, ground arith, ground arith))
          | inr more ↦ rw more (
              failed_cons b bs s errors skipped (failed b.name status) _
                (can, told.0, (refl, told.1)) (ih _ _))
        ]

    try_backends-Extends :
        (bs : List Backend) (s : Client) (errors : List Failure) (skipped : List Skip)
        → Extends bs s errors skipped (try_backends c w method final bs s errors skipped).0
    unfolding try_backends
    try_backends-Extends [] s errors skipped =
        ([], [], sym (append_nil errors), sym (append_nil skipped), (refl, refl))
    try_backends-Extends (b ∷ bs) s errors skipped = elim (Bool-cases (supports method b)) [
      | inl can ↦
          let called : after_turn b s ≡ (call_with_resilience c w b.name s).1 = rw can refl in
          rw can (
            conclude-Extends b bs s _ errors skipped _ _ can (call-Tells b.name s) (λ es ks.
              subst
                (λ t.
                  Extends bs t es ks
                    (try_backends c w method final bs (call_with_resilience c w b.name s).1 es
                      ks).0)
                (sym called) (try_backends-Extends bs (call_with_resilience c w b.name s).1 es ks)))
      | inr cannot ↦
          let kept : after_turn b s ≡ s = rw cannot refl in
          let next = skipped ++ does_not_support b.name ∷ [] in
          rw cannot (
            skipped_cons b bs s errors skipped (does_not_support b.name) _ (refl, cannot)
              (subst
                (λ t. Extends bs t errors next (try_backends c w method final bs s errors next).0)
                (sym kept) (try_backends-Extends bs s errors next)))
    ]

    from_Extends :
        (bs : List Backend) (s : Client) (o : Outcome A) → Extends bs s [] [] o → IsExplained bs s o
    from_Extends bs s (returned a) h = h
    from_Extends bs s (refused status) h = h
    from_Extends bs s (all_backends_failed errors skipped) (es, ks, e, k, h) =
        subst (λ xs. IsAccounted bs s xs skipped) (sym e) (subst (IsAccounted bs s es) (sym k) h)

-- A failover returns only what a backend that supports the method has answered; it ends with a
-- 4xx only if that is asked for and such a backend has given it. When it gives up, each configured
-- backend has, in the order in which they are asked, exactly one entry in exactly one of the two
-- lists, and there are no other entries: a failure of its own init or call, if it supports the method
-- and its circuit let the call through, or a skip, as unsupported if it does not support the method and as
-- an open circuit if its circuit, in the client's state at its turn, refused the call.
pub execute-IsExplained :
    {A : Type 0} (c : Config) (w : World A) (prefer_live : Bool) (method : Option ℕ) (final : Bool)
    (live : Option Backend) (historical : List Backend) (s : Client)
    → IsExplained c w method final
        (all_backends prefer_live live historical)
        s
        (execute_with_priority c w prefer_live method final live historical s).0
unfolding execute_with_priority
execute-IsExplained c w prefer_live method final live historical s =
    let bs = all_backends prefer_live live historical in
    from_Extends c w method final bs s _ (try_backends-Extends c w method final bs s [] [])
