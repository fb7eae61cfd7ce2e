-- ===== src/Worker/Triples.antt =====
-- Rules for what a piece of an instance's work keeps, whatever the others do between its steps.
use odatano.Base.{
  ℕ, ◌≡◌, refl, sym, subst, Bool, true, Option, none, some, List, [], ◌∷◌, arith, inl, inr,
  Bool-cases, Option-cases, All,
}
use odatano.Errors.{JobError}
use odatano.Jobs.{JobRow, Db, get_job_by_id}
use odatano.Jobs.Operations.{apply}
use odatano.Jobs.Induction.{IsOk}
use odatano.Jobs.Lifecycle.{is_fixed}
use odatano.Jobs.Keys.{IsFresh}
use odatano.Worker.{
  Outcome, ok, thrown, returned, Answer, Outage, committed, lost_before, lost_after, Event, acts,
  sends, TrackedJob, Run, World, M, and_then, ◌>>=◌, recover, catch, answered, sendable, log_sent,
  happen, happen_all, tick, commit, tx, call, send,
}
use odatano.Worker.Stored.{
  HasBytes, IsStored, Follows, Follows-refl, Follows-trans, Follows-IsStored, Follows-apply,
}

-- A tracked job's bytes are those that are stored.
abbrev pub IsTracked : Db → TrackedJob → Type 0
IsTracked d t = (c : ℕ) → t.signed_tx_cbor ≡ some c → IsStored t.job_id c d

-- What others do is an operation on jobs with new random IDs, or a sending of stored bytes.
abbrev pub IsFair : (ℕ → Bool) → Event → Type 0
IsFair is_uuid (acts o) = IsOk (IsFresh is_uuid) o
IsFair is_uuid (sends id) = Unit

map_all {ℓ} :
    {A : Type ℓ} (P Q : A → Type 0) → ((a : A) → P a → Q a) → (xs : List A) → All P xs → All Q xs
map_all P Q h [] k = tt
map_all P Q h (x ∷ xs) k = (h x k.0, map_all P Q h xs k.1)

-- `d0` are the tables at the beginning.
module _ (is_uuid : ℕ → Bool) (d0 : Db) where
  -- The tables are reached by operations of the job store; all bytes that have been sent for a job, or
  -- that the tracker would send, are those that are stored with it.
  unfoldable pub IsSound : Run → Type 0
  IsSound s =
      Follows is_uuid d0 s.db
      × All (λ p. IsStored p.0 p.1 s.db) s.sent
      × All (IsTracked s.db) s.pending

  abbrev pub IsSoundAt : Db → List (ℕ × ℕ) → List TrackedJob → Type 0
  IsSoundAt d sent pending =
      Follows is_uuid d0 d × All (λ p. IsStored p.0 p.1 d) sent × All (IsTracked d) pending

  pub to_IsSound : (s : Run) → IsSoundAt s.db s.sent s.pending → IsSound s
  unfolding IsSound
  to_IsSound s h = h

  pub from_IsSound : (s : Run) → IsSound s → IsSoundAt s.db s.sent s.pending
  unfolding IsSound
  from_IsSound s h = h

  pub moved :
      (d e : Db) (sent : List (ℕ × ℕ)) (pending : List TrackedJob)
      → Follows is_uuid d e
      → IsSoundAt d sent pending
      → IsSoundAt e sent pending
  moved d e sent pending f (g, stored, tracked) = (
    Follows-trans is_uuid d0 d e g f,
    map_all (λ (p : ℕ × ℕ). IsStored p.0 p.1 d) (λ p. IsStored p.0 p.1 e)
        (λ p h. Follows-IsStored is_uuid p.0 p.1 d e f h) sent stored,
    map_all (IsTracked d) (IsTracked e)
        (λ t h c has. Follows-IsStored is_uuid t.job_id c d e f (h c has)) pending tracked,
  )

  logged :
      (id : ℕ) (o : Option JobRow) (d : Db) (sent : List (ℕ × ℕ))
      → get_job_by_id id d ≡ o
      → All (λ p. IsStored p.0 p.1 d) sent
      → All (λ p. IsStored p.0 p.1 d) (log_sent id (sendable o) sent)
  logged id none d sent e h = h
  logged id (some r) d sent e h = elim (Bool-cases (is_fixed r.status)) [
    | inl fixed ↦ elim (Option-cases r.signed_tx_cbor) [
      | inl missing ↦ ground (arith, h)
      | inr (c, bytes) ↦
          let here : IsStored id c d = subst (HasBytes c) (sym e) (fixed, bytes) in
          ground (arith, here, h)
    ]
    | inr building ↦ ground (arith, h)
  ]

  happen-IsSound : (e : Event) (s : Run) → IsFair is_uuid e → IsSound s → IsSound (happen true e s)
  unfolding IsSound happen
  happen-IsSound (acts o) s k h =
      moved s.db (apply true o s.db) s.sent s.pending (Follows-apply is_uuid o s.db k) h
  happen-IsSound (sends id) s k h =
      (h.0, logged id (get_job_by_id id s.db) s.db s.sent refl h.1, h.2)

  -- The others have changed the tables only as the job store does.
  happen-Follows :
      (e : Event) (s : Run) → IsFair is_uuid e → Follows is_uuid s.db (happen true e s).db
  unfolding happen
  happen-Follows (acts o) s k = Follows-apply is_uuid o s.db k
  happen-Follows (sends id) s k = Follows-refl is_uuid s.db

  happen_all-IsSound :
      (es : List Event) (s : Run)
      → All (IsFair is_uuid) es
      → IsSound s
      → IsSound (happen_all true es s)
  unfolding happen_all
  happen_all-IsSound [] s k h = h
  happen_all-IsSound (e ∷ es) s k h =
      happen_all-IsSound es (happen true e s) k.1 (happen-IsSound e s k.0 h)

  happen_all-Follows :
      (es : List Event) (s : Run)
      → All (IsFair is_uuid) es
      → Follows is_uuid s.db (happen_all true es s).db
  unfolding happen_all
  happen_all-Follows [] s k = Follows-refl is_uuid s.db
  happen_all-Follows (e ∷ es) s k =
      Follows-trans is_uuid s.db (happen true e s).db (happen_all true es (happen true e s)).db
        (happen-Follows e s k.0) (happen_all-Follows es (happen true e s) k.1)

  -- What an operation of the instance does to the tables.
  abbrev pub IsOps : {R : Type 0} → (ℕ → Db → R × Db) → Type 0
  IsOps f = (now : ℕ) (d : Db) → Follows is_uuid d (f now d).1

  -- What holds after a part that ends with a value.
  abbrev pub Post : {A : Type 0} → (A → Run → Type 0) → Outcome A → Run → Type 0
  Post Q (ok a) s = Q a s
  Post Q (thrown e) s = Unit
  Post Q returned s = Unit

  abbrev pub Any : Run → Type 0
  Any s = Unit

  abbrev pub AnyOf : {A : Type 0} → A → Run → Type 0
  AnyOf a s = Unit

  -- From a sound state with `P`, the part ends in a sound state that follows, and with a value only
  -- with `Q`.
  unfoldable pub Triple : {A : Type 0} → (Run → Type 0) → M A → (A → Run → Type 0) → Type 0
  Triple P m Q =
      (s : Run)
      → IsSound s
      → P s
      → IsSound (m s).1 × Follows is_uuid s.db (m s).1.db × Post Q (m s).0 (m s).1

  module _ {A B : Type 0} (Q : A → Run → Type 0) (R : B → Run → Type 0) (f : A → M B)
      (t : (a : A) → Triple (Q a) (f a) R) where
    bound :
        (o : Outcome A) (s : Run)
        → IsSound s
        → Post Q o s
        → IsSound (and_then f o s).1
          × Follows is_uuid s.db (and_then f o s).1.db
          × Post R (and_then f o s).0 (and_then f o s).1
    unfolding Triple
    bound (ok a) s h q = t a s h q
    bound (thrown e) s h q = (h, Follows-refl is_uuid s.db, tt)
    bound returned s h q = (h, Follows-refl is_uuid s.db, tt)

    pub bind : (P : Run → Type 0) (m : M A) → Triple P m Q → Triple P (m >>= f) R
    unfolding Triple
    bind P m u s h p =
        let (sound, first, q) = u s h p in
        let (sound', second, r) = bound (m s).0 (m s).1 sound q in
        (sound', Follows-trans is_uuid s.db (m s).1.db ((m >>= f) s).1.db first second, r)

  module _ {A : Type 0} (Q : A → Run → Type 0) (handler : JobError → M A)
      (t : (e : JobError) → Triple Any (handler e) Q) where
    recovered :
        (o : Outcome A) (s : Run)
        → IsSound s
        → Post Q o s
        → IsSound (recover handler o s).1
          × Follows is_uuid s.db (recover handler o s).1.db
          × Post Q (recover handler o s).0 (recover handler o s).1
    unfolding Triple
    recovered (ok a) s h q = (h, Follows-refl is_uuid s.db, q)
    recovered (thrown e) s h q = t e s h tt
    recovered returned s h q = (h, Follows-refl is_uuid s.db, tt)

    pub caught : (P : Run → Type 0) (m : M A) → Triple P m Q → Triple P (catch m handler) Q
    unfolding Triple
    caught P m u s h p =
        let (sound, first, q) = u s h p in
        let (sound', second, r) = recovered (m s).0 (m s).1 sound q in
        (sound', Follows-trans is_uuid s.db (m s).1.db (catch m handler s).1.db first second, r)

  pub Post-any : {A : Type 0} (o : Outcome A) (s : Run) → Post AnyOf o s
  Post-any (ok a) s = tt
  Post-any (thrown e) s = tt
  Post-any returned s = tt

  -- What follows from the condition at a sound state, and from the result.
  Post-weaker :
      {A : Type 0} (Q R : A → Run → Type 0) (o : Outcome A) (s : Run)
      → ((a : A) → Q a s → R a s)
      → Post Q o s
      → Post R o s
  Post-weaker Q R (ok a) s f q = f a q
  Post-weaker Q R (thrown e) s f q = tt
  Post-weaker Q R returned s f q = tt

  pub consequence :
      {A : Type 0} (P P' : Run → Type 0) (Q Q' : A → Run → Type 0) (m : M A)
      → ((s : Run) → P' s → P s)
      → ((a : A) (s : Run) → Q a s → Q' a s)
      → Triple P m Q
      → Triple P' m Q'
  unfolding Triple
  consequence P P' Q Q' m f g t s h p =
      let (sound, follows, q) = t s h (f s p) in
      (sound, follows, Post-weaker Q Q' (m s).0 (m s).1 (λ a. g a (m s).1) q)

  -- What the job store's operations keep of the tables holds through the work.
  module _ (D : Db → Type 0) (stable : (d e : Db) → Follows is_uuid d e → D d → D e) where
    unfoldable pub With : {A : Type 0} → M A → (A → Run → Type 0) → Type 0
    With m Q = Triple (λ s. D s.db) m Q

    pub with_any : {A : Type 0} (Q : A → Run → Type 0) (m : M A) → Triple Any m Q → With m Q
    unfolding With
    with_any Q m t = consequence Any (λ s. D s.db) Q Q m (λ s d. tt) (λ a s q. q) t

    -- A first part with `Q`, after which both hold.
    pub with_then :
        {A B : Type 0} (Q : A → Run → Type 0) (R : B → Run → Type 0) (m : M A) (f : A → M B)
        → With m Q
        → ((a : A) → Triple (λ s. Q a s × D s.db) (f a) R)
        → With (m >>= f) R
    unfolding With Triple
    with_then Q R m f t u =
        bind (λ a s. Q a s × D s.db) R f u (λ s. D s.db) m
          (λ s h d.
            let (sound, follows, q) = t s h d in
            (
              sound,
              follows,
              Post-weaker Q (λ a s. Q a s × D s.db) (m s).0 (m s).1
                  (λ a x. (x, stable s.db (m s).1.db follows d)) q,
            ))

    module _ {A : Type 0} (Q : A → Run → Type 0) (handler : JobError → M A)
        (t : (e : JobError) → With (handler e) Q) where
      with_recovered :
          (o : Outcome A) (s : Run)
          → IsSound s
          → D s.db
          → Post Q o s
          → IsSound (recover handler o s).1
            × Follows is_uuid s.db (recover handler o s).1.db
            × Post Q (recover handler o s).0 (recover handler o s).1
      unfolding With Triple
      with_recovered (ok a) s h d q = (h, Follows-refl is_uuid s.db, q)
      with_recovered (thrown e) s h d q = t e s h d
      with_recovered returned s h d q = (h, Follows-refl is_uuid s.db, tt)

      pub with_catch : (m : M A) → With m Q → With (catch m handler) Q
      unfolding With Triple
      with_catch m u s h d =
          let (sound, first, q) = u s h d in
          let (sound', second, r) =
            with_recovered (m s).0 (m s).1 sound (stable s.db (m s).1.db first d) q in
          (sound', Follows-trans is_uuid s.db (m s).1.db (catch m handler s).1.db first second, r)

  -- A change of what neither the tables nor the bytes are.
  pub aside :
      {A : Type 0} (P : Run → Type 0) (o : Outcome A) (f : Run → Run)
      → ((s : Run) → ((f s).db ≡ s.db) × ((f s).sent ≡ s.sent))
      → ((s : Run) → IsSound s → P s → All (IsTracked s.db) (f s).pending)
      → Triple P (λ s. (o, f s)) AnyOf
  unfolding Triple IsSound
  aside P o f same kept s h p =
      let (d, sent) = same s in
      (
        (
          subst (Follows is_uuid d0) (sym d) h.0,
          subst (λ x. All (λ p. IsStored p.0 p.1 (f s).db) x) (sym sent)
              (subst (λ x. All (λ p. IsStored p.0 p.1 x) s.sent) (sym d) h.1),
          subst (λ x. All (IsTracked x) (f s).pending) (sym d) (kept s h p),
        ),
        subst (Follows is_uuid s.db) (sym d) (Follows-refl is_uuid s.db),
        Post-any o (f s),
      )

  module _ (w : World) (fair : (k : ℕ) → All (IsFair is_uuid) (w.meanwhile k)) where
    pub tick-IsSound : (s : Run) → IsSound s → IsSound (tick true w s)
    unfolding tick
    tick-IsSound s h = to_IsSound (tick true w s) (
        from_IsSound (happen_all true (w.meanwhile s.step) s)
          (happen_all-IsSound (w.meanwhile s.step) s (fair s.step) h))

    pub tick-Follows : (s : Run) → Follows is_uuid s.db (tick true w s).db
    unfolding tick
    tick-Follows s = happen_all-Follows (w.meanwhile s.step) s (fair s.step)

    committed-IsSound :
        {R : Type 0} (Q : R → Run → Type 0) (o : Outage) (r : R) (d : Db) (s : Run)
        → Follows is_uuid s.db d
        → IsSound s
        → Q r (record s { db = d })
        → IsSound (commit true w o (r, d) s).1
          × Follows is_uuid s.db (commit true w o (r, d) s).1.db
          × Post Q (commit true w o (r, d) s).0 (commit true w o (r, d) s).1
    unfolding IsSound
    committed-IsSound Q committed r d s f h q = (moved s.db d s.sent s.pending f h, f, q)
    committed-IsSound Q lost_before r d s f h q = (h, Follows-refl is_uuid s.db, tt)
    committed-IsSound Q lost_after r d s f h q = (moved s.db d s.sent s.pending f h, f, tt)

    -- A transaction whose result tells something of the tables after it.
    pub tx_rule :
        {R : Type 0} (Q : R → Run → Type 0) (f : ℕ → Db → R × Db)
        → IsOps f
        → ((now : ℕ) (s : Run)
            → Follows is_uuid d0 s.db
            → Q (f now s.db).0 (record s { db = (f now s.db).1 }))
        → Triple Any (tx true w f) Q
    unfolding Triple tx
    tx_rule Q f ops post s h p =
        let s' = tick true w s in
        let sound = tick-IsSound s h in
        let r = f (w.now s.step) s'.db in
        let (sound', follows, q) =
          committed-IsSound Q (w.outage s.step) r.0 r.1 s' (ops (w.now s.step) s'.db) sound
            (post (w.now s.step) s' (from_IsSound s' sound).0) in
        (sound', Follows-trans is_uuid s.db s'.db (tx true w f s).1.db (tick-Follows s) follows, q)

    pub tx_keeps : {R : Type 0} (f : ℕ → Db → R × Db) → IsOps f → Triple Any (tx true w f) AnyOf
    tx_keeps f ops = tx_rule AnyOf f ops (λ now s h. tt)

    pub call_keeps : {A : Type 0} (f : ℕ → Answer A) → Triple Any (call true w f) AnyOf
    unfolding Triple call
    call_keeps f s h p =
        (tick-IsSound s h, tick-Follows s, Post-any (answered (f s.step)) (tick true w s))

    -- Bytes that are stored with the job may be sent.
    pub send_keeps : (id cbor : ℕ) → Triple (λ s. IsStored id cbor s.db) (send true w id cbor) AnyOf
    unfolding Triple send IsSound
    send_keeps id cbor s h stored =
        let s' = tick true w s in
        let (f, sent, pending) = from_IsSound s' (tick-IsSound s h) in
        let still = Follows-IsStored is_uuid id cbor s.db s'.db (tick-Follows s) stored in
        (
          (f, (still, sent), pending),
          tick-Follows s,
          Post-any (answered (w.submit s.step)) (send true w id cbor s).1,
        )
