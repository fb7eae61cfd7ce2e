-- ===== src/Worker/Submitting.antt =====
-- What an instance keeps from the claim of a job to the sending of its transaction.
use odatano.Base.{
  ℕ, ◌≡◌, refl, sym, subst, Bool, true, false, Option, none, some, List, [], ◌∷◌, ◌++◌, any, arith,
  All, if_ind, ◌||◌, if◌then◌else◌,
}
use odatano.Errors.{JobError}
use odatano.Jobs.{building, submitting, JobRow, Db, as_submitting, mark_submitting, mark_submitted}
use odatano.Jobs.Wallets.{renew_wallet_lease}
use odatano.Jobs.Operations.{marks_submitting, marks_submitted, renews}
use odatano.Jobs.Keys.{HasUniqueKeys}
use odatano.Jobs.Reports.{reported_row}
use odatano.Worker.{
  Run, Built, TrackedJob, ok, thrown, returned, answered, M, continue_if, ◌>>=◌, ◌>>◌, tx,
}
use odatano.Worker.Tracker.{track, has_job_id, ignore}
use odatano.Worker.Execution.{
  invalid_input, is_already_known, is_submit_signed, checked, lose, fence, submit_tolerantly,
  tracked, adopt_submitted, adopt_if, submit_stored_transaction, given_cbor, signed_bytes,
  store_and_submit,
}
use odatano.Worker.Stored.{
  IsStored, HasBytes, Follows, Follows-apply, Follows-IsStored, Follows-HasUniqueKeys,
}
use odatano.Worker.Triples.{IsTracked, Triple, bind, consequence, tx_rule, send_keeps}
use odatano.Worker.Keeping.{
  Setting, Keeps, KeepsWith, then-Keeps, catch-Keeps, op-Keeps, call_of, pure-Keeps, weakly,
  then-KeepsWith, catch-KeepsWith, modify-Keeps, track_keeps,
}

-- A transition to `submitting` that a counting database reports has stored the bytes.
mark_submitting-IsStored :
    (is_uuid : ℕ → Bool) (id h : ℕ) (u : Option ℕ) (c : ℕ) (fee : Option ℕ) (now : ℕ) (d : Db)
    → HasUniqueKeys is_uuid d.jobs
    → (mark_submitting true id h u c fee now d).0 ≡ true
    → IsStored id c (mark_submitting true id h u c fee now d).1
unfolding mark_submitting
mark_submitting-IsStored is_uuid id h u c fee now d uniq told =
    let (r, found, there, after) =
      reported_row id (building ∷ []) submitting (as_submitting h u c fee now) d uniq.1 (λ r. refl)
        told in
    subst (HasBytes c) (sym after) (refl, refl)

some_injective : (c k : ℕ) → some c ≡ some k → c ≡ k
some_injective c k e = ground arith

module _ (z : Setting) where
  open z use {is_uuid, world, fair, start, uniq}

  pub ignored : (e : JobError) → Keeps z (ignore e)
  ignored e = pure-Keeps z (ok tt)

  -- The bytes are stored with the job.
  abbrev pub Kept : ℕ → ℕ → Db → Type 0
  Kept id c d = IsStored id c d

  pub Kept-stable : (id c : ℕ) (d e : Db) → Follows is_uuid d e → Kept id c d → Kept id c e
  Kept-stable id c d e f h = Follows-IsStored is_uuid id c d e f h

  checked-Keeps : (b : Bool) → Keeps z (checked true world b)
  checked-Keeps true = pure-Keeps z (ok true)
  checked-Keeps false =
      then-Keeps z _ _ (modify-Keeps z (lose true world) (λ s. (refl, refl, refl)))
        (λ a. pure-Keeps z (ok false))

  pub reading-Keeps :
      {A : Type 0} (f : Run → M A) → ((s : Run) → Keeps z (f s)) → Keeps z (λ s. f s s)
  unfolding Triple
  reading-Keeps f h s sound p = h s s sound p

  pub fence-Keeps : (wallet : ℕ) → Keeps z (fence true world wallet)
  unfolding fence
  fence-Keeps wallet = reading-Keeps _ (λ r.
      if_ind (Keeps z) (r.lost || world.beat_lost r.step) (λ e. pure-Keeps z (ok false))
        (λ e.
          catch-Keeps z _ _
            (then-Keeps z _ _
              (op-Keeps z (λ now d. renew_wallet_lease wallet world.instance_id now world.ttl d)
                (λ now d.
                  Follows-apply is_uuid (renews wallet world.instance_id now world.ttl) d tt))
              checked-Keeps)
            (λ e. checked-Keeps false)))

  pub submit_tolerantly_keeps :
      (id c : ℕ) → KeepsWith z (Kept id c) (submit_tolerantly true world id c)
  unfolding submit_tolerantly
  submit_tolerantly_keeps id c =
      catch-KeepsWith z (Kept id c) (Kept-stable id c) _ _
        (send_keeps is_uuid start world fair id c)
        (λ e. weakly z (Kept id c) _ (
          if_ind (Keeps z) (is_already_known e.class)
            (λ x. pure-Keeps z (answered (world.hash_of c))) (λ x. pure-Keeps z (thrown e))))

  pub track_all :
      (d : Db) (t : TrackedJob) (b : Bool) (ts : List TrackedJob)
      → IsTracked d t
      → All (IsTracked d) ts
      → All (IsTracked d) (if b then ts else ts ++ (t ∷ []))
  track_all d t true ts h k = k
  track_all d t false [] h k = (h, tt)
  track_all d t false (x ∷ ts) h k = (k.0, track_all d t false ts h k.1)

  pub adopt_submitted_keeps :
      (job : JobRow) (hash c : ℕ)
      → KeepsWith z (Kept job.id c) (adopt_submitted true world job hash c)
  unfolding adopt_submitted track
  adopt_submitted_keeps job hash c =
      then-KeepsWith z (Kept job.id c) (Kept-stable job.id c) _ _
        (weakly z (Kept job.id c) _ (
          op-Keeps z (λ now d. mark_submitted true job.id hash d)
            (λ now d. Follows-apply is_uuid (marks_submitted job.id hash) d tt)))
        (λ done.
          track_keeps z (λ s. track (tracked true world job hash c (world.now s.step)) s)
            (λ s. Kept job.id c s.db) (λ s. (refl, refl))
            (λ s stored h.
              track_all s.db (tracked true world job hash c (world.now s.step))
                (any (has_job_id job.id) s.pending) s.pending
                (λ k same. subst (λ k. IsStored job.id k s.db) (some_injective c k same) stored) h))

  adopt_if_keeps :
      (job : JobRow) (c : ℕ) (hash : Option ℕ)
      → KeepsWith z (Kept job.id c) (adopt_if true world job c hash)
  adopt_if_keeps job c none = weakly z (Kept job.id c) _ (pure-Keeps z (ok tt))
  adopt_if_keeps job c (some hash) = adopt_submitted_keeps job hash c

  submit_stored_transaction_keeps :
      (job : JobRow) (c : ℕ)
      → KeepsWith z (Kept job.id c) (submit_stored_transaction true world job c)
  unfolding submit_stored_transaction
  submit_stored_transaction_keeps job c =
      let D = Kept job.id c in
      let stable = Kept-stable job.id c in
      then-KeepsWith z D stable _ _
        (catch-KeepsWith z D stable _ _
          (then-KeepsWith z D stable _ _ (submit_tolerantly_keeps job.id c)
            (λ hash. weakly z D _ (pure-Keeps z (ok (some hash)))))
          (λ e. weakly z D _ (pure-Keeps z (ok none))))
        (adopt_if_keeps job c)

  pub continue-Keeps : {A : Type 0} (b : Bool) (m : M A) → Keeps z m → Keeps z (continue_if b >> m)
  continue-Keeps true m h = h
  continue-Keeps false m h = pure-Keeps z returned

  given_cbor-Keeps : (c : Option ℕ) → Keeps z (given_cbor true world c)
  given_cbor-Keeps none = pure-Keeps z (thrown invalid_input)
  given_cbor-Keeps (some c) = pure-Keeps z (ok (record { unsigned = none; fee = none; signed = c }))

  pub signed_bytes-Keeps : (job : JobRow) → Keeps z (signed_bytes true world job)
  unfolding signed_bytes
  signed_bytes-Keeps job =
      if_ind (Keeps z) (is_submit_signed job.kind)
        (λ e.
          then-Keeps z _ _ (pure-Keeps z (answered (world.request_cbor job.request)))
            given_cbor-Keeps)
        (λ e. then-Keeps z _ _ (pure-Keeps z (answered (world.prepare job.request))) (λ a.
          then-Keeps z _ _ (fence-Keeps job.wallet_id)
            (λ held. continue-Keeps held _ (call_of z world.build))))

  -- What a part that needs the stored bytes needs, after the code has been told that they are stored.
  told_keeps :
      (id c : ℕ) (b : Bool) (m : M (Unit {0}))
      → KeepsWith z (Kept id c) m
      → Triple is_uuid start (λ s. b ≡ true → Kept id c s.db) (continue_if b >> m) (λ a s. Unit)
  told_keeps id c true m h =
      consequence is_uuid start (λ s. Kept id c s.db) (λ s. true ≡ true → Kept id c s.db) _ _ _
        (λ s k. k refl) (λ a s q. tt) h
  told_keeps id c false m h =
      consequence is_uuid start (λ s. Unit) (λ s. false ≡ true → Kept id c s.db) _ _ _ (λ s k. tt)
        (λ a s q. tt) (pure-Keeps z returned)

  store-Keeps :
      (job : JobRow) (built : Built) (hash : ℕ)
      → Keeps z (
          tx true world
            (λ now d. mark_submitting true job.id hash built.unsigned built.signed built.fee now d)
          >>= λ stored. continue_if stored >> submit_stored_transaction true world job built.signed)
  store-Keeps job built hash =
      bind is_uuid start (λ stored s. stored ≡ true → Kept job.id built.signed s.db) (λ a s. Unit) _
        (λ stored.
          told_keeps job.id built.signed stored _
            (submit_stored_transaction_keeps job built.signed))
        (λ s. Unit) _
        (tx_rule is_uuid start world fair _ _
          (λ now d.
            Follows-apply is_uuid
              (marks_submitting job.id hash built.unsigned built.signed built.fee now) d tt)
          (λ now s follows told.
            mark_submitting-IsStored is_uuid job.id hash built.unsigned built.signed built.fee now
              s.db (Follows-HasUniqueKeys is_uuid start s.db follows uniq) told))

  pub store_and_submit-Keeps :
      (job : JobRow) (built : Built) → Keeps z (store_and_submit true world job built)
  unfolding store_and_submit
  store_and_submit-Keeps job built =
      then-Keeps z _ _ (pure-Keeps z (answered (world.hash_of built.signed))) (λ hash.
        then-Keeps z _ _ (fence-Keeps job.wallet_id)
          (λ held. continue-Keeps held _ (store-Keeps job built hash)))
