-- ===== src/Worker/Working.antt =====
-- What the execution and the reconciliation of a job keep.
use odatano.Base.{ℕ, ◌+◌, ◌≡◌, refl, Bool, true, false, Option, none, some, if_ind, ltb, not, ◌&&◌}
use odatano.Errors.{
  JobError, is_transient_job_error, is_not_found_on_all_backends, retry_backoff_ms,
}
use odatano.Jobs.{JobErrorCode, process_restart, JobRow, Db, get_job_by_id}
use odatano.Jobs.Operations.{marks_building, requeues, releases}
use odatano.Worker.{ok, returned, M}
use odatano.Worker.Tracker.{modify}
use odatano.Worker.Execution.{
  finally, fail_job, is_past_building, retry_or_fail, handle_execution_failure, release_lease,
  execute_job,
}
use odatano.Worker.Reconciliation.{
  resubmit, ask_backends, on_chain, has_expired, give_up, after_lookup, after_submit, resolve,
  reconcile_submitting,
}
use odatano.Worker.Stored.{
  IsStored, NamesStored, NamesStored-stable, Follows-refl, Follows-trans, Follows-apply,
}
use odatano.Worker.Triples.{Triple, consequence, Post-any}
use odatano.Worker.Keeping.{
  Setting, Keeps, KeepsWith, fail_counted-Ops, then-Keeps, catch-Keeps, op-Keeps, call_of,
  pure-Keeps, weakly, then-KeepsWith, catch-KeepsWith, modify-Keeps,
}
use odatano.Worker.Submitting.{
  Kept, Kept-stable, ignored, reading-Keeps, submit_tolerantly_keeps, adopt_submitted_keeps,
  continue-Keeps, signed_bytes-Keeps, store_and_submit-Keeps,
}

module _ (z : Setting) where
  open z use {is_uuid, world, options, fair, start}

  fail_job-Keeps : (job : JobRow) (code : JobErrorCode) → Keeps z (fail_job true world job code)
  unfolding fail_job
  fail_job-Keeps job code =
      catch-Keeps z _ _
        (then-Keeps z _ _ (op-Keeps z _ (fail_counted-Ops z job code))
          (λ done. pure-Keeps z (ok tt)))
        (ignored z)

  retry_or_fail-Keeps :
      (job : JobRow) (attempt : ℕ) (e : JobError) → Keeps z (retry_or_fail true world job attempt e)
  retry_or_fail-Keeps job attempt e =
      if_ind (Keeps z) (is_transient_job_error e && ltb attempt job.max_attempts)
        (λ x.
          catch-Keeps z _ _
            (then-Keeps z _ _
              (op-Keeps z _ (λ now d.
                Follows-apply is_uuid (requeues job.id 0 (some (now + retry_backoff_ms attempt))) d
                  tt))
              (λ done. pure-Keeps z (ok tt)))
            (ignored z))
        (λ x. fail_job-Keeps job _)

  handle_execution_failure-Keeps :
      (job : JobRow) (attempt : ℕ) (e : JobError)
      → Keeps z (handle_execution_failure true world job attempt e)
  unfolding handle_execution_failure
  handle_execution_failure-Keeps job attempt e =
      then-Keeps z _ _
        (catch-Keeps z _ _
          (op-Keeps z (λ now d. (get_job_by_id job.id d, d)) (λ now d. Follows-refl is_uuid d))
          (λ e. pure-Keeps z (ok none)))
        (λ current.
          if_ind (Keeps z) (is_past_building true world current) (λ x. pure-Keeps z (ok tt))
            (λ x. retry_or_fail-Keeps job attempt e))

  release_lease-Keeps : (job : JobRow) → Keeps z (release_lease true world job)
  unfolding release_lease
  release_lease-Keeps job =
      catch-Keeps z _ _
        (op-Keeps z _
          (λ now d. Follows-apply is_uuid (releases job.wallet_id world.instance_id) d tt))
        (ignored z)

  -- The last part runs however the first one has ended.
  finally-Keeps :
      {A : Type 0} (D : Db → Type 0) (m : M A) (last : M (Unit {0}))
      → KeepsWith z D m
      → Keeps z last
      → KeepsWith z D (finally m last)
  unfolding Triple
  finally-Keeps D m last t u s h p =
      let (sound, first, q) = t s h p in
      let (sound', second, r) = u (m s).1 sound tt in
      (
        sound',
        Follows-trans is_uuid s.db (m s).1.db (finally m last s).1.db first second,
        Post-any is_uuid start (m s).0 (finally m last s).1,
      )

  lost-Keeps : Keeps z (modify (λ s. record s { lost = false }))
  lost-Keeps = modify-Keeps z _ (λ s. (refl, refl, refl))

  pub execute_job-Keeps : (job : JobRow) → Keeps z (execute_job true world job)
  unfolding execute_job
  execute_job-Keeps job =
      then-Keeps z _ _
        (op-Keeps z _
          (λ now d. Follows-apply is_uuid (marks_building job.id (job.attempt + 1)) d tt))
        (λ claimed. continue-Keeps z claimed _ (
          then-Keeps z _ _ lost-Keeps (λ a.
            finally-Keeps (λ d. Unit) _ _
              (catch-Keeps z _ _
                (then-Keeps z _ _ (signed_bytes-Keeps z job) (store_and_submit-Keeps z job))
                (handle_execution_failure-Keeps job (job.attempt + 1)))
              (release_lease-Keeps job))))

  resubmit_keeps :
      (job : JobRow) (c : ℕ)
      → KeepsWith z (Kept z job.id c) (resubmit true world options.confirmation_timeout_ms job c)
  unfolding resubmit
  resubmit_keeps job c =
      let D = Kept z job.id c in
      let stable = Kept-stable z job.id c in
      catch-KeepsWith z D stable _ _
        (then-KeepsWith z D stable _ _ (submit_tolerantly_keeps z job.id c) (λ hash.
          then-KeepsWith z D stable _ _ (adopt_submitted_keeps z job hash c)
            (λ a. weakly z D _ (pure-Keeps z (ok none)))))
        (λ e. weakly z D _ (pure-Keeps z (ok (some e))))

  ask_backends-Keeps :
      (b : Bool) → Keeps z (ask_backends true world options.confirmation_timeout_ms b)
  ask_backends-Keeps true = pure-Keeps z (ok true)
  ask_backends-Keeps false =
      then-Keeps z _ _ (call_of z world.lookup_tx) (λ found. pure-Keeps z (ok true))

  on_chain-Keeps : Keeps z (on_chain true world options.confirmation_timeout_ms)
  unfolding on_chain
  on_chain-Keeps =
      catch-Keeps z _ _ (then-Keeps z _ _ (call_of z world.indexed) ask_backends-Keeps) (λ e.
        if_ind (Keeps z) (is_not_found_on_all_backends e) (λ x. pure-Keeps z (ok false))
          (λ x. pure-Keeps z returned))

  give_up-Keeps :
      (job : JobRow) (e : JobError)
      → Keeps z (give_up true world options.confirmation_timeout_ms job e)
  give_up-Keeps job e = reading-Keeps z _ (λ r.
      if_ind (Keeps z)
        (is_transient_job_error e
          && not (has_expired true world options.confirmation_timeout_ms job (world.now r.step)))
        (λ x. pure-Keeps z (ok tt)) (λ x. fail_job-Keeps job _))

  after_lookup_keeps :
      (job : JobRow) (hash c : ℕ) (e : JobError) (b : Bool)
      → KeepsWith z
          (Kept z job.id c)
          (after_lookup true world options.confirmation_timeout_ms job hash c e b)
  after_lookup_keeps job hash c e true = adopt_submitted_keeps z job hash c
  after_lookup_keeps job hash c e false = weakly z (Kept z job.id c) _ (give_up-Keeps job e)

  after_submit_keeps :
      (job : JobRow) (hash c : ℕ) (o : Option JobError)
      → KeepsWith z
          (Kept z job.id c)
          (after_submit true world options.confirmation_timeout_ms job hash c o)
  after_submit_keeps job hash c none = weakly z (Kept z job.id c) _ (pure-Keeps z (ok tt))
  after_submit_keeps job hash c (some e) =
      then-KeepsWith z (Kept z job.id c) (Kept-stable z job.id c) _ _
        (weakly z (Kept z job.id c) _ on_chain-Keeps) (after_lookup_keeps job hash c e)

  abbrev BytesStored : JobRow → Option ℕ → Db → Type 0
  BytesStored job o d = (c : ℕ) → o ≡ some c → IsStored job.id c d

  resolve_keeps :
      (job : JobRow) (bytes hash : Option ℕ)
      → KeepsWith z
          (BytesStored job bytes)
          (resolve true world options.confirmation_timeout_ms job bytes hash)
  resolve_keeps job none hash =
      weakly z (BytesStored job none) _ (fail_job-Keeps job process_restart)
  resolve_keeps job (some c) none =
      weakly z (BytesStored job (some c)) _ (fail_job-Keeps job process_restart)
  resolve_keeps job (some c) (some hash) =
      consequence is_uuid start (λ s. Kept z job.id c s.db) (λ s. BytesStored job (some c) s.db) _ _
        _ (λ s k. k c refl) (λ a s q. tt)
        (then-KeepsWith z (Kept z job.id c) (Kept-stable z job.id c) _ _ (resubmit_keeps job c)
          (after_submit_keeps job hash c))

  pub reconcile_submitting_keeps :
      (job : JobRow)
      → KeepsWith z
          (NamesStored job)
          (reconcile_submitting true world options.confirmation_timeout_ms job)
  unfolding reconcile_submitting
  reconcile_submitting_keeps job =
      then-KeepsWith z (NamesStored job) (NamesStored-stable is_uuid job) _ _
        (weakly z (NamesStored job) _ lost-Keeps)
        (λ a.
          finally-Keeps (NamesStored job) _ _ (resolve_keeps job job.signed_tx_cbor job.tx_hash)
            (release_lease-Keeps job))
