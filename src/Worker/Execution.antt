-- ===== src/Worker/Execution.antt =====
-- srv/blockchain/wallet-worker/wallet-worker.ts and lease-heartbeat.ts: one job, from its claim to the
-- hand-over to the tracker, with the handling of a failure before the transaction is stored.
use odatano.Base.{
  ℕ, ◌+◌, Bool, true, false, Option, none, some, ◌&&◌, ◌||◌, not, ltb, or_default, if◌then◌else◌,
}
use odatano.Errors.{
  JobError, ErrorClass, already_submitted, backend_error, is_transient_job_error,
  terminal_error_code, retry_backoff_ms,
}
use odatano.Jobs.{
  building, JobKind, submit_signed, JobErrorCode, retries_exhausted, JobRow, Db, status_eq,
  get_job_by_id, mark_building, mark_submitting, mark_submitted, mark_failed, requeue_for_retry,
}
use odatano.Jobs.Wallets.{job_failed, bump_wallet_stats, renew_wallet_lease, release_wallet_lease}
use odatano.Worker.{
  Run, World, Built, Answer, TrackedJob, M, thrown, ◌>>=◌, ◌>>◌, pure, catch, continue_if, answered,
  tx, call, send,
}
use odatano.Worker.Tracker.{track, modify, ignore}

-- A synchronous answer.
abbrev pub lift : {A : Type 0} → Answer A → M A
lift a s = (answered a, s)

abbrev pub raise : {A : Type 0} → JobError → M A
raise e s = (thrown e, s)

-- `try { m } finally { last }`, where `last` does not throw
abbrev pub finally : {A : Type 0} → M A → M (Unit {0}) → M A
finally m last s = let (o, s') = m s in (o, (last s').1)

-- `INVALID_INPUT`
abbrev pub invalid_input : JobError
invalid_input = record { class = backend_error; status_code = 400; code = 1 }

abbrev pub is_already_known : ErrorClass → Bool
is_already_known already_submitted = true
is_already_known _ = false

abbrev pub is_submit_signed : JobKind → Bool
is_submit_signed submit_signed = true
is_submit_signed _ = false

module _ (counts : Bool) (w : World) where
  abbrev pub lose : Run → Run
  lose s = record s { lost = true }

  abbrev pub checked : Bool → M Bool
  checked true = pure true
  checked false = do modify lose; pure false

  -- A renewal that fails counts as the loss of the lease.
  abbrev pub renewal : ℕ → M Bool
  renewal wallet =
      catch
        (do
          held ← tx counts w (λ now d. renew_wallet_lease wallet w.instance_id now w.ttl d)
          checked held)
        (λ e. checked false)

  -- `LeaseHeartbeat.fence`
  unfoldable pub fence : ℕ → M Bool
  fence wallet s = (if s.lost || w.beat_lost s.step then pure false else renewal wallet) s

  -- `submitWithAlreadyKnownTolerance`
  unfoldable pub submit_tolerantly : ℕ → ℕ → M ℕ
  submit_tolerantly id cbor =
      catch (send counts w id cbor)
        (λ e. if is_already_known e.class then lift (w.hash_of cbor) else raise e)

  abbrev pub tracked : JobRow → ℕ → ℕ → ℕ → TrackedJob
  tracked job hash cbor now = record {
    job_id = job.id;
    wallet_id = job.wallet_id;
    kind = job.kind;
    tx_hash = hash;
    signed_tx_cbor = some cbor;
    submitted_at = or_default job.submitted_at now;
    found_slot = none;
    found_height = none;
    seen_round = none;
  }

  -- `adoptSubmitted`: the tracker takes the job over whether or not the transition was made.
  unfoldable pub adopt_submitted : JobRow → ℕ → ℕ → M (Unit {0})
  adopt_submitted job hash cbor = do
    tx counts w (λ now d. mark_submitted counts job.id hash d)
    modify (λ s. track (tracked job hash cbor (w.now s.step)) s)

  abbrev pub adopt_if : JobRow → ℕ → Option ℕ → M (Unit {0})
  adopt_if job cbor none = pure tt
  adopt_if job cbor (some hash) = adopt_submitted job hash cbor

  -- `submitStoredTransaction`: a failed submit leaves the job to the reconciliation.
  unfoldable pub submit_stored_transaction : JobRow → ℕ → M (Unit {0})
  unfolding submit_tolerantly adopt_submitted
  submit_stored_transaction job cbor = do
    hash ← catch (do hash ← submit_tolerantly job.id cbor; pure (some hash)) (λ e. pure none)
    adopt_if job cbor hash

  abbrev pub given_cbor : Option ℕ → M Built
  given_cbor none = raise invalid_input
  given_cbor (some cbor) = pure (record { unsigned = none; fee = none; signed = cbor })

  -- The signed bytes of the request, or a build under a fenced lease.
  unfoldable pub signed_bytes : JobRow → M Built
  unfolding fence
  signed_bytes job =
      if is_submit_signed job.kind
      then (do cbor ← lift (w.request_cbor job.request); given_cbor cbor)
      else (do
        lift (w.prepare job.request)
        held ← fence job.wallet_id
        continue_if held
        call counts w w.build)

  unfoldable pub store_and_submit : JobRow → Built → M (Unit {0})
  unfolding fence submit_stored_transaction
  store_and_submit job built = do
    hash ← lift (w.hash_of built.signed)
    held ← fence job.wallet_id
    continue_if held
    stored ←
        tx counts w
          (λ now d. mark_submitting counts job.id hash built.unsigned built.signed built.fee now d)
    continue_if stored
    submit_stored_transaction job built.signed

  -- The terminal failure of a job with its statistics, in one transaction.
  abbrev pub fail_counted : JobRow → JobErrorCode → ℕ → Db → Bool × Db
  fail_counted job code now d =
      let (done, d') = mark_failed counts job.id code 0 now d in
      (done, if done then bump_wallet_stats job.wallet_id job_failed now d' else d')

  unfoldable pub fail_job : JobRow → JobErrorCode → M (Unit {0})
  fail_job job code = catch (do tx counts w (fail_counted job code); pure tt) ignore

  abbrev pub is_past_building : Option JobRow → Bool
  is_past_building none = false
  is_past_building (some r) = not (status_eq r.status building)

  abbrev pub retry_or_fail : JobRow → ℕ → JobError → M (Unit {0})
  retry_or_fail job attempt e =
      if is_transient_job_error e && ltb attempt job.max_attempts
      then catch
          (do
            tx counts w (λ now d.
                requeue_for_retry counts job.id 0 (some (now + retry_backoff_ms attempt)) d)
            pure tt)
          ignore
      else fail_job job
          (if is_transient_job_error e then retries_exhausted else terminal_error_code e)

  -- `handleExecutionFailure`
  unfoldable pub handle_execution_failure : JobRow → ℕ → JobError → M (Unit {0})
  unfolding fail_job
  handle_execution_failure job attempt e = do
    current ← catch (tx counts w (λ now d. (get_job_by_id job.id d, d))) (λ e. pure none)
    if is_past_building current then pure tt else retry_or_fail job attempt e

  unfoldable pub release_lease : JobRow → M (Unit {0})
  release_lease job =
      catch (tx counts w (λ now d. (tt, release_wallet_lease job.wallet_id w.instance_id d))) ignore

  -- `executeJob`
  unfoldable pub execute_job : JobRow → M (Unit {0})
  unfolding signed_bytes store_and_submit handle_execution_failure release_lease
  execute_job job = do
    claimed ← tx counts w (λ now d. mark_building counts job.id (job.attempt + 1) d)
    continue_if claimed
    modify (λ s. record s { lost = false })
    finally
        (catch (do built ← signed_bytes job; store_and_submit job built)
          (handle_execution_failure job (job.attempt + 1)))
        (release_lease job)
