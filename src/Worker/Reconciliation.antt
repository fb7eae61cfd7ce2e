-- ===== src/Worker/Reconciliation.antt =====
-- srv/blockchain/wallet-worker/wallet-worker.ts: a job whose submit was interrupted is resolved against
-- the chain.
use odatano.Base.{ℕ, ◌+◌, Bool, true, false, Option, none, some, ◌&&◌, not, ltb, if◌then◌else◌}
use odatano.Errors.{JobError, is_transient_job_error, is_not_found_on_all_backends}
use odatano.Jobs.{process_restart, tx_dropped, submit_rejected, JobRow}
use odatano.Worker.{World, M, returned, ◌>>=◌, ◌>>◌, pure, catch, call}
use odatano.Worker.Tracker.{modify}
use odatano.Worker.Execution.{finally, submit_tolerantly, adopt_submitted, fail_job, release_lease}

module _ (counts : Bool) (w : World) (confirmation_timeout_ms : ℕ) where
  -- The stored bytes are sent again; the answer is the error of the submit, if it failed.
  unfoldable pub resubmit : JobRow → ℕ → M (Option JobError)
  unfolding submit_tolerantly adopt_submitted
  resubmit job cbor =
      catch
        (do
          hash ← submit_tolerantly counts w job.id cbor
          adopt_submitted counts w job hash cbor
          pure none)
        (λ e. pure (some e))

  abbrev pub ask_backends : Bool → M Bool
  ask_backends true = pure true
  ask_backends false = do call counts w w.lookup_tx; pure true

  -- Is the transaction on the chain? An inconclusive lookup ends the work.
  unfoldable pub on_chain : M Bool
  on_chain =
      catch (do indexed ← call counts w w.indexed; ask_backends indexed)
        (λ e. if is_not_found_on_all_backends e then pure false else (λ s. (returned, s)))

  abbrev pub has_expired : JobRow → ℕ → Bool
  has_expired job now = elim job.submitted_at [
    | none ↦ false
    | some t ↦ ltb (t + confirmation_timeout_ms) now
  ]

  -- The transaction is absent and could not be submitted.
  abbrev pub give_up : JobRow → JobError → M (Unit {0})
  give_up job e s =
      (if is_transient_job_error e && not (has_expired job (w.now s.step))
          then pure tt
          else fail_job counts w job
              (if has_expired job (w.now s.step) then tx_dropped else submit_rejected))
        s

  abbrev pub after_lookup : JobRow → ℕ → ℕ → JobError → Bool → M (Unit {0})
  after_lookup job hash cbor e true = adopt_submitted counts w job hash cbor
  after_lookup job hash cbor e false = give_up job e

  abbrev pub after_submit : JobRow → ℕ → ℕ → Option JobError → M (Unit {0})
  after_submit job hash cbor none = pure tt
  after_submit job hash cbor (some e) = do present ← on_chain; after_lookup job hash cbor e present

  abbrev pub resolve : JobRow → Option ℕ → Option ℕ → M (Unit {0})
  resolve job none hash = fail_job counts w job process_restart
  resolve job (some cbor) none = fail_job counts w job process_restart
  resolve job (some cbor) (some hash) = do
    failure ← resubmit job cbor
    after_submit job hash cbor failure

  -- `reconcileSubmitting`
  unfoldable pub reconcile_submitting : JobRow → M (Unit {0})
  unfolding resubmit on_chain fail_job release_lease adopt_submitted
  reconcile_submitting job = do
    modify (λ s. record s { lost = false })
    finally (resolve job job.signed_tx_cbor job.tx_hash) (release_lease counts w job)
