-- ===== src/Jobs/Recovery.antt =====
-- srv/blockchain/wallet-worker/job-store.ts: recovery after a crash of an instance.
use odatano.Base.{ℕ, ◌+◌, Bool, some, List, [], ◌∷◌, ◌==◌, ◌&&◌, not, keep, length, if◌then◌else◌}
use odatano.Base.Table.{update_where}
use odatano.Jobs.{JobStatus, JobErrorCode, JobRow, Db, status_eq, guard}
use odatano.Jobs.Wallets.{read_wallet, wallet_lease_held}
use odatano.Jobs.Creation.{has_status, find_submitted_jobs}

-- The text 'Job was interrupted before submission (...)'.
abbrev pub interrupted : ℕ
interrupted = 0

abbrev pub is_building_of : ℕ → JobRow → Bool
is_building_of w r = r.wallet_id == w && status_eq r.status JobStatus.building

abbrev pub restarted : ℕ → ℕ → JobRow → JobRow
restarted id now r = record r {
  status = JobStatus.failed;
  error_code = some JobErrorCode.process_restart;
  error_message = some interrupted;
  finished_at = some now;
  dedup_key = id;
}

-- One UPDATE for each row that the SELECT has returned.
unfoldable pub fail_each : ℕ → List JobRow → Db → Db
fail_each now [] d = d
fail_each now (r ∷ rs) d = fail_each now rs (record d {
  jobs = update_where (guard r.id (JobStatus.building ∷ [])) (restarted r.id now) d.jobs;
})

unfoldable pub fail_orphaned_building_jobs : ℕ → ℕ → Db → ℕ × Db
fail_orphaned_building_jobs w now d =
    if wallet_lease_held (read_wallet w d) now
    then (0, d)
    else let building = keep (is_building_of w) d.jobs in
      (length building, fail_each now building d)

pub record RecoveryResult : Type 0 where
  pub failed_building : ℕ
  pub submitted_to_reconcile : List JobRow
  pub submitting_to_reconcile : List JobRow

-- `new Set(...)` of the wallets, in the order of their first rows.
abbrev pub wallets_of : List JobRow → List ℕ
wallets_of [] = []
wallets_of (r ∷ rs) = r.wallet_id ∷ keep (λ w. not (w == r.wallet_id)) (wallets_of rs)

abbrev pub fail_wallets : ℕ → List ℕ → Db → ℕ × Db
fail_wallets now [] d = (0, d)
fail_wallets now (w ∷ ws) d =
    let (failed, d') = fail_orphaned_building_jobs w now d in
    let (later, d'') = fail_wallets now ws d' in (failed + later, d'')

unfoldable pub recover_interrupted_jobs : ℕ → Db → RecoveryResult × Db
recover_interrupted_jobs now d =
    let (failed, d') =
      fail_wallets now (wallets_of (keep (has_status JobStatus.building) d.jobs)) d in
    (
      record {
        failed_building = failed;
        submitted_to_reconcile = find_submitted_jobs d';
        submitting_to_reconcile = keep (has_status JobStatus.submitting) d'.jobs;
      },
      d',
    )
