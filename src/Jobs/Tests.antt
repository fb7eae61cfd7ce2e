-- ===== src/Jobs/Tests.antt =====
-- Jobs of a small table, and the theorems at concrete inputs.
use odatano.Base.{
  ℕ, ◌+◌, ◌≡◌, ◌⊎◌, refl, Bool, true, false, Option, none, some, List, [], ◌∷◌, arith, ltb, All,
}
use odatano.Jobs.{
  failed, cancelled, status_in, submitting, active, simple_ada, tx_dropped, JobRow, hsm, WalletRow,
  Db, guarded_transition, mark_failed, get_job_by_id, as_failed,
}
use odatano.Jobs.Wallets.{read_wallet, new_wallet, try_acquire_wallet_lease}
use odatano.Jobs.Creation.{InsertJobArgs, job, new_job, insert_job, insert_row}
use odatano.Jobs.Recovery.{fail_orphaned_building_jobs}
use odatano.Jobs.Operations.{
  Op, inserts, marks_building, marks_submitting, marks_submitted, marks_confirmed, marks_failed,
  frees_key, fails_orphans, acquires, run,
}
use odatano.Jobs.Lifecycle.{Extends, run-Extends}
use odatano.Jobs.Transactions.{IsConsistent, run-IsConsistent}
use odatano.Jobs.Keys.{HasUniqueKeys, run-HasUniqueKeys}
use odatano.Jobs.Idempotence.{retry_is_deduplicated}
use odatano.Jobs.Reports.{may_move, guarded_transition-report, losing_call_is_told_true}
use odatano.Jobs.Leases.{IsMine, lease_protects_wallet}

-- Random IDs are from 1000 on here.
abbrev is_uuid : ℕ → Bool
is_uuid n = ltb 999 n

abbrev trim : ℕ → Option ℕ
trim n = some n

abbrev hash : ℕ → ℕ → ℕ
hash scope key = scope + key

abbrev pay : InsertJobArgs
pay = record {
  wallet_id = 1;
  kind = simple_ada;
  request = 77;
  idempotency_key = some 40;
  priority = none;
  not_before = none;
  max_attempts = none;
  created_by = some 2;
}

abbrev wallet : WalletRow
wallet =
    record (new_wallet
      (record { wallet_id = 1; signer_type = hsm; address = 3; public_key_hash = 4 })) {
        lease = record { owner = some 8; until = some 500 };
      }

abbrev empty : Db
empty = record { jobs = []; wallets = wallet ∷ [] }

abbrev one_job : Db
one_job = record empty { jobs = new_job pay (some 42) 1000 10 ∷ [] }

abbrev paid : List Op
paid =
    marks_building 1000 1
    ∷ marks_submitting 1000 5 none 6 none 20
    ∷ marks_submitted 1000 5
    ∷ marks_confirmed 1000 90
    ∷ marks_failed 1000 tx_dropped 0 95
    ∷ []

run-Extends_example : Extends one_job.jobs (run true paid one_job).jobs
run-Extends_example = run-Extends true paid one_job

run-IsConsistent_example : All IsConsistent (run true paid one_job).jobs
run-IsConsistent_example = run-IsConsistent true paid one_job (ground arith)

run-HasUniqueKeys_example :
    HasUniqueKeys is_uuid (run true (inserts pay (some 42) 1001 11 ∷ paid) one_job).jobs
run-HasUniqueKeys_example =
    run-HasUniqueKeys is_uuid true (inserts pay (some 42) 1001 11 ∷ paid) one_job
      ((refl, λ k e. ground arith), ground arith) (ground arith)

-- Another key's job fails, and its key is freed once more.
abbrev other : InsertJobArgs
other = record pay { idempotency_key = some 41 }

abbrev paid_and_freed : List Op
paid_and_freed =
    inserts other (some 43) 1001 11 ∷ marks_failed 1001 tx_dropped 0 12 ∷ frees_key 1001 ∷ paid

retry_is_deduplicated_example :
    let d1 = (insert_job trim hash (λ d. d) pay 1000 10 empty).1 in
    let d2 = run true paid_and_freed d1 in
    (r : JobRow) × (get_job_by_id 1000 d2 ≡ some r)
    × ((status_in (failed ∷ cancelled ∷ []) r.status ≡ true)
        ⊎ (insert_job trim hash (λ d. d) pay 1002 99 d2 ≡ (job 1000 r.status true, d2)))
unfolding insert_job insert_row mark_failed guarded_transition
retry_is_deduplicated_example =
    retry_is_deduplicated trim hash is_uuid true (λ d. d) (λ d. d) pay pay 1000 1002 10 99 42 empty
      paid_and_freed refl refl refl refl refl (ground arith)
      ((refl, λ k e. ground arith), ground arith) (ground arith)

abbrev waiting : Db
waiting = record empty {
  jobs =
      record (new_job pay (some 42) 1000 10) { priority = 50; not_before = some 90 }
      ∷ new_job pay none 1001 12
      ∷ new_job pay none 1002 11
      ∷ record (new_job pay none 1003 13) { status = submitting }
      ∷ record (new_job pay none 1004 9) { status = submitting }
      ∷ [];
}

guarded_transition-report_example :
    (guarded_transition false 1000 active failed (as_failed 1000 tx_dropped 0 50) one_job).0
    ≡ may_move 1000 active failed (as_failed 1000 tx_dropped 0 50) (get_job_by_id 1000 one_job)
guarded_transition-report_example =
    guarded_transition-report 1000 active failed (as_failed 1000 tx_dropped 0 50) (λ r. refl)
      (λ r. refl) refl false one_job (ground arith) refl

abbrev failed_once : Db
failed_once = record empty {
  jobs = as_failed 1000 tx_dropped 0 50 (new_job pay (some 42) 1000 10) ∷ [];
}

losing_call_is_told_true_example :
    (guarded_transition true 1000 active failed (as_failed 1000 tx_dropped 0 60) failed_once
      ≡ (false, failed_once))
    × (guarded_transition false 1000 active failed (as_failed 1000 tx_dropped 0 60) failed_once
        ≡ (true, failed_once))
losing_call_is_told_true_example =
    losing_call_is_told_true 1000 active failed (as_failed 1000 tx_dropped 0 60) (λ r. refl)
      (λ r. refl) refl failed_once (as_failed 1000 tx_dropped 0 50 (new_job pay (some 42) 1000 10))
      (ground arith) refl refl

abbrev others : List Op
others = marks_building 1000 1 ∷ acquires (some wallet) 1 9 100 50 ∷ fails_orphans 1 200 ∷ []

lease_protects_wallet_example :
    let d' = run true others one_job in
    IsMine 1 8 500 (read_wallet 1 d')
    × (try_acquire_wallet_lease (read_wallet 1 d') 1 9 300 50 d' ≡ (false, d'))
    × (fail_orphaned_building_jobs 1 300 d' ≡ (0, d'))
lease_protects_wallet_example =
    lease_protects_wallet 1 8 500 true others one_job 9 300 50 (ground arith) (ground arith)
      (ground arith) (omega arith)
