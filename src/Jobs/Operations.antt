-- ===== src/Jobs/Operations.antt =====
-- srv/blockchain/wallet-worker/job-store.ts: every statement and operation on the tables as a step,
-- for what holds whatever the workers do in whatever order.
use odatano.Base.{ℕ, Bool, Option, List, [], ◌∷◌}
use odatano.Jobs.{
  JobErrorCode, WalletRow, Db, mark_building, mark_submitting, mark_submitted, requeue_for_retry,
  mark_confirmed, mark_failed, mark_cancelled, release_dedup_claim, record_confirmation_point,
  clear_confirmation_point,
}
use odatano.Jobs.Wallets.{
  Registration, Outcome, upsert_wallet_registration, try_acquire_wallet_lease, renew_wallet_lease,
  release_wallet_lease, bump_wallet_stats,
}
use odatano.Jobs.Creation.{InsertJobArgs, insert_row}
use odatano.Jobs.Recovery.{fail_orphaned_building_jobs, recover_interrupted_jobs}

-- The operations with their arguments, in the order of the functions' own; times are last.
pub data Op : Type 0 where
  -- the arguments, the claim, the new ID and the time of the INSERT
  inserts : InsertJobArgs → Option ℕ → ℕ → ℕ → Op
  marks_building : ℕ → ℕ → Op
  marks_submitting : ℕ → ℕ → Option ℕ → ℕ → Option ℕ → ℕ → Op
  marks_submitted : ℕ → ℕ → Op
  requeues : ℕ → ℕ → Option ℕ → Op
  marks_confirmed : ℕ → ℕ → Op
  marks_failed : ℕ → JobErrorCode → ℕ → ℕ → Op
  marks_cancelled : ℕ → ℕ → Op
  frees_key : ℕ → Op
  records_point : ℕ → Option ℕ → Option ℕ → Op
  clears_point : ℕ → Op
  fails_orphans : ℕ → ℕ → Op
  recovers : ℕ → Op
  registers : Registration → Op
  -- the row that the acquiring SELECT has read, the wallet, the instance, the time and the TTL
  acquires : Option WalletRow → ℕ → ℕ → ℕ → ℕ → Op
  renews : ℕ → ℕ → ℕ → ℕ → Op
  releases : ℕ → ℕ → Op
  bumps : ℕ → Outcome → ℕ → Op

module _ (counts : Bool) where
  abbrev pub apply : Op → Db → Db
  apply (inserts a claim id now) d = (insert_row a claim id now d).1
  apply (marks_building id attempt) d = (mark_building counts id attempt d).1
  apply (marks_submitting id h u s f now) d = (mark_submitting counts id h u s f now d).1
  apply (marks_submitted id h) d = (mark_submitted counts id h d).1
  apply (requeues id m t) d = (requeue_for_retry counts id m t d).1
  apply (marks_confirmed id now) d = (mark_confirmed counts id now d).1
  apply (marks_failed id code m now) d = (mark_failed counts id code m now d).1
  apply (marks_cancelled id now) d = (mark_cancelled counts id now d).1
  apply (frees_key id) d = release_dedup_claim id d
  apply (records_point id s h) d = record_confirmation_point id s h d
  apply (clears_point id) d = clear_confirmation_point id d
  apply (fails_orphans w now) d = (fail_orphaned_building_jobs w now d).1
  apply (recovers now) d = (recover_interrupted_jobs now d).1
  apply (registers g) d = upsert_wallet_registration g d
  apply (acquires seen w who now ttl) d = (try_acquire_wallet_lease seen w who now ttl d).1
  apply (renews w who now ttl) d = (renew_wallet_lease w who now ttl d).1
  apply (releases w who) d = release_wallet_lease w who d
  apply (bumps w o now) d = bump_wallet_stats w o now d

  abbrev pub run : List Op → Db → Db
  run [] d = d
  run (o ∷ os) d = run os (apply o d)
