-- ===== src/Jobs.antt =====
-- srv/blockchain/wallet-worker/job-store.ts: the tables of wallet jobs and worker wallets, and the
-- guarded transitions of a job. Texts that the code only stores or compares (IDs, hashes, CBOR,
-- messages) are numbers, timestamps are milliseconds; rows are typed, so the coercions of a row that
-- comes back from the database (`toJobRow`, `toWalletRow`) are not modelled. A statement of the
-- database is one step on the tables. `new Date()` is an argument.
pub mod Wallets
pub mod Creation
pub mod Recovery
pub mod Operations
pub mod Lifecycle
pub mod Induction
pub mod Keys
pub mod Transactions
pub mod Idempotence
pub mod Reports
pub mod Leases
pub mod Queue
mod Tests
use odatano.Base.{
  ℕ, ◌+◌, ◌<◌, Bool, true, false, Option, none, some, List, [], ◌∷◌, ltb, leb, ◌==◌, ◌&&◌, ◌||◌,
  not, any, keep, is_some, if◌then◌else◌,
}
use odatano.Base.Table.{select_one, update_where, affected}
use odatano.Lease.{Lease}

pub data JobStatus : Type 0 where
  pending building submitting submitted confirmed failed cancelled : JobStatus

pub data JobKind : Type 0 where
  simple_ada metadata multi_asset mint plutus_spend submit_signed : JobKind

pub data JobErrorCode : Type 0 where
  process_restart tx_dropped retries_exhausted job_cancelled submit_rejected : JobErrorCode
  -- a code of `ERROR_CODES`, or `EXECUTION_FAILED`
  other_code : ℕ → JobErrorCode

pub record JobRow : Type 0 where
  pub id : ℕ
  pub wallet_id : ℕ
  pub kind : JobKind
  pub status : JobStatus
  pub idempotency_key : Option ℕ
  pub dedup_key : ℕ
  pub request : ℕ
  pub priority : ℕ
  pub not_before : Option ℕ
  pub attempt : ℕ
  pub max_attempts : ℕ
  pub tx_hash : Option ℕ
  pub unsigned_tx_cbor : Option ℕ
  pub signed_tx_cbor : Option ℕ
  pub fee : Option ℕ
  pub submitted_at : Option ℕ
  pub confirmed_at : Option ℕ
  pub confirmed_slot : Option ℕ
  pub confirmed_height : Option ℕ
  pub error_code : Option JobErrorCode
  pub error_message : Option ℕ
  pub created_at : ℕ
  pub created_by : Option ℕ
  pub finished_at : Option ℕ

pub data SignerType : Type 0 where
  hsm software : SignerType

pub record WalletRow : Type 0 where
  pub wallet_id : ℕ
  pub signer_type : SignerType
  pub address : ℕ
  pub public_key_hash : ℕ
  pub enabled : Bool
  pub lease : Lease
  pub last_job_at : Option ℕ
  pub jobs_confirmed : ℕ
  pub jobs_failed : ℕ

pub record Db : Type 0 where
  pub jobs : List JobRow
  pub wallets : List WalletRow

abbrev pub status_eq : JobStatus → JobStatus → Bool
status_eq pending pending = true
status_eq building building = true
status_eq submitting submitting = true
status_eq submitted submitted = true
status_eq confirmed confirmed = true
status_eq failed failed = true
status_eq cancelled cancelled = true
status_eq _ _ = false

abbrev pub kind_eq : JobKind → JobKind → Bool
kind_eq simple_ada simple_ada = true
kind_eq metadata metadata = true
kind_eq multi_asset multi_asset = true
kind_eq mint mint = true
kind_eq plutus_spend plutus_spend = true
kind_eq submit_signed submit_signed = true
kind_eq _ _ = false

-- `status: { in: statuses }`
abbrev pub status_in : List JobStatus → JobStatus → Bool
status_in [] s = false
status_in (t ∷ ts) s = status_eq t s || status_in ts s

abbrev pub has_id : ℕ → JobRow → Bool
has_id id r = r.id == id

abbrev pub guard : ℕ → List JobStatus → JobRow → Bool
guard id from r = r.id == id && status_in from r.status

-- `getJobById`
abbrev pub get_job_by_id : ℕ → Db → Option JobRow
get_job_by_id id d = select_one (has_id id) d.jobs

-- A row with the target status that was not to be changed from that status.
abbrev pub shows_target : List JobStatus → JobStatus → Option JobRow → Bool
shows_target from target none = false
shows_target from target (some r) = status_eq r.status target && not (status_in from target)

-- `guardedTransition`. Some database adapters give the number of affected rows (`counts`), others do
-- not; then the row is read back. `target` is the status that `set` writes.
unfoldable pub guarded_transition :
    Bool → ℕ → List JobStatus → JobStatus → (JobRow → JobRow) → Db → Bool × Db
guarded_transition counts id from target set d =
    let d' : Db = record d { jobs = update_where (guard id from) set d.jobs } in
    if counts
    then (ltb 0 (affected (guard id from) d.jobs), d')
    else (shows_target from target (get_job_by_id id d'), d')

-- The columns that each transition writes.
abbrev pub as_building : ℕ → JobRow → JobRow
as_building attempt r = record r { status = building; attempt = attempt }

-- The transaction hash, the unsigned and signed CBOR, and the fee.
abbrev pub as_submitting : ℕ → Option ℕ → ℕ → Option ℕ → ℕ → JobRow → JobRow
as_submitting tx_hash unsigned signed fee now r = record r {
  status = submitting;
  tx_hash = some tx_hash;
  unsigned_tx_cbor = unsigned;
  signed_tx_cbor = some signed;
  fee = fee;
  submitted_at = some now;
}

abbrev pub as_submitted : ℕ → JobRow → JobRow
as_submitted tx_hash r = record r { status = submitted; tx_hash = some tx_hash }

abbrev pub or_kept : Option ℕ → Option ℕ → Option ℕ
or_kept none old = old
or_kept (some t) old = some t

abbrev pub as_requeued : ℕ → Option ℕ → JobRow → JobRow
as_requeued message not_before r = record r {
  status = pending;
  error_message = some message;
  not_before = or_kept not_before r.not_before;
}

abbrev pub as_confirmed : ℕ → JobRow → JobRow
as_confirmed now r = record r {
  status = confirmed;
  confirmed_at = some now;
  finished_at = some now;
  error_code = none;
  error_message = none;
}

-- Frees the idempotency key too, as the next does.
abbrev pub as_failed : ℕ → JobErrorCode → ℕ → ℕ → JobRow → JobRow
as_failed id code message now r = record r {
  status = failed;
  error_code = some code;
  error_message = some message;
  finished_at = some now;
  dedup_key = id;
}

abbrev pub as_cancelled : ℕ → ℕ → JobRow → JobRow
as_cancelled id now r = record r {
  status = cancelled;
  error_code = some job_cancelled;
  finished_at = some now;
  dedup_key = id;
}

abbrev pub as_freed : ℕ → JobRow → JobRow
as_freed id r = record r { dedup_key = id }

abbrev pub as_seen_at : Option ℕ → Option ℕ → JobRow → JobRow
as_seen_at slot height r = record r { confirmed_slot = slot; confirmed_height = height }

-- The statuses that a job can fail from.
abbrev pub active : List JobStatus
active = pending ∷ building ∷ submitting ∷ submitted ∷ []

module _ (counts : Bool) where
  unfoldable pub mark_building : ℕ → ℕ → Db → Bool × Db
  unfolding guarded_transition
  mark_building id attempt =
      guarded_transition counts id (pending ∷ []) building (as_building attempt)

  unfoldable pub mark_submitting : ℕ → ℕ → Option ℕ → ℕ → Option ℕ → ℕ → Db → Bool × Db
  unfolding guarded_transition
  mark_submitting id tx_hash unsigned signed fee now =
      guarded_transition counts id (building ∷ []) submitting
        (as_submitting tx_hash unsigned signed fee now)

  unfoldable pub mark_submitted : ℕ → ℕ → Db → Bool × Db
  unfolding guarded_transition
  mark_submitted id tx_hash =
      guarded_transition counts id (submitting ∷ []) submitted (as_submitted tx_hash)

  unfoldable pub requeue_for_retry : ℕ → ℕ → Option ℕ → Db → Bool × Db
  unfolding guarded_transition
  requeue_for_retry id message not_before =
      guarded_transition counts id (building ∷ []) pending (as_requeued message not_before)

  unfoldable pub mark_confirmed : ℕ → ℕ → Db → Bool × Db
  unfolding guarded_transition
  mark_confirmed id now = guarded_transition counts id (submitted ∷ []) confirmed (as_confirmed now)

  unfoldable pub mark_failed : ℕ → JobErrorCode → ℕ → ℕ → Db → Bool × Db
  unfolding guarded_transition
  mark_failed id code message now =
      guarded_transition counts id active failed (as_failed id code message now)

  unfoldable pub mark_cancelled : ℕ → ℕ → Db → Bool × Db
  unfolding guarded_transition
  mark_cancelled id now =
      guarded_transition counts id (pending ∷ []) cancelled (as_cancelled id now)

-- `releaseDedupClaim`
unfoldable pub release_dedup_claim : ℕ → Db → Db
release_dedup_claim id d = record d { jobs = update_where (has_id id) (as_freed id) d.jobs }

unfoldable pub record_confirmation_point : ℕ → Option ℕ → Option ℕ → Db → Db
record_confirmation_point id slot height d = record d {
  jobs = update_where (guard id (submitted ∷ [])) (as_seen_at slot height) d.jobs;
}

unfoldable pub clear_confirmation_point : ℕ → Db → Db
clear_confirmation_point id d = record d {
  jobs = update_where (guard id (submitted ∷ [])) (as_seen_at none none) d.jobs;
}
