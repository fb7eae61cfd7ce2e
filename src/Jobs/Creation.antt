-- ===== src/Jobs/Creation.antt =====
-- srv/blockchain/wallet-worker/job-store.ts: the creation of a job under an idempotency key, and the
-- reads of jobs. `trim` and `createHash` are parameters, so is the random ID of a new job.
use odatano.Base.{
  ℕ, Bool, true, false, Option, none, some, List, [], ◌∷◌, ◌++◌, leb, ltb, ◌==◌, ◌&&◌, ◌||◌, any,
  keep, is_some, or_default, if◌then◌else◌,
}
use odatano.Base.Table.{select_one, affected}
use odatano.Jobs.{
  JobStatus, JobKind, JobRow, Db, status_eq, status_in, kind_eq, release_dedup_claim,
}
use odatano.Jobs.Wallets.{read_wallet, wallet_lease_held}

pub record InsertJobArgs : Type 0 where
  pub wallet_id : ℕ
  pub kind : JobKind
  pub request : ℕ
  pub idempotency_key : Option ℕ
  pub priority : Option ℕ
  pub not_before : Option ℕ
  pub max_attempts : Option ℕ
  pub created_by : Option ℕ

pub data InsertResult : Type 0 where
  -- the job's ID and status, and whether it was there before
  job : ℕ → JobStatus → Bool → InsertResult
  -- the database's error is passed on
  thrown : InsertResult

-- `dedupKeyFor`: `trim` gives the submitting user's name without blanks, or nothing when it is blank,
-- `hash` the prefixed hash of the scope and the key.
abbrev pub dedup_key_for : (ℕ → Option ℕ) → (ℕ → ℕ → ℕ) → Option ℕ → ℕ → ℕ
dedup_key_for trim hash none key = key
dedup_key_for trim hash (some owner) key = elim (trim owner) [
  | none ↦ key
  | some scope ↦ hash scope key
]

-- An empty key, which is the number 0, makes no claim.
abbrev pub claim_for : (ℕ → Option ℕ) → (ℕ → ℕ → ℕ) → InsertJobArgs → Option ℕ
claim_for trim hash a = elim a.idempotency_key [
  | none ↦ none
  | some key ↦ if key == 0 then none else some (dedup_key_for trim hash a.created_by key)
]

-- The columns of the UNIQUE constraint.
abbrev pub has_claim : ℕ → JobKind → ℕ → JobRow → Bool
has_claim w k key r = r.wallet_id == w && kind_eq r.kind k && r.dedup_key == key

-- `readDedupHolder`
abbrev pub read_dedup_holder : ℕ → JobKind → ℕ → Db → Option JobRow
read_dedup_holder w k key d = select_one (has_claim w k key) d.jobs

abbrev pub new_job : InsertJobArgs → Option ℕ → ℕ → ℕ → JobRow
new_job a claim id now = record {
  id = id;
  wallet_id = a.wallet_id;
  kind = a.kind;
  status = JobStatus.pending;
  idempotency_key = a.idempotency_key;
  dedup_key = or_default claim id;
  request = a.request;
  priority = or_default a.priority 100;
  not_before = a.not_before;
  attempt = 0;
  max_attempts = or_default a.max_attempts 3;
  tx_hash = none;
  unsigned_tx_cbor = none;
  signed_tx_cbor = none;
  fee = none;
  submitted_at = none;
  confirmed_at = none;
  confirmed_slot = none;
  confirmed_height = none;
  error_code = none;
  error_message = none;
  created_at = now;
  created_by = a.created_by;
  finished_at = none;
}

-- The primary key or the UNIQUE constraint forbids the new row next to this one.
abbrev pub clashes : JobRow → JobRow → Bool
clashes new r = r.id == new.id || has_claim new.wallet_id new.kind new.dedup_key r

-- The answer after a failed INSERT: only the claim's own holder is returned.
abbrev pub winner_of : Option JobRow → InsertResult
winner_of none = thrown
winner_of (some w) = job w.id w.status true

abbrev pub after_violation : InsertJobArgs → Option ℕ → Db → InsertResult
after_violation a none d = thrown
after_violation a (some c) d = winner_of (read_dedup_holder a.wallet_id a.kind c d)

-- The INSERT, its `catch` and the result.
unfoldable pub insert_row : InsertJobArgs → Option ℕ → ℕ → ℕ → Db → InsertResult × Db
insert_row a claim id now d =
    let new = new_job a claim id now in
    if any (clashes new) d.jobs
    then (after_violation a claim d, d)
    else (job id JobStatus.pending false, record d { jobs = d.jobs ++ (new ∷ []) })

-- The answer of the fast path, when the claim's holder is not at an end without success.
abbrev pub fast_answer : Option JobRow → Option InsertResult
fast_answer none = none
fast_answer (some h) =
    if status_in (JobStatus.failed ∷ JobStatus.cancelled ∷ []) h.status
    then none
    else some (job h.id h.status true)

abbrev pub release_holder : Option JobRow → Db → Db
release_holder none d = d
release_holder (some h) d = release_dedup_claim h.id d

abbrev pub holder_of : InsertJobArgs → Option ℕ → Db → Option JobRow
holder_of a none d = none
holder_of a (some c) d = read_dedup_holder a.wallet_id a.kind c d

-- An error rolls the caller's transaction back to the tables `d`.
abbrev pub rolled_back : Db → InsertResult × Db → InsertResult × Db
rolled_back d (thrown, d') = (thrown, d)
rolled_back d (job id status old, d') = (job id status old, d')

-- `insertJob` and the end of its transaction; `meanwhile` is what other transactions commit between the
-- read and the INSERT.
module _ (trim : ℕ → Option ℕ) (hash : ℕ → ℕ → ℕ) where
  unfoldable pub insert_job : (Db → Db) → InsertJobArgs → ℕ → ℕ → Db → InsertResult × Db
  insert_job meanwhile a id now d =
      let claim = claim_for trim hash a in
      let holder = holder_of a claim d in
      elim (fast_answer holder) [
        | some answer ↦ (answer, d)
        | none ↦
            rolled_back (meanwhile d)
              (insert_row a claim id now (meanwhile (release_holder holder d)))
      ]

-- `ORDER BY priority, createdAt`, as an insertion sort that keeps the order of equal rows.
abbrev pub sooner : JobRow → JobRow → Bool
sooner r s = ltb r.priority s.priority || r.priority == s.priority && ltb r.created_at s.created_at

abbrev pub place : (JobRow → JobRow → Bool) → JobRow → List JobRow → List JobRow
place before r [] = r ∷ []
place before r (s ∷ rs) = if before s r then s ∷ place before r rs else r ∷ s ∷ rs

abbrev pub order_by : (JobRow → JobRow → Bool) → List JobRow → List JobRow
order_by before [] = []
order_by before (r ∷ rs) = place before r (order_by before rs)

abbrev pub has_status : JobStatus → JobRow → Bool
has_status s r = status_eq r.status s

abbrev pub is_due : ℕ → JobRow → Bool
is_due now r = elim r.not_before [ none ↦ true | some t ↦ leb t now ]

-- `findDueJobs`
unfoldable pub find_due_jobs : ℕ → Db → List JobRow
find_due_jobs now d =
    keep (is_due now) (order_by sooner (keep (has_status JobStatus.pending) d.jobs))

-- `countPendingJobs`
abbrev pub count_pending_jobs : Db → ℕ
count_pending_jobs d = affected (has_status JobStatus.pending) d.jobs

-- `findSubmittedJobs`
abbrev pub find_submitted_jobs : Db → List JobRow
find_submitted_jobs d = keep (has_status JobStatus.submitted) d.jobs

-- `walletHasActiveJob`
abbrev pub wallet_has_active_job : ℕ → Db → Bool
wallet_has_active_job w d = is_some (
    select_one
      (λ r.
        r.wallet_id == w
        && status_in (JobStatus.building ∷ JobStatus.submitting ∷ JobStatus.submitted ∷ [])
            r.status)
      d.jobs)

abbrev pub older : JobRow → JobRow → Bool
older r s = ltb r.created_at s.created_at

abbrev pub is_submitting_of : ℕ → JobRow → Bool
is_submitting_of w r = r.wallet_id == w && status_eq r.status JobStatus.submitting

abbrev pub first_of : List JobRow → Option JobRow
first_of [] = none
first_of (r ∷ rs) = some r

-- `findOrphanedSubmittingJob`
unfoldable pub find_orphaned_submitting_job : ℕ → ℕ → Db → Option JobRow
find_orphaned_submitting_job w now d =
    if wallet_lease_held (read_wallet w d) now
    then none
    else first_of (order_by older (keep (is_submitting_of w) d.jobs))
