-- ===== src/Jobs/Transactions.antt =====
-- What the columns of a job say together: its transaction, and the freeing of its key at its end.
use odatano.Base.{ℕ, ◌≡◌, Bool, true, Option, List, [], ◌∷◌, ◌++◌, arith, is_some, All}
use odatano.Base.Table.{All-update_where}
use odatano.Jobs.{
  JobStatus, submitting, submitted, confirmed, failed, cancelled, JobRow, Db, status_in,
}
use odatano.Jobs.Creation.{InsertJobArgs, new_job}
use odatano.Jobs.Operations.{Op, run}
use odatano.Jobs.Induction.{
  Change, builds, submits, accepted, requeued, confirms, fails, cancels, frees, sees, restarts,
  selects, sets, run_ind, all-IsOk,
}

-- The job's bytes are with the network, or may be.
abbrev pub is_sent : JobStatus → Bool
is_sent s = status_in (submitting ∷ submitted ∷ confirmed ∷ []) s

abbrev pub has_ended : JobStatus → Bool
has_ended s = status_in (confirmed ∷ failed ∷ cancelled ∷ []) s

-- The signed transaction, its hash and the time of its sending are stored in a job that may have been
-- sent, an ended job has its time of ending, and a failed or cancelled job holds no idempotency key.
abbrev pub IsConsistent : JobRow → Type 0
IsConsistent r =
    (is_sent r.status ≡ true
      → (is_some r.signed_tx_cbor ≡ true)
        × (is_some r.tx_hash ≡ true)
        × (is_some r.submitted_at ≡ true))
    × (has_ended r.status ≡ true → is_some r.finished_at ≡ true)
    × (status_in (failed ∷ cancelled ∷ []) r.status ≡ true → r.dedup_key ≡ r.id)

change-IsConsistent :
    (c : Change) (r : JobRow) → selects c r ≡ true → IsConsistent r → IsConsistent (sets c r)
change-IsConsistent (builds id n) r h i = ground arith
change-IsConsistent (submits id x u s f now) r h i = ground arith
change-IsConsistent (accepted id x) r h i = ground arith
change-IsConsistent (requeued id m t) r h i = ground arith
change-IsConsistent (confirms id now) r h i = ground arith
change-IsConsistent (fails id c m now) r h i = ground arith
change-IsConsistent (cancels id now) r h i = ground arith
change-IsConsistent (frees id) r h i = ground arith
change-IsConsistent (sees id s x) r h i = ground arith
change-IsConsistent (restarts id now) r h i = ground arith

new_job-IsConsistent :
    (a : InsertJobArgs) (claim : Option ℕ) (id now : ℕ) → IsConsistent (new_job a claim id now)
new_job-IsConsistent a claim id now = ground arith

All-append :
    (rs : List JobRow) (q : JobRow)
    → IsConsistent q
    → All IsConsistent rs
    → All IsConsistent (rs ++ (q ∷ []))
All-append [] q k h = (k, tt)
All-append (r ∷ rs) q k h = (h.0, All-append rs q k h.1)

-- Any operations in any order keep every job consistent: a job that may have been sent has the signed
-- bytes, the hash and the time of sending stored, an ended job has its time of ending, and a failed or
-- cancelled job has given back its idempotency key.
pub run-IsConsistent :
    (counts : Bool) (os : List Op) (d : Db)
    → All IsConsistent d.jobs
    → All IsConsistent (run counts os d).jobs
run-IsConsistent counts os d h =
    run_ind (λ a claim id. Unit) (All IsConsistent)
      (λ c rs. All-update_where IsConsistent (selects c) (sets c) (change-IsConsistent c) rs)
      (λ a claim id now rs ok fresh.
        All-append rs (new_job a claim id now) (new_job-IsConsistent a claim id now))
      counts os d (all-IsOk os) h
