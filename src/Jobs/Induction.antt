-- ===== src/Jobs/Induction.antt =====
-- Induction on the operations: what every change of a row and every new row keeps holds of the table
-- after any operations in any order.
use odatano.Base.{
  arith, ℕ, ◌≡◌, Bool, true, false, Option, none, some, List, [], ◌∷◌, ◌++◌, any, keep, if_ind,
}
use odatano.Base.Table.{update_where}
use odatano.Lease.{held_by_other}
use odatano.Jobs.{
  JobStatus, pending, building, submitting, submitted, confirmed, failed, cancelled, JobRow,
  WalletRow, JobErrorCode, Db, guard, has_id, active, guarded_transition, mark_building,
  mark_submitting, mark_submitted, requeue_for_retry, mark_confirmed, mark_failed, mark_cancelled,
  release_dedup_claim, record_confirmation_point, clear_confirmation_point, as_building,
  as_submitting, as_submitted, as_requeued, as_confirmed, as_failed, as_cancelled, as_freed,
  as_seen_at,
}
use odatano.Jobs.Wallets.{
  Registration, Outcome, read_wallet, wallet_lease_held, upsert_wallet_registration,
  try_acquire_wallet_lease, renew_wallet_lease, release_wallet_lease, bump_wallet_stats,
  upsert_wallet, bump_wallet,
}
use odatano.Jobs.Creation.{InsertJobArgs, InsertResult, insert_row, new_job, clashes, has_status}
use odatano.Jobs.Recovery.{
  restarted, fail_each, is_building_of, wallets_of, fail_orphaned_building_jobs, fail_wallets,
  recover_interrupted_jobs,
}
use odatano.Jobs.Operations.{
  Op, apply, run, inserts, marks_building, marks_submitting, marks_submitted, requeues,
  marks_confirmed, marks_failed, marks_cancelled, frees_key, records_point, clears_point,
  fails_orphans, recovers, registers, acquires, renews, releases, bumps,
}

-- One UPDATE of the job table.
pub data Change : Type 0 where
  builds : ℕ → ℕ → Change
  submits : ℕ → ℕ → Option ℕ → ℕ → Option ℕ → ℕ → Change
  accepted : ℕ → ℕ → Change
  requeued : ℕ → ℕ → Option ℕ → Change
  confirms : ℕ → ℕ → Change
  fails : ℕ → JobErrorCode → ℕ → ℕ → Change
  cancels : ℕ → ℕ → Change
  frees : ℕ → Change
  sees : ℕ → Option ℕ → Option ℕ → Change
  restarts : ℕ → ℕ → Change

abbrev pub selects : Change → JobRow → Bool
selects (builds id attempt) = guard id (pending ∷ [])
selects (submits id h u s f now) = guard id (building ∷ [])
selects (accepted id h) = guard id (submitting ∷ [])
selects (requeued id m t) = guard id (building ∷ [])
selects (confirms id now) = guard id (submitted ∷ [])
selects (fails id c m now) = guard id active
selects (cancels id now) = guard id (pending ∷ [])
selects (frees id) = has_id id
selects (sees id s h) = guard id (submitted ∷ [])
selects (restarts id now) = guard id (building ∷ [])

abbrev pub sets : Change → JobRow → JobRow
sets (builds id attempt) = as_building attempt
sets (submits id h u s f now) = as_submitting h u s f now
sets (accepted id h) = as_submitted h
sets (requeued id m t) = as_requeued m t
sets (confirms id now) = as_confirmed now
sets (fails id c m now) = as_failed id c m now
sets (cancels id now) = as_cancelled id now
sets (frees id) = as_freed id
sets (sees id s h) = as_seen_at s h
sets (restarts id now) = restarted id now

abbrev pub changed : Change → List JobRow → List JobRow
changed c rs = update_where (selects c) (sets c) rs

-- `Ok` is asked of the new rows.
module _ (Ok : InsertJobArgs → Option ℕ → ℕ → Type 0) where
  abbrev pub IsOk : Op → Type 0
  IsOk (inserts a claim id now) = Ok a claim id
  IsOk _ = Unit

  abbrev pub AllOk : List Op → Type 0
  AllOk [] = Unit
  AllOk (o ∷ os) = IsOk o × AllOk os

-- Nothing is asked.
one-IsOk : (o : Op) → IsOk (λ a claim id. Unit) o
one-IsOk o = ground arith

pub all-IsOk : (os : List Op) → AllOk (λ a claim id. Unit) os
all-IsOk [] = tt
all-IsOk (o ∷ os) = (one-IsOk o, all-IsOk os)

-- What is asked of the tables when an operation frees the key of a job.
module _ (MayFree : ℕ → List JobRow → Type 0) where
  abbrev pub Fits : Change → List JobRow → Type 0
  Fits (frees id) rs = MayFree id rs
  Fits _ rs = Unit

  abbrev pub FreesOk : Op → List JobRow → Type 0
  FreesOk (frees_key id) rs = MayFree id rs
  FreesOk _ rs = Unit

  -- It holds at each operation of the run.
  abbrev pub AllFreesOk : Bool → List Op → Db → Type 0
  AllFreesOk counts [] d = Unit
  AllFreesOk counts (o ∷ os) d = FreesOk o d.jobs × AllFreesOk counts os (apply counts o d)

one-FreesOk : (o : Op) (rs : List JobRow) → FreesOk (λ id rs. Unit) o rs
one-FreesOk o rs = ground arith

all-FreesOk : (counts : Bool) (os : List Op) (d : Db) → AllFreesOk (λ id rs. Unit) counts os d
all-FreesOk counts [] d = tt
all-FreesOk counts (o ∷ os) d = (one-FreesOk o d.jobs, all-FreesOk counts os (apply counts o d))

module _ {κ} (Ok : InsertJobArgs → Option ℕ → ℕ → Type 0) (MayFree : ℕ → List JobRow → Type 0)
    (P : List JobRow → Type κ)
    (change : (c : Change) (rs : List JobRow) → Fits MayFree c rs → P rs → P (changed c rs))
    (append : (a : InsertJobArgs) (claim : Option ℕ) (id now : ℕ) (rs : List JobRow)
      → Ok a claim id
      → any (clashes (new_job a claim id now)) rs ≡ false
      → P rs
      → P (rs ++ (new_job a claim id now ∷ []))) where
  guarded :
      (counts : Bool) (id : ℕ) (from : List JobStatus) (target : JobStatus) (set : JobRow → JobRow)
      (d : Db)
      → P (update_where (guard id from) set d.jobs)
      → P (guarded_transition counts id from target set d).1.jobs
  unfolding guarded_transition
  guarded true id from target set d h = h
  guarded false id from target set d h = h

  inserted :
      (a : InsertJobArgs) (claim : Option ℕ) (id now : ℕ) (d : Db)
      → Ok a claim id
      → P d.jobs
      → P (insert_row a claim id now d).1.jobs
  unfolding insert_row
  inserted a claim id now d ok h =
      if_ind (λ (p : InsertResult × Db). P p.1.jobs) (any (clashes (new_job a claim id now)) d.jobs)
        (λ e. h) (λ e. append a claim id now d.jobs ok e h)

  failed_each : (now : ℕ) (rows : List JobRow) (d : Db) → P d.jobs → P (fail_each now rows d).jobs
  unfolding fail_each
  failed_each now [] d h = h
  failed_each now (r ∷ rows) d h =
      failed_each now rows (record d { jobs = changed (restarts r.id now) d.jobs })
        (change (restarts r.id now) d.jobs tt h)

  orphans : (w now : ℕ) (d : Db) → P d.jobs → P (fail_orphaned_building_jobs w now d).1.jobs
  unfolding fail_orphaned_building_jobs
  orphans w now d h =
      if_ind (λ (p : ℕ × Db). P p.1.jobs) (wallet_lease_held (read_wallet w d) now) (λ e. h)
        (λ e. failed_each now (keep (is_building_of w) d.jobs) d h)

  orphans_of : (now : ℕ) (ws : List ℕ) (d : Db) → P d.jobs → P (fail_wallets now ws d).1.jobs
  orphans_of now [] d h = h
  orphans_of now (w ∷ ws) d h =
      orphans_of now ws (fail_orphaned_building_jobs w now d).1 (orphans w now d h)

  registered : (g : Registration) (d : Db) → P d.jobs → P (upsert_wallet_registration g d).jobs
  unfolding upsert_wallet_registration
  registered g d h = elim (read_wallet g.wallet_id d) as (λ w. P (upsert_wallet w g d).jobs) [
    | none ↦ h
    | some w ↦ h
  ]

  acquired :
      (seen : Option WalletRow) (w who now ttl : ℕ) (d : Db)
      → P d.jobs
      → P (try_acquire_wallet_lease seen w who now ttl d).1.jobs
  unfolding try_acquire_wallet_lease
  acquired none w who now ttl d h = h
  acquired (some s) w who now ttl d h =
      if_ind (λ (p : Bool × Db). P p.1.jobs) s.enabled
        (λ e.
          if_ind (λ (p : Bool × Db). P p.1.jobs) (held_by_other s.lease who now) (λ e. h) (λ e. h))
        (λ e. h)

  bumped_stats :
      (w : ℕ) (o : Outcome) (now : ℕ) (d : Db) → P d.jobs → P (bump_wallet_stats w o now d).jobs
  unfolding bump_wallet_stats
  bumped_stats w o now d h = elim (read_wallet w d) as (λ s. P (bump_wallet s w o now d).jobs) [
    | none ↦ h
    | some s ↦ h
  ]

  apply_ind :
      (counts : Bool) (o : Op) (d : Db)
      → IsOk Ok o
      → FreesOk MayFree o d.jobs
      → P d.jobs
      → P (apply counts o d).jobs
  unfolding mark_building mark_submitting mark_submitted requeue_for_retry mark_confirmed
      mark_failed mark_cancelled release_dedup_claim record_confirmation_point
      clear_confirmation_point renew_wallet_lease release_wallet_lease recover_interrupted_jobs
  apply_ind counts (inserts a claim id now) d ok free h = inserted a claim id now d ok h
  apply_ind counts (marks_building id n) d ok free h =
      guarded counts id (pending ∷ []) building (as_building n) d (change (builds id n) d.jobs tt h)
  apply_ind counts (marks_submitting id x u s f now) d ok free h =
      guarded counts id (building ∷ []) submitting (as_submitting x u s f now) d
        (change (submits id x u s f now) d.jobs tt h)
  apply_ind counts (marks_submitted id x) d ok free h =
      guarded counts id (submitting ∷ []) submitted (as_submitted x) d
        (change (accepted id x) d.jobs tt h)
  apply_ind counts (requeues id m t) d ok free h =
      guarded counts id (building ∷ []) pending (as_requeued m t) d
        (change (requeued id m t) d.jobs tt h)
  apply_ind counts (marks_confirmed id now) d ok free h =
      guarded counts id (submitted ∷ []) confirmed (as_confirmed now) d
        (change (confirms id now) d.jobs tt h)
  apply_ind counts (marks_failed id c m now) d ok free h =
      guarded counts id active failed (as_failed id c m now) d
        (change (fails id c m now) d.jobs tt h)
  apply_ind counts (marks_cancelled id now) d ok free h =
      guarded counts id (pending ∷ []) cancelled (as_cancelled id now) d
        (change (cancels id now) d.jobs tt h)
  apply_ind counts (frees_key id) d ok free h = change (frees id) d.jobs free h
  apply_ind counts (records_point id s x) d ok free h = change (sees id s x) d.jobs tt h
  apply_ind counts (clears_point id) d ok free h = change (sees id none none) d.jobs tt h
  apply_ind counts (fails_orphans w now) d ok free h = orphans w now d h
  apply_ind counts (recovers now) d ok free h =
      orphans_of now (wallets_of (keep (has_status building) d.jobs)) d h
  apply_ind counts (registers g) d ok free h = registered g d h
  apply_ind counts (acquires s w who now ttl) d ok free h = acquired s w who now ttl d h
  apply_ind counts (renews w who now ttl) d ok free h = h
  apply_ind counts (releases w who) d ok free h = h
  apply_ind counts (bumps w o now) d ok free h = bumped_stats w o now d h

  pub run_ind_freeing :
      (counts : Bool) (os : List Op) (d : Db)
      → AllOk Ok os
      → AllFreesOk MayFree counts os d
      → P d.jobs
      → P (run counts os d).jobs
  run_ind_freeing counts [] d ok free h = h
  run_ind_freeing counts (o ∷ os) d ok free h =
      run_ind_freeing counts os (apply counts o d) ok.1 free.1 (apply_ind counts o d ok.0 free.0 h)

module _ {κ} (Ok : InsertJobArgs → Option ℕ → ℕ → Type 0) (P : List JobRow → Type κ)
    (change : (c : Change) (rs : List JobRow) → P rs → P (changed c rs))
    (append : (a : InsertJobArgs) (claim : Option ℕ) (id now : ℕ) (rs : List JobRow)
      → Ok a claim id
      → any (clashes (new_job a claim id now)) rs ≡ false
      → P rs
      → P (rs ++ (new_job a claim id now ∷ []))) where
  pub run_ind :
      (counts : Bool) (os : List Op) (d : Db) → AllOk Ok os → P d.jobs → P (run counts os d).jobs
  run_ind counts os d ok h =
      run_ind_freeing Ok (λ id rs. Unit) P (λ c rs fits. change c rs) append counts os d ok
        (all-FreesOk counts os d) h
