-- ===== src/Worker/Dispatch.antt =====
-- srv/blockchain/wallet-worker/wallet-worker.ts: which jobs an instance starts.
-- Work that is spawned goes on beside the dispatcher: `ended` says whose work ends while a step is
-- awaited, and `still_running` whether `stop` has been called by then.
use odatano.Base.{
  ℕ, Bool, true, false, Option, none, some, List, [], ◌∷◌, ◌==◌, ◌&&◌, ◌||◌, any, keep, length, leb,
  not, or_default, if◌then◌else◌,
}
use odatano.Jobs.{JobRow, Db}
use odatano.Jobs.Wallets.{read_wallet, try_acquire_wallet_lease, release_wallet_lease}
use odatano.Jobs.Creation.{find_due_jobs, wallet_has_active_job, find_orphaned_submitting_job}
use odatano.Jobs.Recovery.{fail_orphaned_building_jobs, recover_interrupted_jobs}
use odatano.Worker.{
  Run, World, TrackedJob, Task, executes, reconciles, M, pure, catch, ◌>>=◌, ◌>>◌, tx,
}
use odatano.Worker.Tracker.{track, modify, ignore, start_tracker, stop_tracker}

pub record Dispatcher : Type 0 where
  -- the wallets of `signers`
  pub wallets : List ℕ
  pub max_concurrent_wallets : ℕ
  pub still_running : ℕ → Bool
  pub ended : ℕ → List ℕ

abbrev pub contains : ℕ → List ℕ → Bool
contains w l = any (λ v. v == w) l

-- The first runnable job of each wallet, in the order of the jobs.
abbrev pub next_per_wallet : List JobRow → List (ℕ × JobRow)
next_per_wallet [] = []
next_per_wallet (r ∷ rs) =
    (r.wallet_id, r) ∷ keep (λ p. not (p.0 == r.wallet_id)) (next_per_wallet rs)

abbrev pub if_held : Bool → JobRow → Option JobRow
if_held true r = some r
if_held false r = none

module _ (counts : Bool) (w : World) (d : Dispatcher) where
  abbrev pub leave : Run → Run
  leave s = record s { executing = keep (λ v. not (contains v (d.ended s.step))) s.executing }

  -- A transaction, with the work that ends meanwhile.
  abbrev pub awaiting : {R : Type 0} → (ℕ → Db → R × Db) → M R
  awaiting f s = let (o, s') = tx counts w f s in (o, leave s')

  abbrev pub add_task : ℕ → Task → Run → Run
  add_task wallet task s = record s { executing = wallet ∷ s.executing; spawned = task ∷ s.spawned }

  -- `spawn`
  unfoldable pub spawn : ℕ → Task → M (Unit {0})
  spawn wallet task s =
      (if d.still_running s.step then modify (add_task wallet task) else pure tt) s

  abbrev pub acquire : ℕ → ℕ → Db → Bool × Db
  acquire wallet now db =
      try_acquire_wallet_lease (read_wallet wallet db) wallet w.instance_id now w.ttl db

  abbrev pub acquire_for : ℕ → ℕ → Db → Option JobRow → Option JobRow × Db
  acquire_for wallet now db none = (none, db)
  acquire_for wallet now db (some stuck) =
      let (held, db') = acquire wallet now db in (if_held held stuck, db')

  -- An orphan `submitting` job of the wallet, under its lease.
  unfoldable pub take_orphan : ℕ → ℕ → Db → Option JobRow × Db
  take_orphan wallet now db = acquire_for wallet now db (find_orphaned_submitting_job wallet now db)

  abbrev pub spawn_orphan : ℕ → Option JobRow → M (Unit {0})
  spawn_orphan wallet none = pure tt
  spawn_orphan wallet (some job) = spawn wallet (reconciles job)

  abbrev pub may_start : Run → Bool
  may_start s = d.still_running s.step && not (leb d.max_concurrent_wallets (length s.executing))

  -- `reconcileOrphanedSubmissions`
  unfoldable pub reconcile_orphaned_submissions : List ℕ → M (Unit {0})
  unfolding take_orphan spawn
  reconcile_orphaned_submissions [] s = pure tt s
  reconcile_orphaned_submissions (wallet ∷ wallets) s =
      let rest = reconcile_orphaned_submissions wallets in
      (if not (may_start s)
          then pure tt
          else if contains wallet s.executing
          then rest
          else (awaiting (take_orphan wallet) >>= spawn_orphan wallet) >> rest)
        s

  -- Orphan builds fail, an active job blocks the queue, and the lease is acquired.
  unfoldable pub claim_wallet : ℕ → ℕ → Db → Bool × Db
  claim_wallet wallet now db =
      let db' = (fail_orphaned_building_jobs wallet now db).1 in
      if wallet_has_active_job wallet db' then (false, db') else acquire wallet now db'

  abbrev pub spawn_job : ℕ → JobRow → Bool → M (Unit {0})
  spawn_job wallet job false = pure tt
  spawn_job wallet job true = spawn wallet (executes job)

  unfoldable pub dispatch : List (ℕ × JobRow) → M (Unit {0})
  unfolding claim_wallet spawn
  dispatch [] s = pure tt s
  dispatch ((wallet, job) ∷ jobs) s =
      let rest = dispatch jobs in
      (if not (may_start s)
          then pure tt
          else if contains wallet s.executing || not (contains wallet d.wallets)
          then rest
          else (awaiting (claim_wallet wallet) >>= spawn_job wallet job) >> rest)
        s

  -- `tick`
  unfoldable pub dispatch_tick : M (Unit {0})
  unfolding reconcile_orphaned_submissions dispatch
  dispatch_tick = do
    reconcile_orphaned_submissions d.wallets
    due ← awaiting (λ now db. (find_due_jobs now db, db))
    dispatch (next_per_wallet due)

  -- `tickSafe`; the rounds of one instance do not overlap
  unfoldable pub tick_safe : M (Unit {0})
  unfolding dispatch_tick
  tick_safe s = (if d.still_running s.step then catch dispatch_tick ignore else pure tt) s

  -- A job that was submitted before the restart is watched again.
  abbrev pub resumed : JobRow → ℕ → ℕ → TrackedJob
  resumed job hash now = record {
    job_id = job.id;
    wallet_id = job.wallet_id;
    kind = job.kind;
    tx_hash = hash;
    signed_tx_cbor = job.signed_tx_cbor;
    submitted_at = or_default job.submitted_at now;
    found_slot = job.confirmed_slot;
    found_height = job.confirmed_height;
    seen_round = none;
  }

  abbrev pub track_again : JobRow → Option ℕ → M (Unit {0})
  track_again job none = pure tt
  track_again job (some hash) = modify (λ s. track (resumed job hash (w.now s.step)) s)

  abbrev pub resume_all : List JobRow → M (Unit {0})
  resume_all [] = pure tt
  resume_all (job ∷ jobs) = track_again job job.tx_hash >> resume_all jobs

  -- The second and the third part of `start`
  unfoldable pub start_worker : M (Unit {0})
  unfolding track start_tracker
  start_worker = do
    recovery ← tx counts w recover_interrupted_jobs
    resume_all recovery.submitted_to_reconcile
    modify start_tracker

  abbrev pub release_all : List ℕ → M (Unit {0})
  release_all [] = pure tt
  release_all (wallet ∷ wallets) =
      catch (tx counts w (λ now db. (tt, release_wallet_lease wallet w.instance_id db))) ignore
      >> release_all wallets

  -- `stop`, after the executions have been awaited
  unfoldable pub stop_worker : M (Unit {0})
  unfolding stop_tracker
  stop_worker = do modify stop_tracker; release_all d.wallets
