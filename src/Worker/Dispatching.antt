-- ===== src/Worker/Dispatching.antt =====
-- What the dispatcher, the start and the stop of the worker keep.
use odatano.Base.{
  ℕ, refl, Bool, true, false, Option, none, some, List, [], ◌∷◌, All, any, if_ind, not, ◌||◌,
}
use odatano.Jobs.{JobRow, Db}
use odatano.Jobs.Wallets.{read_wallet, release_wallet_lease}
use odatano.Jobs.Creation.{find_due_jobs, wallet_has_active_job}
use odatano.Jobs.Recovery.{RecoveryResult, fail_orphaned_building_jobs, recover_interrupted_jobs}
use odatano.Jobs.Operations.{acquires, recovers, fails_orphans, releases}
use odatano.Worker.{Task, executes, reconciles, ok, tx}
use odatano.Worker.Tracker.{track, has_job_id, start_tracker, stop_tracker}
use odatano.Worker.Stored.{
  NamesStored, NamesStored-stable, Follows, Follows-refl, Follows-trans, Follows-apply,
  Follows-HasUniqueKeys,
}
use odatano.Worker.Triples.{IsSound, Triple, Post-any, consequence, bind, tx_rule}
use odatano.Worker.Dispatch.{
  Dispatcher, contains, next_per_wallet, awaiting, add_task, spawn, take_orphan, spawn_orphan,
  may_start, reconcile_orphaned_submissions, claim_wallet, acquire, spawn_job, dispatch,
  dispatch_tick, tick_safe, resumed, track_again, resume_all, start_worker, release_all,
  stop_worker,
}
use odatano.Worker.Keeping.{
  Setting, Ops, Keeps, KeepsWith, then-Keeps, catch-Keeps, op-Keeps, pure-Keeps, weakly,
  then-KeepsWith, modify-Keeps, track_keeps,
}
use odatano.Worker.Submitting.{ignored, reading-Keeps, track_all}
use odatano.Worker.Orphans.{take_orphan-Follows, found_submitted}

module _ (z : Setting) (dispatcher : Dispatcher) where
  open z use {is_uuid, world, fair, start, uniq}

  awaiting-Keeps :
      {R : Type 0} (f : ℕ → Db → R × Db) → Ops z f → Keeps z (awaiting true world dispatcher f)
  unfolding Triple IsSound
  awaiting-Keeps f ops s h p =
      let (sound, follows, q) = op-Keeps z f ops s h p in
      (
        sound,
        follows,
        Post-any is_uuid start (tx true world f s).0 (awaiting true world dispatcher f s).1,
      )

  spawn-Keeps : (wallet : ℕ) (task : Task) → Keeps z (spawn true world dispatcher wallet task)
  unfolding spawn
  spawn-Keeps wallet task = reading-Keeps z _ (λ r.
      if_ind (Keeps z) (dispatcher.still_running r.step)
        (λ e. modify-Keeps z (add_task true world dispatcher wallet task) (λ s. (refl, refl, refl)))
        (λ e. pure-Keeps z (ok tt)))

  spawn_orphan-Keeps :
      (wallet : ℕ) (o : Option JobRow) → Keeps z (spawn_orphan true world dispatcher wallet o)
  spawn_orphan-Keeps wallet none = pure-Keeps z (ok tt)
  spawn_orphan-Keeps wallet (some job) = spawn-Keeps wallet (reconciles job)

  reconcile_orphaned_submissions-Keeps :
      (wallets : List ℕ) → Keeps z (reconcile_orphaned_submissions true world dispatcher wallets)
  unfolding reconcile_orphaned_submissions
  reconcile_orphaned_submissions-Keeps [] = pure-Keeps z (ok tt)
  reconcile_orphaned_submissions-Keeps (wallet ∷ wallets) =
      let rest = reconcile_orphaned_submissions-Keeps wallets in
      reading-Keeps z _ (λ r.
        if_ind (Keeps z) (not (may_start true world dispatcher r)) (λ e. pure-Keeps z (ok tt))
          (λ e.
            if_ind (Keeps z) (contains wallet r.executing) (λ e. rest)
              (λ e.
                then-Keeps z _ _
                  (then-Keeps z _ _
                    (awaiting-Keeps (take_orphan true world dispatcher wallet)
                      (take_orphan-Follows is_uuid world dispatcher wallet))
                    (spawn_orphan-Keeps wallet))
                  (λ a. rest))))

  claim_wallet-Follows : (wallet : ℕ) → Ops z (claim_wallet true world dispatcher wallet)
  unfolding claim_wallet
  claim_wallet-Follows wallet now d =
      let e = (fail_orphaned_building_jobs wallet now d).1 in
      let first = Follows-apply is_uuid (fails_orphans wallet now) d tt in
      if_ind (λ (p : Bool × Db). Follows is_uuid d p.1) (wallet_has_active_job wallet e)
        (λ x. first)
        (λ x. Follows-trans is_uuid d e (acquire true world dispatcher wallet now e).1 first (
          Follows-apply is_uuid
            (acquires (read_wallet wallet e) wallet world.instance_id now world.ttl) e tt))

  spawn_job-Keeps :
      (wallet : ℕ) (job : JobRow) (b : Bool)
      → Keeps z (spawn_job true world dispatcher wallet job b)
  spawn_job-Keeps wallet job true = spawn-Keeps wallet (executes job)
  spawn_job-Keeps wallet job false = pure-Keeps z (ok tt)

  dispatch-Keeps : (jobs : List (ℕ × JobRow)) → Keeps z (dispatch true world dispatcher jobs)
  unfolding dispatch
  dispatch-Keeps [] = pure-Keeps z (ok tt)
  dispatch-Keeps ((wallet, job) ∷ jobs) =
      let rest = dispatch-Keeps jobs in
      reading-Keeps z _ (λ r.
        if_ind (Keeps z) (not (may_start true world dispatcher r)) (λ e. pure-Keeps z (ok tt))
          (λ e.
            if_ind (Keeps z)
              (contains wallet r.executing || not (contains wallet dispatcher.wallets)) (λ e. rest)
              (λ e.
                then-Keeps z _ _
                  (then-Keeps z _ _
                    (awaiting-Keeps (claim_wallet true world dispatcher wallet)
                      (claim_wallet-Follows wallet))
                    (spawn_job-Keeps wallet job))
                  (λ a. rest))))

  pub tick_safe-Keeps : Keeps z (tick_safe true world dispatcher)
  unfolding tick_safe dispatch_tick
  tick_safe-Keeps = reading-Keeps z _ (λ r.
      if_ind (Keeps z) (dispatcher.still_running r.step)
        (λ e.
          catch-Keeps z _ _
            (then-Keeps z _ _ (reconcile_orphaned_submissions-Keeps dispatcher.wallets) (λ a.
              then-Keeps z _ _
                (awaiting-Keeps (λ now d. (find_due_jobs now d, d))
                  (λ now d. Follows-refl is_uuid d))
                (λ due. dispatch-Keeps (next_per_wallet due))))
            (ignored z))
        (λ e. pure-Keeps z (ok tt)))

  release_all-Keeps : (wallets : List ℕ) → Keeps z (release_all true world dispatcher wallets)
  release_all-Keeps [] = pure-Keeps z (ok tt)
  release_all-Keeps (wallet ∷ wallets) =
      then-Keeps z _ _
        (catch-Keeps z _ _
          (op-Keeps z (λ now d. (tt, release_wallet_lease wallet world.instance_id d))
            (λ now d. Follows-apply is_uuid (releases wallet world.instance_id) d tt))
          (ignored z))
        (λ a. release_all-Keeps wallets)

  pub stop_worker-Keeps : Keeps z (stop_worker true world dispatcher)
  unfolding stop_worker stop_tracker
  stop_worker-Keeps =
      then-Keeps z _ _ (track_keeps z stop_tracker (λ s. Unit) (λ s. (refl, refl)) (λ s p h. tt))
        (λ a. release_all-Keeps dispatcher.wallets)

  -- The rows that are tracked again name stored bytes.
  abbrev Known : List JobRow → Db → Type 0
  Known jobs d = All (λ r. NamesStored r d) jobs

  Known-stable : (jobs : List JobRow) (d e : Db) → Follows is_uuid d e → Known jobs d → Known jobs e
  Known-stable [] d e f h = tt
  Known-stable (r ∷ rs) d e f h =
      (NamesStored-stable is_uuid r d e f h.0, Known-stable rs d e f h.1)

  track_again_keeps :
      (job : JobRow) (hash : Option ℕ)
      → KeepsWith z (NamesStored job) (track_again true world dispatcher job hash)
  unfolding track
  track_again_keeps job none = weakly z (NamesStored job) _ (pure-Keeps z (ok tt))
  track_again_keeps job (some hash) =
      track_keeps z (λ s. track (resumed true world dispatcher job hash (world.now s.step)) s)
        (λ s. NamesStored job s.db) (λ s. (refl, refl))
        (λ s k h.
          track_all z s.db (resumed true world dispatcher job hash (world.now s.step))
            (any (has_job_id job.id) s.pending) s.pending k h)

  pub resume_all_keeps :
      (jobs : List JobRow) → KeepsWith z (Known jobs) (resume_all true world dispatcher jobs)
  resume_all_keeps [] = weakly z (Known []) _ (pure-Keeps z (ok tt))
  resume_all_keeps (job ∷ jobs) =
      then-KeepsWith z (Known (job ∷ jobs)) (Known-stable (job ∷ jobs)) _ _
        (consequence is_uuid start (λ s. NamesStored job s.db) (λ s. Known (job ∷ jobs) s.db) _ _ _
          (λ s k. k.0) (λ a s q. tt) (track_again_keeps job job.tx_hash))
        (λ a.
          consequence is_uuid start (λ s. Known jobs s.db) (λ s. Known (job ∷ jobs) s.db) _ _ _
            (λ s k. k.1) (λ a s q. tt) (resume_all_keeps jobs))

  -- The start, after a crash or not.
  pub start_worker-Keeps : Keeps z (start_worker true world dispatcher)
  unfolding start_worker start_tracker recover_interrupted_jobs
  start_worker-Keeps =
      bind is_uuid start (λ (a : RecoveryResult) s. Known a.submitted_to_reconcile s.db)
        (λ a s. Unit) _
        (λ recovery.
          then-KeepsWith z (Known recovery.submitted_to_reconcile)
            (Known-stable recovery.submitted_to_reconcile) _ _
            (resume_all_keeps recovery.submitted_to_reconcile)
            (λ a.
              weakly z (Known recovery.submitted_to_reconcile) _
                (modify-Keeps z start_tracker (λ s. (refl, refl, refl)))))
        (λ s. Unit) _
        (tx_rule is_uuid start world fair _ recover_interrupted_jobs
          (λ now d. Follows-apply is_uuid (recovers now) d tt)
          (λ now s follows.
            found_submitted (recover_interrupted_jobs now s.db).1
              (Follows-HasUniqueKeys is_uuid start (recover_interrupted_jobs now s.db).1
                (Follows-trans is_uuid start s.db (recover_interrupted_jobs now s.db).1 follows
                  (Follows-apply is_uuid (recovers now) s.db tt))
                uniq).1))
