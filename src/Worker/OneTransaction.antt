-- ===== src/Worker/OneTransaction.antt =====
-- Everything an instance does, in any order: it starts and stops, dispatches, executes and reconciles
-- jobs, and watches them. The database counts the rows that an UPDATE has affected.
use odatano.Base.{
  ℕ, ◌≡◌, sym, ◌∙◌, subst, Bool, true, Option, none, some, List, [], ◌∷◌, arith, All,
}
use odatano.Jobs.{JobRow, Db, get_job_by_id}
use odatano.Jobs.Keys.{HasUniqueKeys}
use odatano.Worker.{Run, World, ok, M, pure, ◌>>=◌, tx}
use odatano.Worker.Tracker.{
  TrackerOptions, BlockIndexed, Reorg, on_block_indexed, on_reorg, poll_once,
}
use odatano.Worker.Execution.{execute_job}
use odatano.Worker.Reconciliation.{reconcile_submitting}
use odatano.Worker.Dispatch.{Dispatcher, take_orphan, tick_safe, start_worker, stop_worker}
use odatano.Worker.Stored.{IsStored, HasBytes, NamesStored, Follows-refl, Follows-HasUniqueKeys}
use odatano.Worker.Triples.{IsFair, IsSound, from_IsSound, to_IsSound, Triple, bind, tx_rule}
use odatano.Worker.Keeping.{Setting, Keeps, pure-Keeps}
use odatano.Worker.Rounds.{on_block_indexed-Keeps, on_reorg-Keeps, poll_once-Keeps}
use odatano.Worker.Working.{execute_job-Keeps, reconcile_submitting_keeps}
use odatano.Worker.Dispatching.{tick_safe-Keeps, start_worker-Keeps, stop_worker-Keeps}
use odatano.Worker.Orphans.{OfSome, take_orphan_lem, take_orphan-Follows}

-- What an instance may do next.
pub data Work : Type 0 where
  starts stops dispatches polls : Work
  executes_job : JobRow → Work
  reconciles_wallet : ℕ → Work
  indexes : BlockIndexed → Work
  rolls_back : Reorg → Work

module _ (counts : Bool) (world : World) (options : TrackerOptions) (dispatcher : Dispatcher) where
  abbrev pub resolve_orphan : Option JobRow → M (Unit {0})
  resolve_orphan none = pure tt
  resolve_orphan (some job) = reconcile_submitting counts world options.confirmation_timeout_ms job

  abbrev pub perform : Work → M (Unit {0})
  perform starts = start_worker counts world dispatcher
  perform stops = stop_worker counts world dispatcher
  perform dispatches = tick_safe counts world dispatcher
  perform polls = poll_once counts world options
  perform (executes_job job) = execute_job counts world job
  perform (reconciles_wallet wallet) =
      tx counts world (take_orphan counts world dispatcher wallet) >>= resolve_orphan
  perform (indexes e) = on_block_indexed counts world options e
  perform (rolls_back e) = on_reorg counts world options e

  -- One piece of work after the other, however each of them ends.
  unfoldable pub perform_all : List Work → Run → Run
  perform_all [] s = s
  perform_all (x ∷ xs) s = perform_all xs (perform x s).1

-- Before anything is sent or watched.
abbrev pub IsIdle : Run → Type 0
IsIdle s = (s.sent ≡ []) × (s.pending ≡ [])

-- All that has been sent for one job are the same bytes.
abbrev pub SendsOneEach : List (ℕ × ℕ) → Type 0
SendsOneEach sent = All (λ p. All (λ q. p.0 ≡ q.0 → p.1 ≡ q.1) sent) sent

module _ (z : Setting) (dispatcher : Dispatcher) where
  open z use {is_uuid, world, options, fair, start, uniq}

  orphan-Keeps :
      (wallet : ℕ) → Keeps z (perform true world options dispatcher (reconciles_wallet wallet))
  orphan-Keeps wallet =
      bind is_uuid start (λ o s. OfSome (λ r. NamesStored r s.db) o) (λ a s. Unit) _ resolved
        (λ s. Unit) _
        (tx_rule is_uuid start world fair _ (take_orphan true world dispatcher wallet)
          (take_orphan-Follows is_uuid world dispatcher wallet)
          (λ now s follows.
            take_orphan_lem is_uuid world dispatcher wallet now s.db
              (Follows-HasUniqueKeys is_uuid start s.db follows uniq).1))
    where
      resolved :
          (o : Option JobRow)
          → Triple is_uuid start
              (λ s. OfSome (λ r. NamesStored r s.db) o)
              (resolve_orphan true world options dispatcher o)
              (λ a s. Unit)
      resolved none = pure-Keeps z (ok tt)
      resolved (some job) = reconcile_submitting_keeps z job

  perform-Keeps : (x : Work) → Keeps z (perform true world options dispatcher x)
  perform-Keeps starts = start_worker-Keeps z dispatcher
  perform-Keeps stops = stop_worker-Keeps z dispatcher
  perform-Keeps dispatches = tick_safe-Keeps z dispatcher
  perform-Keeps polls = poll_once-Keeps z
  perform-Keeps (executes_job job) = execute_job-Keeps z job
  perform-Keeps (reconciles_wallet wallet) = orphan-Keeps wallet
  perform-Keeps (indexes e) = on_block_indexed-Keeps z e
  perform-Keeps (rolls_back e) = on_reorg-Keeps z e

  perform_all-IsSound :
      (xs : List Work) (s : Run)
      → IsSound is_uuid start s
      → IsSound is_uuid start (perform_all true world options dispatcher xs s)
  unfolding perform_all Triple
  perform_all-IsSound [] s h = h
  perform_all-IsSound (x ∷ xs) s h =
      perform_all-IsSound xs (perform true world options dispatcher x s).1
        (perform-Keeps x s h tt).0

IsSound-idle : (is_uuid : ℕ → Bool) (s : Run) → IsIdle s → IsSound is_uuid s.db s
IsSound-idle is_uuid s h =
    to_IsSound is_uuid s.db s (Follows-refl is_uuid s.db, ground (arith, h), ground (arith, h))

-- The same bytes, as both are stored with the one job.
HasBytes-unique : (o : Option JobRow) (c k : ℕ) → HasBytes c o → HasBytes k o → c ≡ k
HasBytes-unique none c k h g = absurd h
HasBytes-unique (some r) c k h g = ground (arith, sym h.1 ∙ g.1)

module _ (is_uuid : ℕ → Bool) (world : World) (options : TrackerOptions) (dispatcher : Dispatcher)
    (fair : (k : ℕ) → All (IsFair is_uuid) (world.meanwhile k)) (works : List Work) (s : Run)
    (idle : IsIdle s) (uniq : HasUniqueKeys is_uuid s.db.jobs) where
  abbrev after : Run
  after = perform_all true world options dispatcher works s

  after-IsSound : IsSound is_uuid s.db after
  after-IsSound =
      perform_all-IsSound
        (record {
          is_uuid = is_uuid;
          world = world;
          options = options;
          fair = fair;
          start = s.db;
          uniq = uniq;
        })
        dispatcher works s (IsSound-idle is_uuid s idle)

  -- Write-ahead: from tables with unique keys, with nothing sent or tracked, whatever an instance does
  -- on a counting database, whatever third parties answer, which transactions fail and what fair others
  -- do: all bytes that anyone has sent for a job are stored with the job, and the job is past its build.
  pub sent_bytes_lem :
      All
        (λ p. IsStored p.0 p.1 (perform_all true world options dispatcher works s).db)
        (perform_all true world options dispatcher works s).sent
  sent_bytes_lem = (from_IsSound is_uuid s.db after after-IsSound).1

  agree :
      (d : Db) (p : ℕ × ℕ) (sent : List (ℕ × ℕ))
      → IsStored p.0 p.1 d
      → All (λ q. IsStored q.0 q.1 d) sent
      → All (λ q. p.0 ≡ q.0 → p.1 ≡ q.1) sent
  agree d p [] h k = tt
  agree d p (q ∷ sent) h k = (
    (λ same.
        HasBytes-unique (get_job_by_id q.0 d) p.1 q.1 (subst (λ i. IsStored i p.1 d) same h) k.0),
    agree d p sent h k.1,
  )

  agree_all :
      (d : Db) (ps qs : List (ℕ × ℕ))
      → All (λ q. IsStored q.0 q.1 d) ps
      → All (λ q. IsStored q.0 q.1 d) qs
      → All (λ p. All (λ q. p.0 ≡ q.0 → p.1 ≡ q.1) qs) ps
  agree_all d [] qs h k = tt
  agree_all d (p ∷ ps) qs h k = (agree d p qs h.0 k, agree_all d ps qs h.1 k)

  -- One job sends one transaction: from tables with unique keys, with nothing sent or tracked, for any
  -- sequence of starts, stops, dispatches, executions, reconciliations, polls, blocks and rollbacks on a
  -- counting database, whatever third parties answer, which transactions of the database fail and what
  -- fair others do meanwhile: any two sendings for one job are of the same bytes.
  pub sent_once : SendsOneEach (perform_all true world options dispatcher works s).sent
  sent_once = agree_all after.db after.sent after.sent sent_bytes_lem sent_bytes_lem
