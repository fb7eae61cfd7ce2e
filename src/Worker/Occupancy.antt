-- ===== src/Worker/Occupancy.antt =====
-- How many wallets the dispatcher keeps busy, and how often each.
use odatano.Base.{
  ℕ, ◌≤◌, ◌<◌, ◌≡◌, refl, sym, subst, ◌∙◌, Bool, true, false, Option, none, some, List, [], ◌∷◌,
  ◌||◌, not, keep, length, length-keep-le, arith, if_ind, if◌then◌else◌,
}
use odatano.Errors.{JobError}
use odatano.Jobs.{JobRow, Db}
use odatano.Jobs.Creation.{find_due_jobs}
use odatano.Worker.{
  Run, World, Event, acts, sends, Outage, committed, lost_before, lost_after, Outcome, ok, thrown,
  returned, Task, executes, reconciles, M, pure, catch, recover, and_then, ◌>>=◌, ◌>>◌, happen,
  happen_all, tick, commit, tx,
}
use odatano.Worker.Tracker.{ignore}
use odatano.Worker.Dispatch.{
  Dispatcher, contains, next_per_wallet, leave, awaiting, spawn, take_orphan, spawn_orphan,
  may_start, reconcile_orphaned_submissions, claim_wallet, spawn_job, dispatch, dispatch_tick,
  tick_safe,
}

-- No wallet is named twice.
abbrev pub AreDistinct : List ℕ → Type 0
AreDistinct [] = Unit
AreDistinct (w ∷ ws) = (contains w ws ≡ false) × AreDistinct ws

keep-contains :
    (v : ℕ) (p : ℕ → Bool) (ws : List ℕ) → contains v ws ≡ false → contains v (keep p ws) ≡ false
keep-contains v p [] h = refl
keep-contains v p (w ∷ ws) h = ground (arith, keep-contains v p ws)

keep-AreDistinct : (p : ℕ → Bool) (ws : List ℕ) → AreDistinct ws → AreDistinct (keep p ws)
keep-AreDistinct p [] h = tt
keep-AreDistinct p (w ∷ ws) h =
    if_ind AreDistinct (p w) (λ e. (keep-contains w p ws h.0, keep-AreDistinct p ws h.1))
      (λ e. keep-AreDistinct p ws h.1)

module _ (counts : Bool) (world : World) where
  happen-executing : (e : Event) (s : Run) → (happen counts e s).executing ≡ s.executing
  unfolding happen
  happen-executing (acts o) s = refl
  happen-executing (sends id) s = refl

  happen_all-executing :
      (es : List Event) (s : Run) → (happen_all counts es s).executing ≡ s.executing
  unfolding happen_all
  happen_all-executing [] s = refl
  happen_all-executing (e ∷ es) s =
      happen_all-executing es (happen counts e s) ∙ happen-executing e s

  commit-executing :
      {R : Type 0} (o : Outage) (r : R × Db) (s : Run)
      → (commit counts world o r s).1.executing ≡ s.executing
  commit-executing committed r s = refl
  commit-executing lost_before r s = refl
  commit-executing lost_after r s = refl

  tx-executing :
      {R : Type 0} (f : ℕ → Db → R × Db) (s : Run) → (tx counts world f s).1.executing ≡ s.executing
  unfolding tx tick
  tx-executing f s =
      commit-executing (world.outage s.step) _ (tick counts world s)
      ∙ happen_all-executing (world.meanwhile s.step) s

module _ (counts : Bool) (world : World) (dispatcher : Dispatcher) where
  -- At most so many wallets at once, and each of them once.
  abbrev pub IsOccupied : List ℕ → Type 0
  IsOccupied ws = AreDistinct ws × (length ws ≤ dispatcher.max_concurrent_wallets)

  abbrev Stays : {A : Type 0} → M A → Type 0
  Stays m = (s : Run) → IsOccupied s.executing → IsOccupied (m s).1.executing

  left : (s : Run) → IsOccupied s.executing → IsOccupied (leave counts world dispatcher s).executing
  left s h = (
    keep-AreDistinct _ s.executing h.0,
    ground
        (arith, length-keep-le (λ v. not (contains v (dispatcher.ended s.step))) s.executing, h.1),
  )

  awaiting-Stays : {R : Type 0} (f : ℕ → Db → R × Db) → Stays (awaiting counts world dispatcher f)
  awaiting-Stays f s h =
      left (tx counts world f s).1 (subst IsOccupied (sym (tx-executing counts world f s)) h)

  then-Stays :
      {A B : Type 0} (m : M A) (f : A → M B) → Stays m → ((a : A) → Stays (f a)) → Stays (m >>= f)
  then-Stays {A = A} m f h k s g = next (m s).0 (m s).1 (h s g)
    where
      next :
          (o : Outcome A) (s : Run)
          → IsOccupied s.executing
          → IsOccupied (and_then f o s).1.executing
      next (ok a) s g = k a s g
      next (thrown e) s g = g
      next returned s g = g

  catch-Stays :
      {A : Type 0} (m : M A) (f : JobError → M A)
      → Stays m
      → ((e : JobError) → Stays (f e))
      → Stays (catch m f)
  catch-Stays {A = A} m f h k s g = next (m s).0 (m s).1 (h s g)
    where
      next :
          (o : Outcome A) (s : Run)
          → IsOccupied s.executing
          → IsOccupied (recover f o s).1.executing
      next (ok a) s g = g
      next (thrown e) s g = k e s g
      next returned s g = g

  -- Room for one more wallet.
  abbrev HasRoom : ℕ → List ℕ → Type 0
  HasRoom wallet ws =
      AreDistinct ws
      × (contains wallet ws ≡ false)
      × (length ws < dispatcher.max_concurrent_wallets)

  left_room :
      (wallet : ℕ) (s : Run)
      → HasRoom wallet s.executing
      → HasRoom wallet (leave counts world dispatcher s).executing
  left_room wallet s h =
      let p : ℕ → Bool = λ v. not (contains v (dispatcher.ended s.step)) in
      (
        keep-AreDistinct p s.executing h.0,
        keep-contains wallet p s.executing h.1,
        ground (arith, length-keep-le p s.executing, h.2),
      )

  -- What starts a wallet's work, if it has room.
  abbrev Starts : ℕ → M (Unit {0}) → Type 0
  Starts wallet m = (s : Run) → HasRoom wallet s.executing → IsOccupied (m s).1.executing

  room-IsOccupied : (wallet : ℕ) (ws : List ℕ) → HasRoom wallet ws → IsOccupied ws
  room-IsOccupied wallet ws h = (h.0, ground (arith, h.2))

  pure-Starts : (wallet : ℕ) → Starts wallet (pure tt)
  pure-Starts wallet s h = room-IsOccupied wallet s.executing h

  spawn-Starts :
      (wallet : ℕ) (task : Task) → Starts wallet (spawn counts world dispatcher wallet task)
  unfolding spawn
  spawn-Starts wallet task s h =
      if_ind (λ (m : M (Unit {0})). IsOccupied (m s).1.executing) (dispatcher.still_running s.step)
        (λ e. ((h.1, h.0), ground (arith, h.2))) (λ e. pure-Starts wallet s h)

  start_stays :
      {R : Type 0} (wallet : ℕ) (f : ℕ → Db → R × Db) (k : R → M (Unit {0}))
      → ((r : R) → Starts wallet (k r))
      → Starts wallet (awaiting counts world dispatcher f >>= k)
  start_stays {R = R} wallet f k starts s h =
      next (awaiting counts world dispatcher f s).0 (awaiting counts world dispatcher f s).1 (
        left_room wallet (tx counts world f s).1
          (subst (HasRoom wallet) (sym (tx-executing counts world f s)) h))
    where
      next :
          (o : Outcome R) (s : Run)
          → HasRoom wallet s.executing
          → IsOccupied (and_then k o s).1.executing
      next (ok r) s g = starts r s g
      next (thrown e) s g = room-IsOccupied wallet s.executing g
      next returned s g = room-IsOccupied wallet s.executing g

  guarded-Stays :
      (wallet : ℕ) (skip : Bool) (m rest : M (Unit {0})) (s : Run)
      → (skip ≡ false → contains wallet s.executing ≡ false)
      → Starts wallet m
      → Stays rest
      → IsOccupied s.executing
      → IsOccupied
          ((if not (may_start counts world dispatcher s)
              then pure tt
              else if skip
              then rest
              else m >> rest)
            s).1.executing
  guarded-Stays wallet skip m rest s free starts stays h =
      let P : M (Unit {0}) → Type 0 = λ m. IsOccupied (m s).1.executing in
      if_ind P (not (may_start counts world dispatcher s)) (λ e. h)
        (λ may.
          if_ind P skip (λ e. stays s h)
            (λ e. started (m s).0 (m s).1 (starts s (h.0, free e, ground (arith, may)))))
    where
      started :
          (o : Outcome (Unit {0})) (s : Run)
          → IsOccupied s.executing
          → IsOccupied (and_then (λ _. rest) o s).1.executing
      started (ok a) s g = stays s g
      started (thrown e) s g = g
      started returned s g = g

  orphan-Starts :
      (wallet : ℕ) (o : Option JobRow)
      → Starts wallet (spawn_orphan counts world dispatcher wallet o)
  orphan-Starts wallet none = pure-Starts wallet
  orphan-Starts wallet (some job) = spawn-Starts wallet (reconciles job)

  job-Starts :
      (wallet : ℕ) (job : JobRow) (b : Bool)
      → Starts wallet (spawn_job counts world dispatcher wallet job b)
  job-Starts wallet job true = spawn-Starts wallet (executes job)
  job-Starts wallet job false = pure-Starts wallet

  reconcile_orphaned_submissions-Stays :
      (wallets : List ℕ) → Stays (reconcile_orphaned_submissions counts world dispatcher wallets)
  unfolding reconcile_orphaned_submissions
  reconcile_orphaned_submissions-Stays [] s h = h
  reconcile_orphaned_submissions-Stays (wallet ∷ wallets) s h =
      guarded-Stays wallet (contains wallet s.executing) _ _ s (λ e. e)
        (start_stays wallet (take_orphan counts world dispatcher wallet) _ (orphan-Starts wallet))
        (reconcile_orphaned_submissions-Stays wallets) h

  dispatch-Stays : (jobs : List (ℕ × JobRow)) → Stays (dispatch counts world dispatcher jobs)
  unfolding dispatch
  dispatch-Stays [] s h = h
  dispatch-Stays ((wallet, job) ∷ jobs) s h =
      guarded-Stays wallet (contains wallet s.executing || not (contains wallet dispatcher.wallets))
        _ _ s (λ e. ground (arith, e))
        (start_stays wallet (claim_wallet counts world dispatcher wallet) _ (job-Starts wallet job))
        (dispatch-Stays jobs) h

  dispatch_tick-Stays : Stays (dispatch_tick counts world dispatcher)
  unfolding dispatch_tick
  dispatch_tick-Stays =
      let find : M (List JobRow) =
        awaiting counts world dispatcher (λ now db. (find_due_jobs now db, db)) in
      let go : List JobRow → M (Unit {0}) =
        λ due. dispatch counts world dispatcher (next_per_wallet due) in
      then-Stays (reconcile_orphaned_submissions counts world dispatcher dispatcher.wallets)
        (λ a. find >>= go) (reconcile_orphaned_submissions-Stays dispatcher.wallets)
        (λ a.
          then-Stays find go (awaiting-Stays (λ now db. (find_due_jobs now db, db)))
            (λ due. dispatch-Stays (next_per_wallet due)))

  -- One wallet, one work: if no wallet is executing twice and at most `maxConcurrentWallets` are, then
  -- the same holds after a dispatch round, whatever ends, fails or is stopped meanwhile.
  pub tick_safe-IsOccupied :
      (s : Run)
      → IsOccupied s.executing
      → IsOccupied (tick_safe counts world dispatcher s).1.executing
  unfolding tick_safe
  tick_safe-IsOccupied s h =
      if_ind (λ (m : M (Unit {0})). IsOccupied (m s).1.executing) (dispatcher.still_running s.step)
        (λ e.
          catch-Stays (dispatch_tick counts world dispatcher) ignore dispatch_tick-Stays
            (λ e s g. g) s h)
        (λ e. h)
