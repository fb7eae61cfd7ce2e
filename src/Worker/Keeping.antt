-- ===== src/Worker/Keeping.antt =====
-- The rules of Triples.antt for the parts of an instance's work, in a given world.
use odatano.Base.{ℕ, ◌≡◌, refl, sym, subst, Bool, true, false, All, if◌then◌else◌}
use odatano.Errors.{JobError}
use odatano.Jobs.{JobErrorCode, tx_dropped, JobRow, Db, mark_confirmed, mark_failed}
use odatano.Jobs.Wallets
use odatano.Jobs.Wallets.{
  job_confirmed, job_failed, bump_wallet_stats, renew_wallet_lease, release_wallet_lease,
}
use odatano.Jobs.Operations.{marks_confirmed, marks_failed, bumps}
use odatano.Jobs.Keys.{HasUniqueKeys}
use odatano.Worker.{Run, World, Outcome, Answer, M, ok, ◌>>=◌, catch, tx, call}
use odatano.Worker.Tracker.{TrackerOptions, closed, modify}
use odatano.Worker.Execution.{fail_counted}
use odatano.Worker.Stored.{Follows, Follows-trans, Follows-apply}
use odatano.Worker.Triples.{
  IsTracked, IsFair, from_IsSound, IsOps, Triple, bind, caught, consequence, With, with_then,
  with_catch, aside, tx_keeps, call_keeps,
}

-- A world in which the others act as the job store does, with its tables at the beginning.
pub record Setting : Type 0 where
  pub is_uuid : ℕ → Bool
  pub world : World
  pub options : TrackerOptions
  pub fair : (k : ℕ) → All (IsFair is_uuid) (world.meanwhile k)
  pub start : Db
  pub uniq : HasUniqueKeys is_uuid start.jobs

module _ (z : Setting) where
  open z use {is_uuid, world, options, fair, start, uniq}

  abbrev pub Ops : {R : Type 0} → (ℕ → Db → R × Db) → Type 0
  Ops f = IsOps is_uuid start f

  abbrev pub Keeps : {A : Type 0} → M A → Type 0
  Keeps m = Triple is_uuid start (λ s. Unit) m (λ a s. Unit)

  -- A transition, and the statistics if it was made.
  counted :
      (done : Bool) (d e f : Db)
      → Follows is_uuid d e
      → Follows is_uuid e f
      → Follows is_uuid d (if done then f else e)
  counted true d e f h k = Follows-trans is_uuid d e f h k
  counted false d e f h k = h

  pub closed-Ops :
      (o : Wallets.Outcome) (id wallet : ℕ) → Ops (closed true world options o id wallet)
  closed-Ops job_confirmed id wallet now d =
      let d' = (mark_confirmed true id now d).1 in
      counted (mark_confirmed true id now d).0 d d' (bump_wallet_stats wallet job_confirmed now d')
        (Follows-apply is_uuid (marks_confirmed id now) d tt)
        (Follows-apply is_uuid (bumps wallet job_confirmed now) d' tt)
  closed-Ops job_failed id wallet now d =
      let d' = (mark_failed true id tx_dropped 0 now d).1 in
      counted (mark_failed true id tx_dropped 0 now d).0 d d'
        (bump_wallet_stats wallet job_failed now d')
        (Follows-apply is_uuid (marks_failed id tx_dropped 0 now) d tt)
        (Follows-apply is_uuid (bumps wallet job_failed now) d' tt)

  pub fail_counted-Ops :
      (job : JobRow) (code : JobErrorCode) → Ops (fail_counted true world job code)
  fail_counted-Ops job code now d =
      let d' = (mark_failed true job.id code 0 now d).1 in
      counted (mark_failed true job.id code 0 now d).0 d d'
        (bump_wallet_stats job.wallet_id job_failed now d')
        (Follows-apply is_uuid (marks_failed job.id code 0 now) d tt)
        (Follows-apply is_uuid (bumps job.wallet_id job_failed now) d' tt)

  pub then-Keeps :
      {A B : Type 0} (m : M A) (f : A → M B) → Keeps m → ((a : A) → Keeps (f a)) → Keeps (m >>= f)
  then-Keeps m f h k = bind is_uuid start (λ a s. Unit) (λ b s. Unit) f k (λ s. Unit) m h

  pub catch-Keeps :
      {A : Type 0} (m : M A) (f : JobError → M A)
      → Keeps m
      → ((e : JobError) → Keeps (f e))
      → Keeps (catch m f)
  catch-Keeps m f h k = caught is_uuid start (λ a s. Unit) f k (λ s. Unit) m h

  pub op-Keeps : {R : Type 0} (f : ℕ → Db → R × Db) → Ops f → Keeps (tx true world f)
  op-Keeps f ops = tx_keeps is_uuid start world fair f ops

  pub call_of : {A : Type 0} (f : ℕ → Answer A) → Keeps (call true world f)
  call_of f = call_keeps is_uuid start world fair f

  pub pure-Keeps : {A : Type 0} (o : Outcome A) → Keeps (λ s. (o, s))
  pure-Keeps o =
      aside is_uuid start (λ s. Unit) o (λ s. s) (λ s. (refl, refl))
        (λ s h p. (from_IsSound is_uuid start s h).2)

  -- A part that keeps the state sound while the tables have `D`.
  abbrev pub KeepsWith : {A : Type 0} → (Db → Type 0) → M A → Type 0
  KeepsWith D m = Triple is_uuid start (λ s. D s.db) m (λ a s. Unit)

  pub weakly : (D : Db → Type 0) {A : Type 0} (m : M A) → Keeps m → KeepsWith D m
  weakly D m t =
      consequence is_uuid start (λ s. Unit) (λ s. D s.db) (λ a s. Unit) (λ a s. Unit) m (λ s d. tt)
        (λ a s q. tt) t

  module _ (D : Db → Type 0) (stable : (d e : Db) → Follows is_uuid d e → D d → D e) where
    pub then-KeepsWith :
        {A B : Type 0} (m : M A) (f : A → M B)
        → KeepsWith D m
        → ((a : A) → KeepsWith D (f a))
        → KeepsWith D (m >>= f)
    unfolding With
    then-KeepsWith m f t u =
        with_then is_uuid start D stable (λ a s. Unit) (λ a s. Unit) m f t
          (λ a.
            consequence is_uuid start (λ s. D s.db) (λ s. Unit × D s.db) (λ b s. Unit) (λ b s. Unit)
              (f a) (λ s p. p.1) (λ b s q. tt) (u a))

    pub catch-KeepsWith :
        {A : Type 0} (m : M A) (handler : JobError → M A)
        → KeepsWith D m
        → ((e : JobError) → KeepsWith D (handler e))
        → KeepsWith D (catch m handler)
    unfolding With
    catch-KeepsWith m handler t u = with_catch is_uuid start D stable (λ a s. Unit) handler u m t

  -- A change of what is neither in the tables nor sent nor tracked.
  pub modify-Keeps :
      (f : Run → Run)
      → ((s : Run) → ((f s).db ≡ s.db) × ((f s).sent ≡ s.sent) × ((f s).pending ≡ s.pending))
      → Keeps (modify f)
  modify-Keeps f same =
      aside is_uuid start (λ s. Unit) (ok tt) f (λ s. ((same s).0, (same s).1))
        (λ s h p. subst (All (IsTracked s.db)) (sym (same s).2) (from_IsSound is_uuid start s h).2)

  -- A change of the tracked jobs that keeps them sound.
  pub track_keeps :
      (f : Run → Run) (P : Run → Type 0)
      → ((s : Run) → ((f s).db ≡ s.db) × ((f s).sent ≡ s.sent))
      → ((s : Run) → P s → All (IsTracked s.db) s.pending → All (IsTracked s.db) (f s).pending)
      → Triple is_uuid start P (modify f) (λ a s. Unit)
  track_keeps f P same kept =
      aside is_uuid start P (ok tt) f same (λ s h p. kept s p (from_IsSound is_uuid start s h).2)
