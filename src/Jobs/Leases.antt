-- ===== src/Jobs/Leases.antt =====
-- The lease of a wallet: one instance at a time runs its jobs, and no other fails them as orphans.
use odatano.Base.{
  ℕ, ◌+◌, ◌<◌, ◌≡◌, ◌≢◌, refl, sym, subst, ◌∙◌, ◌⊎◌, inl, inr, Bool, true, false, Option, none,
  some, List, [], ◌∷◌, ◌++◌, arith, Bool-cases, Option-cases, if_ind, any, keep, ◌==◌, same_id,
}
use odatano.Base.Table.{select_one, update_where}
use odatano.Lease.{held_by_other, claim, extend, release, is_after}
use odatano.Jobs.{
  JobStatus, pending, building, submitting, submitted, confirmed, failed, cancelled, active,
  as_building, as_submitting, as_submitted, as_requeued, as_confirmed, as_failed, as_cancelled,
  JobRow, WalletRow, Db, guarded_transition, mark_building, mark_submitting, mark_submitted,
  requeue_for_retry, mark_confirmed, mark_failed, mark_cancelled, release_dedup_claim,
  record_confirmation_point, clear_confirmation_point,
}
use odatano.Jobs.Wallets.{
  Registration, Outcome, has_wallet_id, read_wallet, wallet_lease_held, upsert_wallet, bump_wallet,
  refreshed, new_wallet, bumped, job_confirmed, job_failed, upsert_wallet_registration,
  try_acquire_wallet_lease, renew_wallet_lease, release_wallet_lease, bump_wallet_stats,
}
use odatano.Jobs.Creation.{InsertJobArgs, InsertResult, insert_row, new_job, clashes, has_status}
use odatano.Jobs.Recovery.{
  fail_each, is_building_of, wallets_of, fail_orphaned_building_jobs, fail_wallets,
  recover_interrupted_jobs,
}
use odatano.Jobs.Operations.{
  Op, apply, run, inserts, marks_building, marks_submitting, marks_submitted, requeues,
  marks_confirmed, marks_failed, marks_cancelled, frees_key, records_point, clears_point,
  fails_orphans, recovers, registers, acquires, renews, releases, bumps,
}

guarded-wallets :
    (counts : Bool) (id : ℕ) (from : List JobStatus) (target : JobStatus) (set : JobRow → JobRow)
    (d : Db)
    → (guarded_transition counts id from target set d).1.wallets ≡ d.wallets
unfolding guarded_transition
guarded-wallets true id from target set d = refl
guarded-wallets false id from target set d = refl

fail_each-wallets : (now : ℕ) (rs : List JobRow) (d : Db) → (fail_each now rs d).wallets ≡ d.wallets
unfolding fail_each
fail_each-wallets now [] d = refl
fail_each-wallets now (r ∷ rs) d = fail_each-wallets now rs _

orphans-wallets : (w now : ℕ) (d : Db) → (fail_orphaned_building_jobs w now d).1.wallets ≡ d.wallets
unfolding fail_orphaned_building_jobs
orphans-wallets w now d =
    if_ind (λ (p : ℕ × Db). p.1.wallets ≡ d.wallets) (wallet_lease_held (read_wallet w d) now)
      (λ e. refl) (λ e. fail_each-wallets now (keep (is_building_of w) d.jobs) d)

fail_wallets-wallets :
    (now : ℕ) (ws : List ℕ) (d : Db) → (fail_wallets now ws d).1.wallets ≡ d.wallets
fail_wallets-wallets now [] d = refl
fail_wallets-wallets now (w ∷ ws) d =
    fail_wallets-wallets now ws (fail_orphaned_building_jobs w now d).1 ∙ orphans-wallets w now d

insert_row-wallets :
    (a : InsertJobArgs) (c : Option ℕ) (id now : ℕ) (d : Db)
    → (insert_row a c id now d).1.wallets ≡ d.wallets
unfolding insert_row
insert_row-wallets a c id now d =
    if_ind (λ (p : InsertResult × Db). p.1.wallets ≡ d.wallets)
      (any (clashes (new_job a c id now)) d.jobs) (λ e. refl) (λ e. refl)

-- Instance `me` holds the lease of wallet `w` until `deadline`.
module _ (w me deadline : ℕ) where
  abbrev pub IsMine : Option WalletRow → Type 0
  IsMine none = ⊥
  IsMine (some r) = (r.lease.owner ≡ some me) × (r.lease.until ≡ some deadline)

  -- Another instance's operation, before the deadline. An acquisition may have read the row earlier,
  -- if not at a time when this instance's lease had run out.
  abbrev pub IsForeign : Op → Type 0
  IsForeign (acquires none v who now ttl) = Unit
  IsForeign (acquires (some seen) v who now ttl) =
      (v ≢ w) ⊎ ((who ≢ me) × (seen.lease.owner ≡ some me → is_after seen.lease.until now ≡ true))
  IsForeign (renews v who now ttl) = (v ≢ w) ⊎ (who ≢ me)
  IsForeign (releases v who) = (v ≢ w) ⊎ (who ≢ me)
  IsForeign o = Unit

  abbrev pub AllForeign : List Op → Type 0
  AllForeign [] = Unit
  AllForeign (o ∷ os) = IsForeign o × AllForeign os

  IsMine-kept :
      (v : ℕ) (f : WalletRow → WalletRow)
      → ((r : WalletRow) → (f r).wallet_id ≡ r.wallet_id)
      → (v ≡ w → (r : WalletRow) → IsMine (some r) → IsMine (some (f r)))
      → (ws : List WalletRow) → IsMine (select_one (has_wallet_id w) ws)
      → IsMine (select_one (has_wallet_id w) (update_where (has_wallet_id v) f ws))
  IsMine-kept v f keeps_id keeps [] h = h
  IsMine-kept v f keeps_id keeps (r ∷ ws) h = elim (Bool-cases (r.wallet_id == v)) [
    | inl e ↦
        ground
          (arith, keeps_id r, λ (same : v ≡ w). keeps same r, IsMine-kept v f keeps_id keeps ws)
    | inr e ↦ ground (arith, IsMine-kept v f keeps_id keeps ws)
  ]

  -- An append does not hide the row.
  IsMine-append :
      (ws us : List WalletRow)
      → IsMine (select_one (has_wallet_id w) ws)
      → IsMine (select_one (has_wallet_id w) (ws ++ us))
  IsMine-append [] us h = absurd h
  IsMine-append (r ∷ ws) us h = ground (arith, IsMine-append ws us)

  claim_refused :
      (s r : WalletRow) (v who now ttl : ℕ)
      → IsForeign (acquires (some s) v who now ttl)
      → held_by_other s.lease who now ≡ false
      → v ≡ w
      → IsMine (some r)
      → IsMine (some (record r { lease = claim s.lease.owner who (now + ttl) r.lease }))
  claim_refused s r v who now ttl (inl apart) g same m = absurd (apart same)
  claim_refused s r v who now ttl (inr (ne, live)) g same m =
      elim (Bool-cases (same_id r.lease.owner s.lease.owner)) [
        | inl e ↦
            let owner : s.lease.owner ≡ some me = ground (arith, e) in
            ground (arith, live owner, ne, owner)
        | inr e ↦ ground (arith, e, m)
      ]

  acquire-IsMine :
      (seen : Option WalletRow) (v who now ttl : ℕ) (d : Db)
      → IsForeign (acquires seen v who now ttl)
      → IsMine (read_wallet w d)
      → IsMine (read_wallet w (try_acquire_wallet_lease seen v who now ttl d).1)
  unfolding try_acquire_wallet_lease
  acquire-IsMine none v who now ttl d f h = h
  acquire-IsMine (some s) v who now ttl d f h =
      if_ind (λ (p : Bool × Db). IsMine (read_wallet w p.1)) s.enabled
        (λ e.
          if_ind (λ (p : Bool × Db). IsMine (read_wallet w p.1)) (held_by_other s.lease who now)
            (λ g. h)
            (λ g.
              IsMine-kept v (λ r. record r { lease = claim s.lease.owner who (now + ttl) r.lease })
                (λ r. refl) (λ same r m. claim_refused s r v who now ttl f g same m) d.wallets h))
        (λ e. h)

  upsert-IsMine :
      (o : Option WalletRow) (g : Registration) (d : Db)
      → IsMine (read_wallet w d)
      → IsMine (read_wallet w (upsert_wallet o g d))
  upsert-IsMine none g d h = IsMine-append d.wallets (new_wallet g ∷ []) h
  upsert-IsMine (some r) g d h =
      IsMine-kept g.wallet_id (refreshed g) (λ r. refl) (λ same r m. m) d.wallets h

  bumped-IsMine :
      (o : Outcome) (now : ℕ) (seen r : WalletRow)
      → ((bumped o now seen r).wallet_id ≡ r.wallet_id) × ((bumped o now seen r).lease ≡ r.lease)
  bumped-IsMine job_confirmed now seen r = (refl, refl)
  bumped-IsMine job_failed now seen r = (refl, refl)

  bump-IsMine :
      (s : Option WalletRow) (v : ℕ) (o : Outcome) (now : ℕ) (d : Db)
      → IsMine (read_wallet w d)
      → IsMine (read_wallet w (bump_wallet s v o now d))
  bump-IsMine none v o now d h = h
  bump-IsMine (some s) v job_confirmed now d h =
      IsMine-kept v (bumped job_confirmed now s) (λ r. refl) (λ same r m. m) d.wallets h
  bump-IsMine (some s) v job_failed now d h =
      IsMine-kept v (bumped job_failed now s) (λ r. refl) (λ same r m. m) d.wallets h

  same_wallets :
      (ws us : List WalletRow)
      → us ≡ ws
      → IsMine (select_one (has_wallet_id w) ws)
      → IsMine (select_one (has_wallet_id w) us)
  same_wallets ws us e h = subst (λ x. IsMine (select_one (has_wallet_id w) x)) (sym e) h

  apply-IsMine :
      (counts : Bool) (o : Op) (d : Db)
      → IsForeign o
      → IsMine (read_wallet w d)
      → IsMine (read_wallet w (apply counts o d))
  unfolding mark_building mark_submitting mark_submitted requeue_for_retry mark_confirmed
      mark_failed mark_cancelled release_dedup_claim record_confirmation_point
      clear_confirmation_point renew_wallet_lease release_wallet_lease recover_interrupted_jobs
      upsert_wallet_registration bump_wallet_stats
  apply-IsMine counts (inserts a c id now) d f h =
      same_wallets d.wallets _ (insert_row-wallets a c id now d) h
  apply-IsMine counts (marks_building id n) d f h =
      same_wallets d.wallets _ (guarded-wallets counts id (pending ∷ []) building (as_building n) d)
        h
  apply-IsMine counts (marks_submitting id x u s fee now) d f h =
      same_wallets d.wallets _
        (guarded-wallets counts id (building ∷ []) submitting (as_submitting x u s fee now) d) h
  apply-IsMine counts (marks_submitted id x) d f h =
      same_wallets d.wallets _
        (guarded-wallets counts id (submitting ∷ []) submitted (as_submitted x) d) h
  apply-IsMine counts (requeues id m t) d f h =
      same_wallets d.wallets _
        (guarded-wallets counts id (building ∷ []) pending (as_requeued m t) d) h
  apply-IsMine counts (marks_confirmed id now) d f h =
      same_wallets d.wallets _
        (guarded-wallets counts id (submitted ∷ []) confirmed (as_confirmed now) d) h
  apply-IsMine counts (marks_failed id c m now) d f h =
      same_wallets d.wallets _ (guarded-wallets counts id active failed (as_failed id c m now) d) h
  apply-IsMine counts (marks_cancelled id now) d f h =
      same_wallets d.wallets _
        (guarded-wallets counts id (pending ∷ []) cancelled (as_cancelled id now) d) h
  apply-IsMine counts (frees_key id) d f h = h
  apply-IsMine counts (records_point id s x) d f h = h
  apply-IsMine counts (clears_point id) d f h = h
  apply-IsMine counts (fails_orphans v now) d f h =
      same_wallets d.wallets _ (orphans-wallets v now d) h
  apply-IsMine counts (recovers now) d f h =
      same_wallets d.wallets _
        (fail_wallets-wallets now (wallets_of (keep (has_status building) d.jobs)) d) h
  apply-IsMine counts (registers g) d f h = upsert-IsMine (read_wallet g.wallet_id d) g d h
  apply-IsMine counts (acquires seen v who now ttl) d f h = acquire-IsMine seen v who now ttl d f h
  apply-IsMine counts (renews v who now ttl) d f h =
      IsMine-kept v (λ r. record r { lease = extend who (now + ttl) r.lease }) (λ r. refl)
        (λ same r m. ground arith) d.wallets h
  apply-IsMine counts (releases v who) d f h =
      IsMine-kept v (λ r. record r { lease = release who r.lease }) (λ r. refl)
        (λ same r m. ground arith) d.wallets h
  apply-IsMine counts (bumps v o now) d f h = bump-IsMine (read_wallet v d) v o now d h

  run-IsMine :
      (counts : Bool) (os : List Op) (d : Db)
      → AllForeign os
      → IsMine (read_wallet w d)
      → IsMine (read_wallet w (run counts os d))
  run-IsMine counts [] d f h = h
  run-IsMine counts (o ∷ os) d f h =
      run-IsMine counts os (apply counts o d) f.1 (apply-IsMine counts o d f.0 h)

  -- While an instance's lease on a wallet runs, whatever else is done with jobs, wallets and recovery,
  -- by any other instance in any order, leaves that lease, if no acquisition rests on an earlier read
  -- of the lease at a time when that had run out; and before its deadline, no other instance
  -- acquires the lease that it reads, and no recovery fails a job of the wallet as an orphan.
  pub lease_protects_wallet :
      (counts : Bool) (os : List Op) (d : Db) (who now ttl : ℕ)
      → IsMine (read_wallet w d)
      → AllForeign os
      → who ≢ me
      → now < deadline
      → let d' = run counts os d in
        IsMine (read_wallet w d')
        × (try_acquire_wallet_lease (read_wallet w d') w who now ttl d' ≡ (false, d'))
        × (fail_orphaned_building_jobs w now d' ≡ (0, d'))
  unfolding try_acquire_wallet_lease fail_orphaned_building_jobs
  lease_protects_wallet counts os d who now ttl h f ne early =
      let d' = run counts os d in
      let mine = run-IsMine counts os d f h in
      elim (Option-cases (read_wallet w d')) [
        | inl nothing ↦ ground (arith, mine)
        | inr (r, found) ↦ ground (arith, found, mine)
      ]
