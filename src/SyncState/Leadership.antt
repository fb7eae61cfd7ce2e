-- ===== src/SyncState/Leadership.antt =====
-- One instance leads the crawler or runs an import: the others neither move nor take the cursor.
use odatano.Base.{
  ℕ, ◌≡◌, ◌≢◌, refl, Bool, true, false, Option, none, some, List, [], ◌∷◌, arith, Bool-cases, inl,
  inr, same_id,
}
use odatano.Lease.{is_after}
use odatano.SyncState.{
  SyncCursor, try_acquire_crawler_lease, renew_crawler_lease, release_crawler_lease,
  set_crawler_desired_running, latch_poison_block,
}
use odatano.SyncState.Cursor.{
  advance_cursor, try_acquire_import_lease, renew_import_lease, release_import_lease,
  set_utxo_set_state, set_sync_status, record_error,
}
use odatano.SyncState.Operations.{
  Op, acquires, imports, renews, renews_import, releases, releases_import, switches, latches,
  advances, records, sets_utxo_set, resets, sets_status, step, run,
}

-- Needs the lease.
abbrev pub needs_lease : Op → Bool
needs_lease (acquires seen who now ttl) = true
needs_lease (imports seen who now ttl) = true
needs_lease (renews who now ttl) = true
needs_lease (renews_import who now ttl) = true
needs_lease (advances block tip status applied who now ttl) = true
needs_lease (records message who now ttl) = true
needs_lease _ = false

-- Instance `me` holds the lease until `deadline`, and the cursor stands at a block.
module _ (me deadline slot height : ℕ) (hash : Option ℕ) where
  abbrev pub IsMine : Option SyncCursor → Type 0
  IsMine none = ⊥
  IsMine (some c) =
      (c.lease.owner ≡ some me)
      × (c.lease.until ≡ some deadline)
      × (c.last_slot ≡ slot)
      × (c.last_block_hash ≡ hash)
      × (c.last_height ≡ height)

  -- The instance acts for itself, and has not read the row when this instance's lease had run out.
  abbrev pub Awaits : Option SyncCursor → ℕ → ℕ → Type 0
  Awaits none who now = Unit
  Awaits (some seen) who now =
      (who ≢ me) × (seen.lease.owner ≡ some me → is_after seen.lease.until now ≡ true)

  -- Another instance's operation, before the deadline; a rollback is the leader's alone.
  abbrev pub IsForeign : Op → Type 0
  IsForeign (acquires seen who now ttl) = Awaits seen who now
  IsForeign (imports seen who now ttl) = Awaits seen who now
  IsForeign (renews who now ttl) = who ≢ me
  IsForeign (renews_import who now ttl) = who ≢ me
  IsForeign (releases who status pause) = who ≢ me
  IsForeign (releases_import who) = who ≢ me
  IsForeign (advances block tip status applied who now ttl) = who ≢ me
  IsForeign (records message who now ttl) = who ≢ me
  IsForeign (resets p now) = ⊥
  IsForeign _ = Unit

  pub Refused : Op → Option SyncCursor → Type 0
  Refused o s = IsMine (step o s).1 × (needs_lease o ≡ true → (step o s).0 ≡ false)

  acquire-Refused :
      (seen c : SyncCursor) (who now ttl : ℕ)
      → Awaits (some seen) who now
      → IsMine (some c)
      → Refused (acquires (some seen) who now ttl) (some c)
        × Refused (imports (some seen) who now ttl) (some c)
  unfolding try_acquire_crawler_lease try_acquire_import_lease Refused
  acquire-Refused seen c who now ttl (ne, live) h =
      elim (Bool-cases (same_id c.lease.owner seen.lease.owner)) [
        | inl e ↦
            let owner : seen.lease.owner ≡ some me = ground (arith, e) in
            ground (arith, live owner, ne, owner)
        | inr e ↦ ground (arith, e, h, ne)
      ]

  pub step_foreign : (o : Op) (s : Option SyncCursor) → IsForeign o → IsMine s → Refused o s
  unfolding try_acquire_crawler_lease renew_crawler_lease release_crawler_lease
      set_crawler_desired_running latch_poison_block advance_cursor try_acquire_import_lease
      renew_import_lease release_import_lease set_utxo_set_state set_sync_status record_error
      Refused
  step_foreign o none f h = absurd h
  step_foreign (acquires none who now ttl) (some c) f h = (h, λ e. refl)
  step_foreign (acquires (some seen) who now ttl) (some c) f h =
      (acquire-Refused seen c who now ttl f h).0
  step_foreign (imports none who now ttl) (some c) f h = (h, λ e. refl)
  step_foreign (imports (some seen) who now ttl) (some c) f h =
      (acquire-Refused seen c who now ttl f h).1
  step_foreign (renews who now ttl) (some c) f h = ground arith
  step_foreign (renews_import who now ttl) (some c) f h = ground arith
  step_foreign (releases who status pause) (some c) f h = ground arith
  step_foreign (releases_import who) (some c) f h = ground arith
  step_foreign (switches true) (some c) f h = ground arith
  step_foreign (switches false) (some c) f h = ground arith
  step_foreign (latches message now) (some c) f h = ground arith
  step_foreign (advances block tip status applied who now ttl) (some c) f h = ground arith
  step_foreign (records message who now ttl) (some c) f h = ground arith
  step_foreign (sets_utxo_set p) (some c) f h = ground arith
  step_foreign (resets p now) (some c) f h = absurd f
  step_foreign (sets_status status pause) (some c) f h = ground arith

  abbrev pub AllForeign : List Op → Type 0
  AllForeign [] = Unit
  AllForeign (o ∷ os) = IsForeign o × AllForeign os

  -- No operation of the list that needs the lease is granted.
  abbrev pub NoneGranted : List Op → Option SyncCursor → Type 0
  NoneGranted [] s = Unit
  NoneGranted (o ∷ os) s =
      (needs_lease o ≡ true → (step o s).0 ≡ false) × NoneGranted os (step o s).1

  -- While one instance's lease runs, whatever other instances try in whatever order, crawls and
  -- imports alike, none of them acquires or renews a lease, advances the cursor or counts an error;
  -- the lease and the cursor's block stay as they are. Pauses by an operator are among the operations;
  -- rollbacks, which are the leader's, are not, nor acquisitions that rest on an earlier read of the
  -- lease at a time when that had run out.
  pub others_cannot_move_cursor :
      (os : List Op) (s : Option SyncCursor)
      → IsMine s
      → AllForeign os
      → IsMine (run os s) × NoneGranted os s
  unfolding Refused
  others_cannot_move_cursor [] s h f = (h, tt)
  others_cannot_move_cursor (o ∷ os) s h f =
      let (next, refused) = step_foreign o s f.0 h in
      let (later, none_granted) = others_cannot_move_cursor os (step o s).1 next f.1 in
      (later, (refused, none_granted))
