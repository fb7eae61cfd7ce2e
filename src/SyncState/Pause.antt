-- ===== src/SyncState/Pause.antt =====
-- A paused crawler, by an operator or for a poison block, stands still on every instance.
use odatano.Base.{ℕ, ◌≡◌, refl, Bool, true, false, Option, none, some, List, [], ◌∷◌, arith}
use odatano.SyncState.{
  SyncCursor, try_acquire_crawler_lease, renew_crawler_lease, release_crawler_lease,
  set_crawler_desired_running, latch_poison_block,
}
use odatano.SyncState.Cursor.{
  advance_cursor, try_acquire_import_lease, renew_import_lease, release_import_lease,
  set_utxo_set_state, set_sync_status, record_error,
}
use odatano.SyncState.Operations.{
  Op, acquires, imports, renews, renews_import, releases, releases_import, switches, latches,
  advances, records, sets_utxo_set, resets, sets_status, step, run,
}

-- The operations that only the leader of a running crawler may do.
abbrev pub is_led : Op → Bool
is_led (acquires seen who now ttl) = true
is_led (renews who now ttl) = true
is_led (advances block tip status applied who now ttl) = true
is_led (records message who now ttl) = true
is_led _ = false

-- Neither a resume nor a rollback of the cursor.
abbrev pub keeps_pause : Op → Bool
keeps_pause (switches true) = false
keeps_pause (resets p now) = false
keeps_pause _ = true

-- The cursor stands at a block, with an error streak.
module _ (slot height streak : ℕ) (hash : Option ℕ) where
  abbrev pub IsPaused : Option SyncCursor → Type 0
  IsPaused none = Unit
  IsPaused (some c) =
      (c.desired_running ≡ false)
      × (c.last_slot ≡ slot)
      × (c.last_block_hash ≡ hash)
      × (c.last_height ≡ height)
      × (c.consecutive_errors ≡ streak)

  pub step-IsPaused :
      (o : Op) (s : Option SyncCursor)
      → keeps_pause o ≡ true
      → IsPaused s
      → IsPaused (step o s).1 × (is_led o ≡ true → (step o s).0 ≡ false)
  unfolding try_acquire_crawler_lease renew_crawler_lease release_crawler_lease
      set_crawler_desired_running latch_poison_block advance_cursor try_acquire_import_lease
      renew_import_lease release_import_lease set_utxo_set_state set_sync_status record_error
  step-IsPaused (acquires none who now ttl) s k h = (h, λ e. refl)
  step-IsPaused (acquires (some seen) who now ttl) none k h = ground arith
  step-IsPaused (acquires (some seen) who now ttl) (some c) k h = ground arith
  step-IsPaused (imports none who now ttl) s k h = ground arith
  step-IsPaused (imports (some seen) who now ttl) none k h = ground arith
  step-IsPaused (imports (some seen) who now ttl) (some c) k h = ground arith
  step-IsPaused (renews who now ttl) none k h = ground arith
  step-IsPaused (renews who now ttl) (some c) k h = ground arith
  step-IsPaused (renews_import who now ttl) none k h = ground arith
  step-IsPaused (renews_import who now ttl) (some c) k h = ground arith
  step-IsPaused (releases who status pause) none k h = ground arith
  step-IsPaused (releases who status pause) (some c) k h = ground arith
  step-IsPaused (releases_import who) none k h = ground arith
  step-IsPaused (releases_import who) (some c) k h = ground arith
  step-IsPaused (switches true) s k h = ground arith
  step-IsPaused (switches false) none k h = ground arith
  step-IsPaused (switches false) (some c) k h = ground arith
  step-IsPaused (latches message now) none k h = ground arith
  step-IsPaused (latches message now) (some c) k h = ground arith
  step-IsPaused (advances block tip status applied who now ttl) none k h = ground arith
  step-IsPaused (advances block tip status applied who now ttl) (some c) k h = ground arith
  step-IsPaused (records message who now ttl) none k h = ground arith
  step-IsPaused (records message who now ttl) (some c) k h = ground arith
  step-IsPaused (sets_utxo_set p) none k h = ground arith
  step-IsPaused (sets_utxo_set p) (some c) k h = ground arith
  step-IsPaused (resets p now) s k h = ground arith
  step-IsPaused (sets_status status pause) none k h = ground arith
  step-IsPaused (sets_status status pause) (some c) k h = ground arith

  abbrev pub KeepPause : List Op → Type 0
  KeepPause [] = Unit
  KeepPause (o ∷ os) = (keeps_pause o ≡ true) × KeepPause os

  -- No led operation of the list is granted.
  abbrev pub NoneLed : List Op → Option SyncCursor → Type 0
  NoneLed [] s = Unit
  NoneLed (o ∷ os) s = (is_led o ≡ true → (step o s).0 ≡ false) × NoneLed os (step o s).1

  -- While the crawler is paused and nobody resumes it or rolls its cursor back, no instance acquires
  -- or renews the crawler's lease, advances the cursor or counts an error, whatever is done in
  -- whatever order, and the cursor and its error streak stay as they are.
  pub stopped_crawler_stands_still :
      (os : List Op) (s : Option SyncCursor)
      → IsPaused s
      → KeepPause os
      → IsPaused (run os s) × NoneLed os s
  stopped_crawler_stands_still [] s h k = (h, tt)
  stopped_crawler_stands_still (o ∷ os) s h k =
      let (next, refused) = step-IsPaused o s k.0 h in
      let (later, none_led) = stopped_crawler_stands_still os (step o s).1 next k.1 in
      (later, (refused, none_led))
