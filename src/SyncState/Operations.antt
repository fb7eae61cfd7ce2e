-- ===== src/SyncState/Operations.antt =====
-- srv/blockchain/crawler/sync-state.ts: every operation on the shared row as a step, with whether it
-- was granted.
use odatano.Base.{ℕ, Bool, true, Option, some, List, [], ◌∷◌, is_some}
use odatano.SyncState.{
  SyncStatus, CrawlPoint, SyncCursor, try_acquire_crawler_lease, renew_crawler_lease,
  release_crawler_lease, set_crawler_desired_running, latch_poison_block,
}
use odatano.SyncState.Cursor.{
  Tip, UtxoSetPatch, advance_cursor, try_acquire_import_lease, renew_import_lease,
  release_import_lease, set_utxo_set_state, reset_cursor_to, set_sync_status, record_error,
}

-- The operations, with the caller, the time and the TTL last where they have them. An acquisition
-- starts with the row that its SELECT has read.
pub data Op : Type 0 where
  acquires imports : Option SyncCursor → ℕ → ℕ → ℕ → Op
  renews renews_import : ℕ → ℕ → ℕ → Op
  releases : ℕ → SyncStatus → Bool → Op
  releases_import : ℕ → Op
  switches : Bool → Op
  latches : ℕ → ℕ → Op
  advances : CrawlPoint → Option Tip → SyncStatus → Option ℕ → ℕ → ℕ → ℕ → Op
  records : ℕ → ℕ → ℕ → ℕ → Op
  sets_utxo_set : UtxoSetPatch → Op
  resets : CrawlPoint → ℕ → Op
  sets_status : SyncStatus → Bool → Op

abbrev pub step : Op → Option SyncCursor → Bool × Option SyncCursor
step (acquires seen who now ttl) s = try_acquire_crawler_lease seen who now ttl s
step (imports seen who now ttl) s = try_acquire_import_lease seen who now ttl s
step (renews who now ttl) s = renew_crawler_lease who now ttl s
step (renews_import who now ttl) s = renew_import_lease who now ttl s
step (releases who status pause) s = (true, release_crawler_lease who status pause s)
step (releases_import who) s = (true, release_import_lease who s)
step (switches b) s = (true, set_crawler_desired_running b s)
step (latches message now) s = (true, latch_poison_block message now s)
step (advances block tip status applied who now ttl) s =
    advance_cursor block tip status applied (some who) now ttl s
step (records message who now ttl) s =
    let (streak, s') = record_error message (some who) now ttl s in (is_some streak, s')
step (sets_utxo_set p) s = (true, set_utxo_set_state p s)
step (resets p now) s = (true, reset_cursor_to p now s)
step (sets_status status pause) s = (true, set_sync_status status pause s)

abbrev pub run : List Op → Option SyncCursor → Option SyncCursor
run [] s = s
run (o ∷ os) s = run os (step o s).1
