-- ===== src/SyncState.antt =====
-- srv/blockchain/crawler/sync-state.ts: the crawler's cursor, a single row that all instances share,
-- with the lease that makes one of them the leader, the pause switch and the error streak. Rows are
-- typed, so `toCursor` is not modelled; hashes, networks and messages are numbers; the row may be
-- missing.
pub mod Cursor
pub mod Operations
pub mod Leadership
pub mod Pause
pub mod Streak
mod Tests
use odatano.Base.{
  ℕ, ◌+◌, Bool, true, false, Option, none, some, ◌==◌, ◌&&◌, ◌||◌, not, or_default, is_some, is_id,
  same_id, if◌then◌else◌,
}
use odatano.Lease.{Lease, free, is_after, held_by_other, deadline_reached}

pub data SyncStatus : Type 0 where
  stopped syncing synced error : SyncStatus

pub data UtxoSetStatus : Type 0 where
  no_set importing active_set invalid : UtxoSetStatus

pub record CrawlPoint : Type 0 where
  pub slot : ℕ
  pub hash : ℕ
  pub height : Option ℕ

pub record UtxoSetState : Type 0 where
  pub status : UtxoSetStatus
  pub anchor_slot : Option ℕ
  pub anchor_hash : Option ℕ
  pub imported_at : Option ℕ
  pub applied_slot : Option ℕ
  pub error_text : Option ℕ

pub record SyncCursor : Type 0 where
  pub network : ℕ
  pub start_slot : Option ℕ
  pub start_block_hash : Option ℕ
  pub last_slot : ℕ
  pub last_block_hash : Option ℕ
  pub last_height : ℕ
  pub tip_slot : Option ℕ
  pub tip_height : Option ℕ
  pub sync_status : SyncStatus
  pub consecutive_errors : ℕ
  pub last_indexed_at : Option ℕ
  pub last_error : Option ℕ
  pub last_error_at : Option ℕ
  pub desired_running : Bool
  pub lease : Lease
  pub utxo_set : UtxoSetState

-- `MAX_CONSECUTIVE_ERRORS`
abbrev pub max_consecutive_errors : ℕ
max_consecutive_errors = 10

abbrev pub no_utxo_set : UtxoSetState
no_utxo_set = record {
  status = no_set;
  anchor_slot = none;
  anchor_hash = none;
  imported_at = none;
  applied_slot = none;
  error_text = none;
}

abbrev pub slot_of : Option CrawlPoint → Option ℕ
slot_of none = none
slot_of (some p) = some p.slot

abbrev pub hash_of : Option CrawlPoint → Option ℕ
hash_of none = none
hash_of (some p) = some p.hash

abbrev pub height_of : Option CrawlPoint → ℕ
height_of none = 0
height_of (some p) = or_default p.height 0

abbrev pub new_cursor : ℕ → Option CrawlPoint → SyncCursor
new_cursor network start = record {
  network = network;
  start_slot = slot_of start;
  start_block_hash = hash_of start;
  last_slot = or_default (slot_of start) 0;
  last_block_hash = hash_of start;
  last_height = height_of start;
  tip_slot = none;
  tip_height = none;
  sync_status = stopped;
  consecutive_errors = 0;
  last_indexed_at = none;
  last_error = none;
  last_error_at = none;
  desired_running = true;
  lease = free;
  utxo_set = no_utxo_set;
}

-- `ensureSyncStateSingleton`: nothing is returned where it throws on a network mismatch.
unfoldable pub ensure_sync_state_singleton :
    ℕ → Option CrawlPoint → Option SyncCursor → Option SyncCursor × Option SyncCursor
ensure_sync_state_singleton network start none =
    (some (new_cursor network start), some (new_cursor network start))
ensure_sync_state_singleton network start (some c) =
    (if c.network == network then some c else none, some c)

-- An UPDATE of the row.
abbrev pub on_row : (SyncCursor → SyncCursor) → Option SyncCursor → Option SyncCursor
on_row f none = none
on_row f (some c) = some (f c)

-- `importLeaseHeld` and `leaseDeadlineReached`, of the row that is read back
abbrev pub import_lease_held : Option SyncCursor → ℕ → ℕ → Bool
import_lease_held none who expected = false
import_lease_held (some c) who expected = deadline_reached c.lease who expected

abbrev pub lease_deadline_reached : Option SyncCursor → ℕ → ℕ → Bool
lease_deadline_reached none who expected = false
lease_deadline_reached (some c) who expected =
    c.desired_running && deadline_reached c.lease who expected

unfoldable pub is_crawler_lease_active : Option SyncCursor → ℕ → Bool
is_crawler_lease_active none now = false
is_crawler_lease_active (some c) now =
    c.desired_running && is_some c.lease.owner && is_after c.lease.until now

abbrev pub same_switch : Bool → Bool → Bool
same_switch true b = b
same_switch false b = not b

-- The acquiring UPDATE, with the owner and the switch that the SELECT has seen in its WHERE clause.
abbrev pub claimed : SyncCursor → ℕ → ℕ → SyncCursor → SyncCursor
claimed seen who deadline c =
    if same_id c.lease.owner seen.lease.owner && same_switch c.desired_running seen.desired_running
    then record c { lease = record { owner = some who; until = some deadline } }
    else c

-- `tryAcquireCrawlerLease`; `seen` is the row that its first SELECT has read.
unfoldable pub try_acquire_crawler_lease :
    Option SyncCursor → ℕ → ℕ → ℕ → Option SyncCursor → Bool × Option SyncCursor
try_acquire_crawler_lease none who now ttl s = (false, s)
try_acquire_crawler_lease (some seen) who now ttl s =
    if not seen.desired_running || held_by_other seen.lease who now
    then (false, s)
    else (let s' = on_row (claimed seen who (now + ttl)) s in
        (lease_deadline_reached s' who (now + ttl), s'))

-- The row is the caller's, and the crawler is to run.
abbrev pub leads : ℕ → SyncCursor → Bool
leads who c = is_id c.lease.owner who && c.desired_running

abbrev pub renewed : ℕ → ℕ → SyncCursor → SyncCursor
renewed who deadline c =
    if leads who c
    then record c { lease = record { owner = c.lease.owner; until = some deadline } }
    else c

unfoldable pub renew_crawler_lease : ℕ → ℕ → ℕ → Option SyncCursor → Bool × Option SyncCursor
renew_crawler_lease who now ttl s =
    let s' = on_row (renewed who (now + ttl)) s in (lease_deadline_reached s' who (now + ttl), s')

-- `releaseCrawlerLease`; `pause` keeps the crawler down.
abbrev pub released : ℕ → SyncStatus → Bool → SyncCursor → SyncCursor
released who status pause c =
    if is_id c.lease.owner who
    then record c {
      lease = free;
      sync_status = status;
      desired_running = (if pause then false else c.desired_running);
    }
    else c

unfoldable pub release_crawler_lease : ℕ → SyncStatus → Bool → Option SyncCursor → Option SyncCursor
release_crawler_lease who status pause s = on_row (released who status pause) s

abbrev pub switched : Bool → SyncCursor → SyncCursor
switched true c = record c { desired_running = true; consecutive_errors = 0 }
switched false c = record c { desired_running = false; sync_status = stopped }

unfoldable pub set_crawler_desired_running : Bool → Option SyncCursor → Option SyncCursor
set_crawler_desired_running b s = on_row (switched b) s

unfoldable pub latch_poison_block : ℕ → ℕ → Option SyncCursor → Option SyncCursor
latch_poison_block message now s =
    on_row
      (λ c. record c {
        desired_running = false;
        sync_status = error;
        last_error = some message;
        last_error_at = some now;
      })
      s
