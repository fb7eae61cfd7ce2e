-- ===== src/SyncState/Cursor.antt =====
-- srv/blockchain/crawler/sync-state.ts: the advance of the cursor, the import's use of the lease, the
-- anchor of the UTxO set, rollback, status and the error streak.
use odatano.Base.{ℕ, ◌+◌, Bool, true, false, Option, none, some, leb, or_default, if◌then◌else◌}
use odatano.Lease.{held_by_other, claim, extend, release}
use odatano.SyncState.{
  SyncStatus, syncing, error, UtxoSetStatus, UtxoSetState, CrawlPoint, SyncCursor, on_row,
  lease_deadline_reached, import_lease_held, leads, renew_crawler_lease, max_consecutive_errors,
}

-- The argument `tip` of `advanceCursor`.
pub record Tip : Type 0 where
  pub slot : ℕ
  pub height : Option ℕ

abbrev pub or_else : Option ℕ → Option ℕ → Option ℕ
or_else none old = old
or_else (some n) old = some n

abbrev pub with_tip : Option Tip → SyncCursor → SyncCursor
with_tip none c = c
with_tip (some t) c = record c {
  tip_slot = some t.slot;
  tip_height = or_else t.height c.tip_height;
}

-- The argument `extra`: the crawler writes the slot that its ledger has applied, or nothing.
abbrev pub with_applied : Option ℕ → UtxoSetState → UtxoSetState
with_applied none u = u
with_applied (some slot) u = record u { applied_slot = some slot }

abbrev pub advanced : CrawlPoint → Option Tip → SyncStatus → Option ℕ → ℕ → SyncCursor → SyncCursor
advanced block tip status applied now c = with_tip tip (record c {
  last_slot = block.slot;
  last_block_hash = some block.hash;
  last_height = or_default block.height 0;
  last_indexed_at = some now;
  sync_status = status;
  consecutive_errors = 0;
  last_error = none;
  utxo_set = with_applied applied c.utxo_set;
})

abbrev pub led_advance :
    ℕ → ℕ → CrawlPoint → Option Tip → SyncStatus → Option ℕ → ℕ → SyncCursor → SyncCursor
led_advance who deadline block tip status applied now c =
    if leads who c
    then record (advanced block tip status applied now c) {
      lease = record { owner = c.lease.owner; until = some deadline };
    }
    else c

-- `advanceCursor`, without a lease and with one.
unfoldable pub advance_cursor :
    CrawlPoint
    → Option Tip
    → SyncStatus
    → Option ℕ
    → Option ℕ
    → ℕ
    → ℕ
    → Option SyncCursor
    → Bool × Option SyncCursor
advance_cursor block tip status applied none now ttl s =
    (true, on_row (advanced block tip status applied now) s)
advance_cursor block tip status applied (some who) now ttl s =
    let s' = on_row (led_advance who (now + ttl) block tip status applied now) s in
    (lease_deadline_reached s' who (now + ttl), s')

-- `tryAcquireImportLease`; `seen` is the row that its first SELECT has read.
unfoldable pub try_acquire_import_lease :
    Option SyncCursor → ℕ → ℕ → ℕ → Option SyncCursor → Bool × Option SyncCursor
try_acquire_import_lease none who now ttl s = (false, s)
try_acquire_import_lease (some seen) who now ttl s =
    if held_by_other seen.lease who now
    then (false, s)
    else (let s' =
          on_row (λ c. record c { lease = claim seen.lease.owner who (now + ttl) c.lease }) s in
        (import_lease_held s' who (now + ttl), s'))

unfoldable pub renew_import_lease : ℕ → ℕ → ℕ → Option SyncCursor → Bool × Option SyncCursor
renew_import_lease who now ttl s =
    let s' = on_row (λ c. record c { lease = extend who (now + ttl) c.lease }) s in
    (import_lease_held s' who (now + ttl), s')

unfoldable pub release_import_lease : ℕ → Option SyncCursor → Option SyncCursor
release_import_lease who s = on_row (λ c. record c { lease = release who c.lease }) s

-- `Partial<UtxoSetState>`: a field that is not given is kept.
pub record UtxoSetPatch : Type 0 where
  pub status : Option UtxoSetStatus
  pub anchor_slot : Option (Option ℕ)
  pub anchor_hash : Option (Option ℕ)
  pub imported_at : Option (Option ℕ)
  pub applied_slot : Option (Option ℕ)
  pub error_text : Option (Option ℕ)

abbrev pub patched : UtxoSetPatch → UtxoSetState → UtxoSetState
patched p u = record {
  status = or_default p.status u.status;
  anchor_slot = or_default p.anchor_slot u.anchor_slot;
  anchor_hash = or_default p.anchor_hash u.anchor_hash;
  imported_at = or_default p.imported_at u.imported_at;
  applied_slot = or_default p.applied_slot u.applied_slot;
  error_text = or_default p.error_text u.error_text;
}

unfoldable pub set_utxo_set_state : UtxoSetPatch → Option SyncCursor → Option SyncCursor
set_utxo_set_state p s = on_row (λ c. record c { utxo_set = patched p c.utxo_set }) s

unfoldable pub reset_cursor_to : CrawlPoint → ℕ → Option SyncCursor → Option SyncCursor
reset_cursor_to p now s =
    on_row
      (λ c. record c {
        last_slot = p.slot;
        last_block_hash = some p.hash;
        last_height = or_default p.height 0;
        last_indexed_at = some now;
      })
      s

unfoldable pub set_sync_status : SyncStatus → Bool → Option SyncCursor → Option SyncCursor
set_sync_status status pause s =
    on_row
      (λ c. record c {
        sync_status = status;
        desired_running = (if pause then false else c.desired_running);
      })
      s

abbrev pub streak_of : Option SyncCursor → ℕ
streak_of none = 0
streak_of (some c) = c.consecutive_errors

abbrev pub with_error : ℕ → ℕ → ℕ → SyncCursor → SyncCursor
with_error streak message now c = record c {
  consecutive_errors = streak;
  last_error = some message;
  last_error_at = some now;
  sync_status = (if leb max_consecutive_errors streak then error else syncing);
}

abbrev pub count_error : ℕ → ℕ → Option SyncCursor → Option ℕ × Option SyncCursor
count_error message now s =
    let streak = streak_of s + 1 in (some streak, on_row (with_error streak message now) s)

-- `recordError`: the new streak, or nothing for the source's -1 when the lease is lost.
unfoldable pub record_error :
    ℕ → Option ℕ → ℕ → ℕ → Option SyncCursor → Option ℕ × Option SyncCursor
unfolding renew_crawler_lease
record_error message none now ttl s = count_error message now s
record_error message (some who) now ttl s =
    let (held, s') = renew_crawler_lease who now ttl s in
    if held then count_error message now s' else (none, s')
