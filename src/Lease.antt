-- ===== src/Lease.antt =====
-- The lease columns that srv/blockchain/wallet-worker/job-store.ts and
-- srv/blockchain/crawler/sync-state.ts share: `leaseOwner`, and `leaseUntil` in milliseconds.
-- A statement of the database is one step. `claim` is the UPDATE whose WHERE clause names the owner
-- that an earlier SELECT has seen, so that other statements may stand between the two.
pub mod Exclusion
mod Tests
use odatano.Base.{
  ℕ, ◌+◌, Bool, true, false, Option, none, some, leb, ltb, ◌==◌, ◌&&◌, not, is_id, same_id,
  if◌then◌else◌,
}

pub record Lease : Type 0 where
  pub owner : Option ℕ
  pub until : Option ℕ

abbrev pub free : Lease
free = record { owner = none; until = none }

-- `deadline > now`; a lease with no deadline has run out.
abbrev pub is_after : Option ℕ → ℕ → Bool
is_after none now = false
is_after (some t) now = ltb now t

-- `leaseOwner && leaseOwner !== owner && deadline > now`
abbrev pub is_foreign : Option ℕ → ℕ → Bool
is_foreign none who = false
is_foreign (some o) who = not (o == who)

abbrev pub held_by_other : Lease → ℕ → ℕ → Bool
held_by_other l who now = is_foreign l.owner who && is_after l.until now

-- One second of tolerance for databases that round a timestamp.
abbrev pub reaches : Option ℕ → ℕ → Bool
reaches none expected = false
reaches (some t) expected = leb expected (t + 1000)

-- `leaseDeadlineReached`: the row that is read back shows the caller's lease.
abbrev pub deadline_reached : Lease → ℕ → ℕ → Bool
deadline_reached l who expected = is_id l.owner who && reaches l.until expected

-- `UPDATE … SET leaseOwner, leaseUntil WHERE leaseOwner = <seen>`
abbrev pub claim : Option ℕ → ℕ → ℕ → Lease → Lease
claim seen who deadline l =
    if same_id l.owner seen then record { owner = some who; until = some deadline } else l

-- `UPDATE … SET leaseUntil WHERE leaseOwner = <who>`
abbrev pub extend : ℕ → ℕ → Lease → Lease
extend who deadline l = if is_id l.owner who then record l { until = some deadline } else l

-- `UPDATE … SET leaseOwner = NULL, leaseUntil = NULL WHERE leaseOwner = <who>`
abbrev pub release : ℕ → Lease → Lease
release who l = if is_id l.owner who then free else l

-- `tryAcquireWalletLease` and `renewWalletLease` on the columns of a row that is there and enabled (the
-- checks of the row are in `try_acquire_wallet_lease` of Jobs/Wallets.antt). `seen` is what the acquiring
-- SELECT has read.
unfoldable pub acquire : Lease → ℕ → ℕ → ℕ → Lease → Bool × Lease
acquire seen who now ttl l =
    if held_by_other seen who now
    then (false, l)
    else let l' = claim seen.owner who (now + ttl) l in (deadline_reached l' who (now + ttl), l')

unfoldable pub renew : ℕ → ℕ → ℕ → Lease → Bool × Lease
renew who now ttl l = let l' = extend who (now + ttl) l in (deadline_reached l' who (now + ttl), l')
