-- ===== src/Jobs/Wallets.antt =====
-- srv/blockchain/wallet-worker/job-store.ts: the rows of the worker wallets and their leases.
use odatano.Base.{
  ℕ, ◌+◌, Bool, true, false, Option, none, some, [], ◌∷◌, ◌++◌, ◌==◌, ◌&&◌, is_some, if◌then◌else◌,
}
use odatano.Base.Table.{select_one, update_where}
use odatano.Lease.{Lease, free, is_after, held_by_other, deadline_reached, claim, extend, release}
use odatano.Jobs.{SignerType, WalletRow, Db}

-- The argument of `upsertWalletRegistration`.
pub record Registration : Type 0 where
  pub wallet_id : ℕ
  pub signer_type : SignerType
  pub address : ℕ
  pub public_key_hash : ℕ

pub data Outcome : Type 0 where
  job_confirmed job_failed : Outcome

abbrev pub has_wallet_id : ℕ → WalletRow → Bool
has_wallet_id id w = w.wallet_id == id

-- `readWallet`
abbrev pub read_wallet : ℕ → Db → Option WalletRow
read_wallet id d = select_one (has_wallet_id id) d.wallets

abbrev pub set_wallet : ℕ → (WalletRow → WalletRow) → Db → Db
set_wallet id f d = record d { wallets = update_where (has_wallet_id id) f d.wallets }

abbrev pub new_wallet : Registration → WalletRow
new_wallet g = record {
  wallet_id = g.wallet_id;
  signer_type = g.signer_type;
  address = g.address;
  public_key_hash = g.public_key_hash;
  enabled = true;
  lease = free;
  last_job_at = none;
  jobs_confirmed = 0;
  jobs_failed = 0;
}

abbrev pub refreshed : Registration → WalletRow → WalletRow
refreshed g w = record w {
  signer_type = g.signer_type;
  address = g.address;
  public_key_hash = g.public_key_hash;
}

-- By the row that the first SELECT has read.
abbrev pub upsert_wallet : Option WalletRow → Registration → Db → Db
upsert_wallet (some w) g d = set_wallet g.wallet_id (refreshed g) d
upsert_wallet none g d = record d { wallets = d.wallets ++ (new_wallet g ∷ []) }

unfoldable pub upsert_wallet_registration : Registration → Db → Db
upsert_wallet_registration g d = upsert_wallet (read_wallet g.wallet_id d) g d

-- `walletLeaseHeld`: some instance holds the lease.
abbrev pub lease_is_live : Lease → ℕ → Bool
lease_is_live l now = is_some l.owner && is_after l.until now

abbrev pub wallet_lease_held : Option WalletRow → ℕ → Bool
wallet_lease_held none now = false
wallet_lease_held (some w) now = lease_is_live w.lease now

abbrev pub reads_deadline : Option WalletRow → ℕ → ℕ → Bool
reads_deadline none who expected = false
reads_deadline (some w) who expected = deadline_reached w.lease who expected

-- `tryAcquireWalletLease`; `seen` is the row that its first SELECT has read.
unfoldable pub try_acquire_wallet_lease : Option WalletRow → ℕ → ℕ → ℕ → ℕ → Db → Bool × Db
try_acquire_wallet_lease none id who now ttl d = (false, d)
try_acquire_wallet_lease (some seen) id who now ttl d =
    if seen.enabled
    then if held_by_other seen.lease who now
      then (false, d)
      else (let d' =
            set_wallet id (λ w. record w { lease = claim seen.lease.owner who (now + ttl) w.lease })
              d in
          (reads_deadline (read_wallet id d') who (now + ttl), d'))
    else (false, d)

unfoldable pub renew_wallet_lease : ℕ → ℕ → ℕ → ℕ → Db → Bool × Db
renew_wallet_lease id who now ttl d =
    let d' = set_wallet id (λ w. record w { lease = extend who (now + ttl) w.lease }) d in
    (reads_deadline (read_wallet id d') who (now + ttl), d')

unfoldable pub release_wallet_lease : ℕ → ℕ → Db → Db
release_wallet_lease id who d = set_wallet id (λ w. record w { lease = release who w.lease }) d

abbrev pub bumped : Outcome → ℕ → WalletRow → WalletRow → WalletRow
bumped job_confirmed now seen w = record w {
  last_job_at = some now;
  jobs_confirmed = seen.jobs_confirmed + 1;
}
bumped job_failed now seen w = record w {
  last_job_at = some now;
  jobs_failed = seen.jobs_failed + 1;
}

-- By the row that the first SELECT has read.
abbrev pub bump_wallet : Option WalletRow → ℕ → Outcome → ℕ → Db → Db
bump_wallet none id outcome now d = d
bump_wallet (some seen) id outcome now d = set_wallet id (bumped outcome now seen) d

unfoldable pub bump_wallet_stats : ℕ → Outcome → ℕ → Db → Db
bump_wallet_stats id outcome now d = bump_wallet (read_wallet id d) id outcome now d
