-- ===== src/SyncState/Streak.antt =====
-- The error streak that switches the crawler's status.
use odatano.Base.{
  ℕ, zero, suc, ◌+◌, ◌≡◌, subst, true, Option, none, some, List, [], ◌∷◌, arith, leb, length,
  or_default, if◌then◌else◌,
}
use odatano.SyncState.{
  SyncStatus, syncing, error, SyncCursor, CrawlPoint, renew_crawler_lease, max_consecutive_errors,
}
use odatano.SyncState.Cursor.{Tip, advance_cursor, record_error, or_else}

module _ (me ttl : ℕ) where
  -- The leader's errors, each with its message and time.
  abbrev pub record_all : List (ℕ × ℕ) → Option SyncCursor → Option SyncCursor
  record_all [] s = s
  record_all ((message, now) ∷ es) s = record_all es (record_error message (some me) now ttl s).1

  -- The instance leads, and the cursor is where it was at `c`: a streak does not touch these columns.
  abbrev pub StandsAs : SyncCursor → Option SyncCursor → Type 0
  StandsAs c none = ⊥
  StandsAs c (some q) =
      (q.lease.owner ≡ some me)
      × (q.desired_running ≡ true)
      × (q.last_slot ≡ c.last_slot)
      × (q.last_block_hash ≡ c.last_block_hash)
      × (q.last_height ≡ c.last_height)
      × (q.last_indexed_at ≡ c.last_indexed_at)
      × (q.tip_slot ≡ c.tip_slot)
      × (q.tip_height ≡ c.tip_height)
      × (q.utxo_set ≡ c.utxo_set)

  abbrev pub HasStreak : ℕ → SyncStatus → Option SyncCursor → Type 0
  HasStreak streak status none = ⊥
  HasStreak streak status (some q) = (q.consecutive_errors ≡ streak) × (q.sync_status ≡ status)

  -- The status after a streak that an advance with the given status has begun.
  abbrev pub status_for : SyncStatus → ℕ → SyncStatus
  status_for status zero = status
  status_for status (suc n) = if leb max_consecutive_errors (suc n) then error else syncing

  record_one :
      (message now streak : ℕ) (status : SyncStatus) (c : SyncCursor) (s : Option SyncCursor)
      → StandsAs c s
      → HasStreak streak (status_for status streak) s
      → StandsAs c (record_error message (some me) now ttl s).1
        × HasStreak
            (suc streak)
            (status_for status (suc streak))
            (record_error message (some me) now ttl s).1
  unfolding record_error renew_crawler_lease
  record_one message now streak status c none h k = absurd h
  record_one message now streak status c (some q) h k = ground arith

  record_more :
      (es : List (ℕ × ℕ)) (streak : ℕ) (status : SyncStatus) (c : SyncCursor)
      (s : Option SyncCursor)
      → StandsAs c s
      → HasStreak streak (status_for status streak) s
      → StandsAs c (record_all es s)
        × HasStreak (length es + streak) (status_for status (length es + streak)) (record_all es s)
  record_more [] streak status c s h k =
      let same : streak ≡ 0 + streak = omega arith in
      (h, subst (λ n. HasStreak n (status_for status n) s) same k)
  record_more ((message, now) ∷ es) streak status c s h k =
      let one = record_one message now streak status c s h k in
      let rest =
        record_more es (suc streak) status c (record_error message (some me) now ttl s).1 one.0
          one.1 in
      let same : length es + suc streak ≡ suc (length es) + streak = omega arith in
      (
        rest.0,
        subst (λ n. HasStreak n (status_for status n) (record_all ((message, now) ∷ es) s)) same
            rest.1,
      )

  -- A cursor at the block, with the tip and the applied slot if they are given.
  abbrev pub arrived : CrawlPoint → Option Tip → Option ℕ → ℕ → SyncCursor → SyncCursor
  arrived block tip applied at c = record c {
    last_slot = block.slot;
    last_block_hash = some block.hash;
    last_height = or_default block.height 0;
    last_indexed_at = some at;
    tip_slot = elim tip [ none ↦ c.tip_slot | some t ↦ some t.slot ];
    tip_height = elim tip [ none ↦ c.tip_height | some t ↦ or_else t.height c.tip_height ];
    utxo_set = record c.utxo_set { applied_slot = or_else applied c.utxo_set.applied_slot };
  }

  advanced_lem :
      (block : CrawlPoint) (tip : Option Tip) (status : SyncStatus) (applied : Option ℕ) (at : ℕ)
      (c : SyncCursor)
      → c.lease.owner ≡ some me
      → c.desired_running ≡ true
      → let s' = (advance_cursor block tip status applied (some me) at ttl (some c)).1 in
        ((advance_cursor block tip status applied (some me) at ttl (some c)).0 ≡ true)
        × StandsAs (arrived block tip applied at c) s'
        × HasStreak 0 status s'
  unfolding advance_cursor
  advanced_lem block none status none at c own on = ground arith
  advanced_lem block none status (some n) at c own on = ground arith
  advanced_lem block (some t) status none at c own on = ground arith
  advanced_lem block (some t) status (some n) at c own on = ground arith

  -- The leader's advance of a running crawler, with any status, is granted and ends the error streak.
  -- Each error that the leader then records lengthens the streak by one: after `n` of them the streak
  -- is `n`, and the status is the advance's if `n` is 0, else `error` if `n` is at least 10 and
  -- `syncing` if not. The block, the tip, the applied slot and the time of the advance stand in
  -- the cursor all the while, and the crawler is still wanted and led by the same instance.
  pub errors_since_advance :
      (block : CrawlPoint) (tip : Option Tip) (status : SyncStatus) (applied : Option ℕ) (at : ℕ)
      (es : List (ℕ × ℕ)) (c : SyncCursor)
      → c.lease.owner ≡ some me
      → c.desired_running ≡ true
      → let s' = (advance_cursor block tip status applied (some me) at ttl (some c)).1 in
        ((advance_cursor block tip status applied (some me) at ttl (some c)).0 ≡ true)
        × StandsAs (arrived block tip applied at c) (record_all es s')
        × HasStreak (length es) (status_for status (length es)) (record_all es s')
  errors_since_advance block tip status applied at es c own on =
      let s' = (advance_cursor block tip status applied (some me) at ttl (some c)).1 in
      let (granted, stands, streak) = advanced_lem block tip status applied at c own on in
      let (still, shown) =
        record_more es 0 status (arrived block tip applied at c) s' stands streak in
      let same : length es + 0 ≡ length es = omega arith in
      (granted, still, subst (λ n. HasStreak n (status_for status n) (record_all es s')) same shown)
