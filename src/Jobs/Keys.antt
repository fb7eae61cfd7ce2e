-- ===== src/Jobs/Keys.antt =====
-- The two unique keys of the job table: the ID, and (walletId, kind, dedupKey), which db/schema.cds
-- declares. The UPDATEs of Jobs.antt do not test them; here they are shown to be kept.
use odatano.Base.{
  ℕ, ◌≡◌, refl, ◌⊎◌, inl, inr, Bool, true, false, Option, none, some, List, [], ◌∷◌, ◌++◌, arith,
  any, All, Bool-cases, if_ind, if◌then◌else◌,
}
use odatano.Base.Table.{All-update_where}
use odatano.Jobs.{JobRow, Db}
use odatano.Jobs.Creation.{InsertJobArgs, new_job, clashes}
use odatano.Jobs.Operations.{Op, run}
use odatano.Jobs.Induction.{
  Change, builds, submits, accepted, requeued, confirms, fails, cancels, frees, sees, restarts,
  selects, sets, changed, run_ind, AllOk,
}

-- `q` is `r` with the same key columns, but for a key that has been freed.
abbrev pub SameKeys : JobRow → JobRow → Type 0
SameKeys r q =
    (q.id ≡ r.id)
    × (q.wallet_id ≡ r.wallet_id)
    × (q.kind ≡ r.kind)
    × ((q.dedup_key ≡ r.dedup_key) ⊎ (q.dedup_key ≡ r.id))

pub SameKeys-refl : (r : JobRow) → SameKeys r r
SameKeys-refl r = (refl, refl, refl, inl refl)

pub change-SameKeys : (c : Change) (r : JobRow) → selects c r ≡ true → SameKeys r (sets c r)
change-SameKeys (builds id n) r h = SameKeys-refl r
change-SameKeys (submits id x u s f now) r h = SameKeys-refl r
change-SameKeys (accepted id x) r h = SameKeys-refl r
change-SameKeys (requeued id m t) r h = SameKeys-refl r
change-SameKeys (confirms id now) r h = SameKeys-refl r
change-SameKeys (fails id c m now) r h = ground arith
change-SameKeys (cancels id now) r h = ground arith
change-SameKeys (frees id) r h = ground arith
change-SameKeys (sees id s x) r h = SameKeys-refl r
change-SameKeys (restarts id now) r h = ground arith

-- No two rows clash.
abbrev pub NoClash : List JobRow → Type 0
NoClash [] = Unit
NoClash (r ∷ rs) = All (λ q. clashes q r ≡ false) rs × NoClash rs

-- `is_uuid` tells the random IDs of jobs from idempotency keys.
module _ (is_uuid : ℕ → Bool) where
  -- A row holds a caller's key, or else its own ID.
  abbrev pub IsKeyed : JobRow → Type 0
  IsKeyed r = (is_uuid r.id ≡ true) × ((r.dedup_key ≡ r.id) ⊎ (is_uuid r.dedup_key ≡ false))

  abbrev pub HasUniqueKeys : List JobRow → Type 0
  HasUniqueKeys rs = All IsKeyed rs × NoClash rs

  -- What is asked of a new job: a random ID, and a claim that is none.
  abbrev pub IsFresh : InsertJobArgs → Option ℕ → ℕ → Type 0
  IsFresh a claim id = (is_uuid id ≡ true) × ((k : ℕ) → claim ≡ some k → is_uuid k ≡ false)

  same-IsKeyed : (r q : JobRow) → SameKeys r q → IsKeyed r → IsKeyed q
  same-IsKeyed r q s k = ground arith

  same-clashes :
      (r r' q q' : JobRow)
      → SameKeys r r'
      → SameKeys q q'
      → IsKeyed r
      → IsKeyed q
      → clashes q r ≡ false
      → clashes q' r' ≡ false
  same-clashes r r' q q' s t k l h = ground arith

  module _ (c : Change) where
    row_after : JobRow → JobRow
    row_after r = if selects c r then sets c r else r

    row_after-SameKeys : (r : JobRow) → SameKeys r (row_after r)
    unfolding row_after
    row_after-SameKeys r =
        if_ind (SameKeys r) (selects c r) (change-SameKeys c r) (λ e. SameKeys-refl r)

    none_clashes :
        (r : JobRow) (rs : List JobRow)
        → IsKeyed r
        → All IsKeyed rs
        → All (λ q. clashes q r ≡ false) rs
        → All (λ q. clashes q (row_after r) ≡ false) (changed c rs)
    unfolding row_after
    none_clashes r [] k ks h = tt
    none_clashes r (q ∷ rs) k ks h = (
      same-clashes r (row_after r) q (row_after q) (row_after-SameKeys r) (row_after-SameKeys q) k
          ks.0 h.0,
      none_clashes r rs k ks.1 h.1,
    )

    NoClash-changed : (rs : List JobRow) → All IsKeyed rs → NoClash rs → NoClash (changed c rs)
    unfolding row_after
    NoClash-changed [] ks h = tt
    NoClash-changed (r ∷ rs) ks h = (none_clashes r rs ks.0 ks.1 h.0, NoClash-changed rs ks.1 h.1)

  changed-HasUniqueKeys :
      (c : Change) (rs : List JobRow) → HasUniqueKeys rs → HasUniqueKeys (changed c rs)
  changed-HasUniqueKeys c rs (ks, h) = (
    All-update_where IsKeyed (selects c) (sets c)
        (λ r e. same-IsKeyed r (sets c r) (change-SameKeys c r e)) rs ks,
    NoClash-changed c rs ks h,
  )

  All-snoc {κ} :
      (P : JobRow → Type κ) (rs : List JobRow) (q : JobRow)
      → All P rs
      → P q
      → All P (rs ++ (q ∷ []))
  All-snoc P [] q h p = (p, tt)
  All-snoc P (r ∷ rs) q h p = (h.0, All-snoc P rs q h.1 p)

  NoClash-snoc :
      (rs : List JobRow) (q : JobRow)
      → any (clashes q) rs ≡ false
      → NoClash rs
      → NoClash (rs ++ (q ∷ []))
  NoClash-snoc [] q e h = (tt, tt)
  NoClash-snoc (r ∷ rs) q e h = elim (Bool-cases (clashes q r)) [
    | inl clash ↦ ground arith
    | inr free ↦
        (All-snoc (λ s. clashes s r ≡ false) rs q h.0 free, NoClash-snoc rs q (ground arith) h.1)
  ]

  new_job-IsKeyed :
      (a : InsertJobArgs) (claim : Option ℕ) (id now : ℕ)
      → IsFresh a claim id
      → IsKeyed (new_job a claim id now)
  new_job-IsKeyed a none id now ok = (ok.0, inl refl)
  new_job-IsKeyed a (some k) id now ok = (ok.0, inr (ok.1 k refl))

  -- When the IDs of new jobs are random IDs, which no claim is, no operation, in any order, makes two
  -- rows agree in their ID or in wallet, kind and claim: freeing a key by writing the job's own ID
  -- into the claim column never breaks the table's unique constraint.
  pub run-HasUniqueKeys :
      (counts : Bool) (os : List Op) (d : Db)
      → AllOk IsFresh os
      → HasUniqueKeys d.jobs
      → HasUniqueKeys (run counts os d).jobs
  run-HasUniqueKeys counts os d ok h =
      run_ind IsFresh HasUniqueKeys changed-HasUniqueKeys
        (λ a claim id now rs fresh e k.
          let new = new_job a claim id now in
          (
            All-snoc IsKeyed rs new k.0 (new_job-IsKeyed a claim id now fresh),
            NoClash-snoc rs new e k.1,
          ))
        counts os d ok h
