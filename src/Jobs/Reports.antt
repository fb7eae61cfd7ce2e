-- ===== src/Jobs/Reports.antt =====
-- What `guardedTransition` reports: the caller whose call made the transition, and no other, is told
-- so, on databases that count the changed rows and on those that do not.
use odatano.Base.{
  ℕ, ◌≡◌, refl, ap, inl, inr, Bool, true, false, Option, none, some, List, [], ◌∷◌, arith, ltb, All,
  Bool-cases, Option-cases, ◌==◌, ◌||◌,
}
use odatano.Base.Table.{update_where, select_one, affected}
use odatano.Jobs.{
  JobStatus, JobRow, Db, guard, has_id, guarded_transition, status_in, status_eq, get_job_by_id,
  shows_target,
}
use odatano.Jobs.Creation.{clashes}
use odatano.Jobs.Keys.{NoClash}

module _ (id : ℕ) (from : List JobStatus) (target : JobStatus) (set : JobRow → JobRow) where
  -- The row is there, in one of the statuses.
  abbrev pub may_move : Option JobRow → Bool
  may_move none = false
  may_move (some r) = status_in from r.status

  counted : List JobRow → Bool
  counted rs = ltb 0 (affected (guard id from) rs)

  read_back : List JobRow → Bool
  read_back rs =
      shows_target from target (select_one (has_id id) (update_where (guard id from) set rs))

  -- No row of the table has the ID.
  abbrev Misses : List JobRow → Type 0
  Misses rs = All (λ r. (r.id == id) ≡ false) rs

  missed : (rs : List JobRow) → Misses rs → affected (guard id from) rs ≡ 0
  missed [] h = refl
  missed (r ∷ rs) h = ground (arith, h, missed rs h.1)

  Misses-others :
      (r : JobRow) (rs : List JobRow)
      → (r.id == id) ≡ true
      → All (λ q. clashes q r ≡ false) rs
      → Misses rs
  Misses-others r [] e h = tt
  Misses-others r (q ∷ rs) e h = (ground (arith, h.0), Misses-others r rs e h.1)

  counted_lem : (rs : List JobRow) → NoClash rs → counted rs ≡ may_move (select_one (has_id id) rs)
  unfolding counted
  counted_lem [] h = refl
  counted_lem (r ∷ rs) h = elim (Bool-cases (r.id == id)) [
    | inl e ↦ ground (arith, missed rs (Misses-others r rs e h.0))
    | inr e ↦ ground (arith, counted_lem rs h.1)
  ]

  module _ (keeps_id : (r : JobRow) → (set r).id ≡ r.id)
      (reaches : (r : JobRow) → (set r).status ≡ target)
      (leaves : status_in from target ≡ false) where
    status_eq_refl : (s : JobStatus) → status_eq s s ≡ true
    status_eq_refl s = ground arith

    read_back_lem :
        (rs : List JobRow)
        → read_back rs ≡ (
            may_move (select_one (has_id id) rs)
            || shows_target from target (select_one (has_id id) rs))
    unfolding read_back
    read_back_lem [] = refl
    read_back_lem (r ∷ rs) =
        ground (arith, keeps_id r, reaches r, leaves, status_eq_refl target, read_back_lem rs)

    -- For a job that is not in the target status yet, the call is told that it made the transition
    -- exactly if the job is there in one of the statuses that the transition starts from, whether or
    -- not the database counts rows.
    pub guarded_transition-report :
        (counts : Bool) (d : Db)
        → NoClash d.jobs
        → shows_target from target (get_job_by_id id d) ≡ false
        → (guarded_transition counts id from target set d).0 ≡ may_move (get_job_by_id id d)
    unfolding guarded_transition counted read_back
    guarded_transition-report true d h fresh = counted_lem d.jobs h
    guarded_transition-report false d h fresh = ground (arith, read_back_lem d.jobs, fresh)

    unchanged :
        (rs : List JobRow)
        → NoClash rs
        → may_move (select_one (has_id id) rs) ≡ false
        → update_where (guard id from) set rs ≡ rs
    unchanged [] h e = refl
    unchanged (r ∷ rs) h e = elim (Bool-cases (r.id == id)) [
      | inl same ↦ ground (arith, untouched rs (Misses-others r rs same h.0))
      | inr other ↦ ground (arith, unchanged rs h.1)
    ]
      where
        untouched : (qs : List JobRow) → Misses qs → update_where (guard id from) set qs ≡ qs
        untouched [] m = refl
        untouched (q ∷ qs) m = ground (arith, m, untouched qs m.1)

    -- A job that another call has already brought into the target status is left as it is, and a
    -- database that counts rows reports so; on any other, the call is wrongly told that it has made
    -- the transition.
    pub losing_call_is_told_true :
        (d : Db) (r : JobRow)
        → NoClash d.jobs
        → get_job_by_id id d ≡ some r
        → r.status ≡ target
        → (guarded_transition true id from target set d ≡ (false, d))
          × (guarded_transition false id from target set d ≡ (true, d))
    unfolding guarded_transition counted read_back
    losing_call_is_told_true d r h found there =
        let still = unchanged d.jobs h (ground (arith, found, there, leaves)) in
        let kept : record d { jobs = update_where (guard id from) set d.jobs } ≡ d =
          ap (λ rs. record d { jobs = rs }) still in
        let told = counted_lem d.jobs h in
        let seen = read_back_lem d.jobs in
        (
          ground (arith, told, found, there, leaves, kept),
          ground (arith, seen, found, there, leaves, kept, status_eq_refl target),
        )

  -- A counting database reports exactly whether the job was there in one of the statuses.
  pub counted_report :
      (d : Db)
      → NoClash d.jobs
      → (guarded_transition true id from target set d).0 ≡ may_move (get_job_by_id id d)
  unfolding guarded_transition counted
  counted_report d h = counted_lem d.jobs h

  moved_row :
      (rs : List JobRow) (r : JobRow)
      → ((r : JobRow) → (set r).id ≡ r.id)
      → select_one (has_id id) rs ≡ some r
      → status_in from r.status ≡ true
      → select_one (has_id id) (update_where (guard id from) set rs) ≡ some (set r)
  moved_row [] r keeps_id e h = ground arith
  moved_row (q ∷ rs) r keeps_id e h = elim (Bool-cases (q.id == id)) [
    | inl same ↦ ground (arith, keeps_id q)
    | inr other ↦ ground (arith, moved_row rs r keeps_id)
  ]

  -- The row of a reported transition, before and after it.
  pub reported_row :
      (d : Db)
      → NoClash d.jobs
      → ((r : JobRow) → (set r).id ≡ r.id)
      → (guarded_transition true id from target set d).0 ≡ true
      → (r : JobRow) × (get_job_by_id id d ≡ some r)
        × (status_in from r.status ≡ true)
        × (get_job_by_id id (guarded_transition true id from target set d).1 ≡ some (set r))
  unfolding guarded_transition
  reported_row d h keeps_id told = elim (Option-cases (get_job_by_id id d)) [
    | inl missing ↦ absurd (ground (arith, counted_report d h, missing))
    | inr (r, found) ↦
        let there : status_in from r.status ≡ true = ground (arith, counted_report d h, found) in
        (r, found, there, moved_row d.jobs r keeps_id found there)
  ]
