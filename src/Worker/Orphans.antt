-- ===== src/Worker/Orphans.antt =====
-- The rows that an instance reads after a crash, of itself or of another, name the stored bytes.
use odatano.Base.{
  ℕ, ◌≡◌, refl, sym, subst, Bool, true, false, Option, none, some, List, [], ◌∷◌, arith, All, keep,
  if_ind, if◌then◌else◌,
}
use odatano.Base.Table.{select_one}
use odatano.Jobs.{JobStatus, JobRow, Db, has_id}
use odatano.Jobs.Wallets.{read_wallet, wallet_lease_held}
use odatano.Jobs.Creation.{
  place, order_by, older, first_of, clashes, has_status, find_submitted_jobs, is_submitting_of,
  find_orphaned_submitting_job,
}
use odatano.Jobs.Operations.{acquires}
use odatano.Jobs.Keys.{NoClash}
use odatano.Jobs.Lifecycle.{is_fixed}
use odatano.Worker.{World}
use odatano.Worker.Stored.{
  HasBytes, NamesStored, NamesStored-stable, Follows, Follows-refl, Follows-apply,
}
use odatano.Worker.Dispatch.{Dispatcher, if_held, acquire, take_orphan, acquire_for}

-- A row of the table is the one that is read with its ID.
abbrev IsRow : List JobRow → JobRow → Type 0
IsRow rs r = select_one (has_id r.id) rs ≡ some r

behind :
    (r : JobRow) (rs qs : List JobRow)
    → All (λ q. clashes q r ≡ false) qs
    → All (IsRow rs) qs
    → All (IsRow (r ∷ rs)) qs
behind r rs [] h k = tt
behind r rs (q ∷ qs) h k = (ground (arith, h.0, k.0), behind r rs qs h.1 k.1)

rows_found : (rs : List JobRow) → NoClash rs → All (IsRow rs) rs
rows_found [] h = tt
rows_found (r ∷ rs) h = (ground arith, behind r rs rs h.0 (rows_found rs h.1))

kept :
    (P : JobRow → Type 0) (p : JobRow → Bool) (rs : List JobRow)
    → All P rs
    → All (λ r. P r × (p r ≡ true)) (keep p rs)
kept P p [] h = tt
kept P p (r ∷ rs) h = if_cases P p r (keep p rs) h.0 (kept P p rs h.1) (p r) refl
  where
    if_cases :
        (P : JobRow → Type 0) (p : JobRow → Bool) (r : JobRow) (qs : List JobRow)
        → P r
        → All (λ r. P r × (p r ≡ true)) qs
        → (b : Bool) → p r ≡ b
        → All (λ r. P r × (p r ≡ true)) (if b then r ∷ qs else qs)
    if_cases P p r qs h k true e = ((h, e), k)
    if_cases P p r qs h k false e = k

module _ (P : JobRow → Type 0) (before : JobRow → JobRow → Bool) where
  placed : (r : JobRow) (rs : List JobRow) → P r → All P rs → All P (place before r rs)
  placed r [] h k = (h, tt)
  placed r (s ∷ rs) h k = if_ind (All P) (before s r) (λ e. (k.0, placed r rs h k.1)) (λ e. (h, k))

  ordered : (rs : List JobRow) → All P rs → All P (order_by before rs)
  ordered [] h = tt
  ordered (r ∷ rs) h = placed r (order_by before rs) h.0 (ordered rs h.1)

abbrev pub OfSome : (JobRow → Type 0) → Option JobRow → Type 0
OfSome P none = Unit
OfSome P (some r) = P r

first : (P : JobRow → Type 0) (rs : List JobRow) → All P rs → OfSome P (first_of rs)
first P [] h = tt
first P (r ∷ rs) h = h.0

-- A row of a job that may have been sent names the stored bytes.
row_lem : (d : Db) (r : JobRow) → IsRow d.jobs r → is_fixed r.status ≡ true → NamesStored r d
row_lem d r row fixed c bytes = subst (HasBytes c) (sym row) (fixed, bytes)

rows_lem :
    (d : Db) (p : JobRow → Bool) (rs : List JobRow)
    → ((r : JobRow) → p r ≡ true → is_fixed r.status ≡ true)
    → All (λ r. IsRow d.jobs r × (p r ≡ true)) rs
    → All (λ r. NamesStored r d) rs
rows_lem d p [] f h = tt
rows_lem d p (r ∷ rs) f h = (row_lem d r h.0.0 (f r h.0.1), rows_lem d p rs f h.1)

submitting_fixed : (w : ℕ) (r : JobRow) → is_submitting_of w r ≡ true → is_fixed r.status ≡ true
submitting_fixed w r h = ground arith

submitted_fixed : (r : JobRow) → has_status JobStatus.submitted r ≡ true → is_fixed r.status ≡ true
submitted_fixed r h = ground arith

-- The orphan `submitting` job that is found.
found_orphan :
    (w now : ℕ) (d : Db)
    → NoClash d.jobs
    → OfSome (λ r. NamesStored r d) (find_orphaned_submitting_job w now d)
unfolding find_orphaned_submitting_job
found_orphan w now d h =
    if_ind (OfSome (λ r. NamesStored r d)) (wallet_lease_held (read_wallet w d) now) (λ e. tt)
      (λ e.
        first (λ r. NamesStored r d) _
          (ordered (λ r. NamesStored r d) older (keep (is_submitting_of w) d.jobs)
            (rows_lem d (is_submitting_of w) (keep (is_submitting_of w) d.jobs) (submitting_fixed w)
              (kept (IsRow d.jobs) (is_submitting_of w) d.jobs (rows_found d.jobs h)))))

pub found_submitted : (d : Db) → NoClash d.jobs → All (λ r. NamesStored r d) (find_submitted_jobs d)
found_submitted d h =
    rows_lem d (has_status JobStatus.submitted) _ submitted_fixed
      (kept (IsRow d.jobs) (has_status JobStatus.submitted) d.jobs (rows_found d.jobs h))

module _ (is_uuid : ℕ → Bool) (world : World) (dispatcher : Dispatcher) where
  acquired :
      (wallet now : ℕ) (d : Db) (o : Option JobRow)
      → OfSome (λ r. NamesStored r d) o
      → OfSome
          (λ r. NamesStored r (acquire_for true world dispatcher wallet now d o).1)
          (acquire_for true world dispatcher wallet now d o).0
  acquired wallet now d none h = tt
  acquired wallet now d (some r) h =
      held (acquire true world dispatcher wallet now d).0
        (acquire true world dispatcher wallet now d).1
        (NamesStored-stable is_uuid r d _
          (Follows-apply is_uuid
            (acquires (read_wallet wallet d) wallet world.instance_id now world.ttl) d tt)
          h)
    where
      held : (b : Bool) (e : Db) → NamesStored r e → OfSome (λ r. NamesStored r e) (if_held b r)
      held true e h = h
      held false e h = tt

  acquire_for-Follows :
      (wallet now : ℕ) (d : Db) (o : Option JobRow)
      → Follows is_uuid d (acquire_for true world dispatcher wallet now d o).1
  acquire_for-Follows wallet now d none = Follows-refl is_uuid d
  acquire_for-Follows wallet now d (some r) =
      Follows-apply is_uuid (acquires (read_wallet wallet d) wallet world.instance_id now world.ttl)
        d tt

  pub take_orphan-Follows :
      (wallet now : ℕ) (d : Db)
      → Follows is_uuid d (take_orphan true world dispatcher wallet now d).1
  unfolding take_orphan
  take_orphan-Follows wallet now d =
      acquire_for-Follows wallet now d (find_orphaned_submitting_job wallet now d)

  pub take_orphan_lem :
      (wallet now : ℕ) (d : Db)
      → NoClash d.jobs
      → OfSome
          (λ r. NamesStored r (take_orphan true world dispatcher wallet now d).1)
          (take_orphan true world dispatcher wallet now d).0
  unfolding take_orphan
  take_orphan_lem wallet now d h =
      acquired wallet now d (find_orphaned_submitting_job wallet now d)
        (found_orphan wallet now d h)
