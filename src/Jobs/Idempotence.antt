-- ===== src/Jobs/Idempotence.antt =====
-- An idempotency key makes a retried submission return the first one's job.
use odatano.Base.{
  ℕ, ◌≡◌, ◌≢◌, refl, sym, subst, ◌∙◌, ap, ◌⊎◌, inl, inr, Bool, true, false, Option, none, some,
  List, [], ◌∷◌, ◌++◌, arith, any, All, Bool-cases, Option-cases, ◌==◌,
}
use odatano.Base.Table.{select_one, update_where}
use odatano.Jobs.{
  JobRow, JobKind, pending, failed, cancelled, Db, kind_eq, has_id, get_job_by_id, status_in,
}
use odatano.Jobs.Creation.{
  InsertJobArgs, InsertResult, job, new_job, clashes, has_claim, insert_job, insert_row, claim_for,
  holder_of, fast_answer, rolled_back, thrown, after_violation, read_dedup_holder, release_holder,
}
use odatano.Jobs.Operations.{Op, run}
use odatano.Jobs.Induction.{
  Change, builds, submits, accepted, requeued, confirms, fails, cancels, frees, sees, restarts,
  selects, sets, changed, Fits, AllFreesOk, run_ind_freeing, AllOk, all-IsOk,
}
use odatano.Jobs.Keys.{change-SameKeys, NoClash, HasUniqueKeys, IsFresh, run-HasUniqueKeys}

abbrev pub is_ended : JobRow → Bool
is_ended r = status_in (failed ∷ cancelled ∷ []) r.status

abbrev pub IsEnded : Option JobRow → Type 0
IsEnded none = Unit
IsEnded (some r) = is_ended r ≡ true

-- The key is freed only of a job that has failed or been cancelled, if the job is there.
abbrev pub HasEnded : ℕ → List JobRow → Type 0
HasEnded id rs = IsEnded (select_one (has_id id) rs)

-- The job of the first submission: its ID, wallet, kind and claim.
module _ (id w : ℕ) (k : JobKind) (claim : ℕ) where
  -- The row still has its wallet and kind, and the claim as long as it has not failed or been cancelled.
  abbrev pub IsHolder : JobRow → Type 0
  IsHolder r =
      (r.id ≡ id) × (r.wallet_id ≡ w) × (r.kind ≡ k) × ((r.dedup_key ≡ claim) ⊎ (is_ended r ≡ true))

  abbrev pub Found : Option JobRow → Type 0
  Found none = ⊥
  Found (some r) = IsHolder r

  freed-HasEnded :
      (j : ℕ) (rs : List JobRow) (r : JobRow)
      → select_one (has_id id) rs ≡ some r
      → r.id ≡ id
      → has_id j r ≡ true
      → HasEnded j rs
      → is_ended r ≡ true
  freed-HasEnded j rs r at own e ended =
      let same : j ≡ id = ground arith in subst IsEnded at (subst (λ i. HasEnded i rs) same ended)

  changed-IsHolder :
      (c : Change) (rs : List JobRow) (r : JobRow)
      → Fits HasEnded c rs
      → select_one (has_id id) rs ≡ some r
      → selects c r ≡ true
      → IsHolder r
      → IsHolder (sets c r)
  changed-IsHolder (builds j n) rs r fits at e h = ground arith
  changed-IsHolder (submits j x u s f now) rs r fits at e h = ground arith
  changed-IsHolder (accepted j x) rs r fits at e h = ground arith
  changed-IsHolder (requeued j m t) rs r fits at e h = ground arith
  changed-IsHolder (confirms j now) rs r fits at e h = ground arith
  changed-IsHolder (fails j x m now) rs r fits at e h = ground arith
  changed-IsHolder (cancels j now) rs r fits at e h = ground arith
  changed-IsHolder (frees j) rs r fits at e h =
      let ended = freed-HasEnded j rs r at h.0 e fits in ground (arith, ended)
  changed-IsHolder (sees j s x) rs r fits at e h = ground arith
  changed-IsHolder (restarts j now) rs r fits at e h = ground arith

  Found-updated :
      (p : JobRow → Bool) (f : JobRow → JobRow) (rs : List JobRow)
      → ((r : JobRow) → p r ≡ true → (f r).id ≡ r.id)
      → ((r : JobRow)
          → select_one (has_id id) rs ≡ some r
          → p r ≡ true
          → IsHolder r
          → IsHolder (f r))
      → Found (select_one (has_id id) rs)
      → Found (select_one (has_id id) (update_where p f rs))
  Found-updated p f [] keeps holds h = h
  Found-updated p f (r ∷ rs) keeps holds h = elim (Bool-cases (r.id == id)) [
    | inl here ↦
        let at : select_one (has_id id) (r ∷ rs) ≡ some r = ground arith in
        ground (arith, keeps r, holds r at)
    | inr other ↦
        let later : (q : JobRow)
            → select_one (has_id id) rs ≡ some q
            → select_one (has_id id) (r ∷ rs) ≡ some q =
          λ q e. ground arith in
        let rest = Found-updated p f rs keeps (λ q e. holds q (later q e)) (ground arith) in
        ground (arith, keeps r, rest)
  ]

  Found-changed :
      (c : Change) (rs : List JobRow)
      → Fits HasEnded c rs
      → Found (select_one (has_id id) rs)
      → Found (select_one (has_id id) (changed c rs))
  Found-changed c rs fits h =
      Found-updated (selects c) (sets c) rs (λ r e. (change-SameKeys c r e).0)
        (λ r. changed-IsHolder c rs r fits) h

  Found-append :
      (rs qs : List JobRow)
      → Found (select_one (has_id id) rs)
      → Found (select_one (has_id id) (rs ++ qs))
  Found-append [] qs h = absurd h
  Found-append (r ∷ rs) qs h = ground (arith, Found-append rs qs)

  run-Found :
      (counts : Bool) (os : List Op) (d : Db)
      → AllFreesOk HasEnded counts os d
      → Found (get_job_by_id id d)
      → Found (get_job_by_id id (run counts os d))
  run-Found counts os d freed h =
      run_ind_freeing (λ a c i. Unit) HasEnded (λ rs. Found (select_one (has_id id) rs))
        Found-changed (λ a c i now rs ok e. Found-append rs (new_job a c i now ∷ [])) counts os d
        (all-IsOk os) freed h

  kind_eq_refl : (j : JobKind) → kind_eq j j ≡ true
  kind_eq_refl j = ground arith

  selected :
      (P : JobRow → Type 0) (p : JobRow → Bool) (rs : List JobRow) {r : JobRow}
      → All P rs
      → select_one p rs ≡ some r
      → P r
  selected P p [] {r} h e = ground arith
  selected P p (q ∷ rs) {r} h e = ground (arith, selected P p rs {r = r})

  -- The claim leads to the job that holds it.
  holder_is_found :
      (rs : List JobRow) (r : JobRow)
      → NoClash rs
      → select_one (has_id id) rs ≡ some r
      → r.wallet_id ≡ w
      → r.kind ≡ k
      → r.dedup_key ≡ claim
      → select_one (has_claim w k claim) rs ≡ some r
  holder_is_found [] r h e a b c = ground arith
  holder_is_found (q ∷ rs) r h e a b c = elim (Bool-cases (q.id == id)) [
    | inl same ↦ ground (arith, kind_eq_refl k)
    | inr other ↦
        let later : select_one (has_id id) rs ≡ some r = ground arith in
        let apart = selected (λ s. clashes s q ≡ false) (has_id id) rs {r = r} h.0 later in
        ground (arith, apart, holder_is_found rs r h.1 later a b c)
  ]

  new_is_found :
      (new : JobRow) (rs : List JobRow)
      → new.id ≡ id
      → any (clashes new) rs ≡ false
      → select_one (has_id id) (rs ++ (new ∷ [])) ≡ some new
  new_is_found new [] e h = ground arith
  new_is_found new (r ∷ rs) e h = elim (Bool-cases (clashes new r)) [
    | inl clash ↦ ground arith
    | inr free ↦ ground (arith, new_is_found new rs e)
  ]

  Found-IsHolder : (o : Option JobRow) → Found o → (r : JobRow) × (o ≡ some r) × IsHolder r
  Found-IsHolder none h = absurd h
  Found-IsHolder (some r) h = (r, refl, h)

violation_is_old :
    (a : InsertJobArgs) (claim : Option ℕ) (id : ℕ) (d : Db)
    → after_violation a claim d ≢ job id pending false
violation_is_old a none id d e = ground arith
violation_is_old a (some c) id d e =
    elim (Option-cases (read_dedup_holder a.wallet_id a.kind c d)) [
      | inl nobody ↦ ground arith
      | inr (r, found) ↦ ground arith
    ]

fast_is_old :
    (o : Option JobRow) (x : InsertResult) (id : ℕ)
    → fast_answer o ≡ some x
    → x ≢ job id pending false
fast_is_old none x id e same = ground arith
fast_is_old (some r) x id e same = ground arith

-- A fresh INSERT has put the new row into the table.
inserted_row :
    (a : InsertJobArgs) (claim : Option ℕ) (id now : ℕ) (d : Db)
    → (insert_row a claim id now d).0 ≡ job id pending false
    → get_job_by_id id (insert_row a claim id now d).1 ≡ some (new_job a claim id now)
unfolding insert_row
inserted_row a claim id now d h =
    elim (Bool-cases (any (clashes (new_job a claim id now)) d.jobs)) [
      | inl clash ↦ absurd (violation_is_old a claim id d (ground (arith, h, clash)))
      | inr free ↦ ground (
        arith,
        free,
        new_is_found id a.wallet_id a.kind id (new_job a claim id now) d.jobs refl free,
      )
    ]

kept :
    (d : Db) (p : InsertResult × Db) (id : ℕ)
    → (rolled_back d p).0 ≡ job id pending false
    → rolled_back d p ≡ p
kept d (thrown, d') id h = ground arith
kept d (job i s old, d') id h = refl

module _ (trim : ℕ → Option ℕ) (hash : ℕ → ℕ → ℕ) where
  -- A submission that is answered with a new job has inserted it.
  new_job_is_inserted :
      (meanwhile : Db → Db) (a : InsertJobArgs) (id now : ℕ) (d : Db)
      → (insert_job trim hash meanwhile a id now d).0 ≡ job id pending false
      → get_job_by_id id (insert_job trim hash meanwhile a id now d).1
        ≡ some (new_job a (claim_for trim hash a) id now)
  unfolding insert_job
  new_job_is_inserted meanwhile a id now d h =
      elim (Option-cases (fast_answer (holder_of a (claim_for trim hash a) d))) [
        | inl slow ↦
            let db = meanwhile (release_holder (holder_of a (claim_for trim hash a) d) d) in
            let same =
              kept (meanwhile d) (insert_row a (claim_for trim hash a) id now db) id
                (ground (arith, h, slow)) in
            ground (arith, slow, same, inserted_row a (claim_for trim hash a) id now db)
        | inr (answer, fast) ↦ ground (arith, fast, fast_is_old _ answer id fast)
      ]

  held_answer :
      (meanwhile : Db → Db) (b : InsertJobArgs) (id now claim : ℕ) (d : Db) (r : JobRow)
      → claim_for trim hash b ≡ some claim
      → select_one (has_claim b.wallet_id b.kind claim) d.jobs ≡ some r
      → status_in (failed ∷ cancelled ∷ []) r.status ≡ false
      → insert_job trim hash meanwhile b id now d ≡ (job r.id r.status true, d)
  unfolding insert_job
  held_answer meanwhile b id now claim d r e found live = ground arith

  still_held :
      (after : Db → Db) (a b : InsertJobArgs) (id other later claim : ℕ) (d : Db) (r : JobRow)
      → b.wallet_id ≡ a.wallet_id
      → b.kind ≡ a.kind
      → claim_for trim hash b ≡ some claim
      → get_job_by_id id d ≡ some r
      → IsHolder id a.wallet_id a.kind claim r
      → NoClash d.jobs
      → (is_ended r ≡ true)
        ⊎ (insert_job trim hash after b other later d ≡ (job id r.status true, d))
  still_held after a b id other later claim d r sw sk cb found (i, w, k, inr ended) apart =
      inl ended
  still_held after a b id other later claim d r sw sk cb found (i, w, k, inl held) apart =
      elim (Bool-cases (is_ended r)) [
        | inl ended ↦ inl ended
        | inr live ↦
            let holder =
              holder_is_found id b.wallet_id b.kind claim d.jobs r apart found (w ∙ sym sw)
                (k ∙ sym sk) held in
            inr (
              held_answer after b other later claim d r cb holder live
              ∙ ap (λ j. (job j r.status true, d)) i)
      ]

  -- A submission under an idempotency key has created a job. Whatever operations follow, in whatever
  -- order, the job is still there, and as long as it has not failed or been cancelled, a further
  -- submission of its user for the same wallet and kind under the same key is answered with that job's
  -- ID and status and changes nothing. After the first submission, at `d1`, the table has unique keys,
  -- the IDs of new jobs are random IDs, which no claim is, and the key of a job is freed, as `insertJob`
  -- does, only if the job has failed or been cancelled.
  pub retry_is_deduplicated :
      (is_uuid : ℕ → Bool) (counts : Bool) (meanwhile after : Db → Db) (a b : InsertJobArgs)
      (id other now later claim : ℕ) (d : Db) (os : List Op)
      → b.wallet_id ≡ a.wallet_id
      → b.kind ≡ a.kind
      → claim_for trim hash a ≡ some claim
      → claim_for trim hash b ≡ some claim
      → (insert_job trim hash meanwhile a id now d).0 ≡ job id pending false
      → HasUniqueKeys is_uuid (insert_job trim hash meanwhile a id now d).1.jobs
      → AllOk (IsFresh is_uuid) os
      → AllFreesOk HasEnded counts os (insert_job trim hash meanwhile a id now d).1
      → let d1 = (insert_job trim hash meanwhile a id now d).1 in
        let d2 = run counts os d1 in
        (r : JobRow) × (get_job_by_id id d2 ≡ some r)
        × ((status_in (failed ∷ cancelled ∷ []) r.status ≡ true)
            ⊎ (insert_job trim hash after b other later d2 ≡ (job id r.status true, d2)))
  retry_is_deduplicated is_uuid counts meanwhile after a b id other now later claim d os sw sk ca cb
        new uniq ok freed =
      let d1 = (insert_job trim hash meanwhile a id now d).1 in
      let d2 = run counts os d1 in
      let first = new_job_is_inserted meanwhile a id now d new in
      let start : Found id a.wallet_id a.kind claim (get_job_by_id id d1) =
        ground (arith, first, ca) in
      let (r, found, holds) =
        Found-IsHolder id a.wallet_id a.kind claim (get_job_by_id id d2)
          (run-Found id a.wallet_id a.kind claim counts os d1 freed start) in
      (
        r,
        found,
        still_held after a b id other later claim d2 r sw sk cb found holds
            (run-HasUniqueKeys is_uuid counts os d1 ok uniq).1,
      )
