-- ===== src/Jobs/Lifecycle.antt =====
-- What the life of a job keeps, whatever the workers do in whatever order.
use odatano.Base.{◌≡◌, refl, ◌∙◌, Bool, true, false, List, [], ◌∷◌, ◌++◌, arith}
use odatano.Base.Table.{update_where}
use odatano.Jobs.{
  JobStatus, pending, building, submitting, submitted, confirmed, failed, cancelled, JobRow, Db,
  status_eq,
}
use odatano.Jobs.Creation.{new_job}
use odatano.Jobs.Operations.{Op, run}
use odatano.Jobs.Induction.{
  Change, builds, submits, accepted, requeued, confirms, fails, cancels, frees, sees, restarts,
  selects, sets, changed, run_ind, all-IsOk,
}

-- The statuses that a job can ever have after a status.
abbrev pub leads : JobStatus → JobStatus → Bool
leads pending t = true
leads building t = true
leads submitting pending = false
leads submitting building = false
leads submitting cancelled = false
leads submitting t = true
leads submitted submitted = true
leads submitted confirmed = true
leads submitted failed = true
leads submitted t = false
leads s t = status_eq s t

-- A transaction may have been sent, or the job is at its end.
abbrev pub is_fixed : JobStatus → Bool
is_fixed pending = false
is_fixed building = false
is_fixed s = true

leads_trans : (s t u : JobStatus) → leads s t ≡ true → leads t u ≡ true → leads s u ≡ true
leads_trans s t u = ground arith

pub leads-is_fixed : (s t : JobStatus) → leads s t ≡ true → is_fixed s ≡ true → is_fixed t ≡ true
leads-is_fixed s t = ground arith

-- The columns that no operation changes.
abbrev pub SameOrder : JobRow → JobRow → Type 0
SameOrder r q =
    (q.id ≡ r.id)
    × (q.wallet_id ≡ r.wallet_id)
    × (q.kind ≡ r.kind)
    × (q.request ≡ r.request)
    × (q.created_by ≡ r.created_by)

-- `q` is the row of `r` at a later time: it is the same order, its status is one that `r`'s leads to,
-- and the transaction of a job that is past building is never replaced.
abbrev pub Evolves : JobRow → JobRow → Type 0
Evolves r q =
    SameOrder r q
    × (leads r.status q.status ≡ true)
    × (is_fixed r.status ≡ true
        → (q.signed_tx_cbor ≡ r.signed_tx_cbor) × (q.unsigned_tx_cbor ≡ r.unsigned_tx_cbor))

leads_refl : (s : JobStatus) → leads s s ≡ true
leads_refl s = ground arith

Evolves-refl : (r : JobRow) → Evolves r r
Evolves-refl r = ((refl, refl, refl, refl, refl), leads_refl r.status, λ h. (refl, refl))

Evolves-trans : (r q s : JobRow) → Evolves r q → Evolves q s → Evolves r s
Evolves-trans r q s (a, l, f) (b, m, g) = (
  (b.0 ∙ a.0, b.1 ∙ a.1, b.2 ∙ a.2, b.3 ∙ a.3, b.4 ∙ a.4),
  leads_trans r.status q.status s.status l m,
  λ h. let k = leads-is_fixed r.status q.status l h in (((g k).0 ∙ (f h).0), ((g k).1 ∙ (f h).1)),
)

-- Every row of the first table has evolved into the row at its place of the second; new rows follow.
abbrev pub Extends : List JobRow → List JobRow → Type 0
Extends [] rs = Unit
Extends (r ∷ rs) [] = ⊥
Extends (r ∷ rs) (q ∷ qs) = Evolves r q × Extends rs qs

pub Extends-refl : (rs : List JobRow) → Extends rs rs
Extends-refl [] = tt
Extends-refl (r ∷ rs) = (Evolves-refl r, Extends-refl rs)

pub Extends-trans : (rs qs ss : List JobRow) → Extends rs qs → Extends qs ss → Extends rs ss
Extends-trans [] qs ss h k = tt
Extends-trans (r ∷ rs) [] ss h k = absurd h
Extends-trans (r ∷ rs) (q ∷ qs) [] h k = absurd k
Extends-trans (r ∷ rs) (q ∷ qs) (s ∷ ss) (e, h) (f, k) =
    (Evolves-trans r q s e f, Extends-trans rs qs ss h k)

pub Extends-append : (rs qs : List JobRow) → Extends rs (rs ++ qs)
Extends-append [] qs = tt
Extends-append (r ∷ rs) qs = (Evolves-refl r, Extends-append rs qs)

pub Extends-update_where :
    (w : JobRow → Bool) (f : JobRow → JobRow)
    → ((r : JobRow) → w r ≡ true → Evolves r (f r))
    → (rs : List JobRow) → Extends rs (update_where w f rs)
Extends-update_where w f step [] = tt
Extends-update_where w f step (r ∷ rs) =
    ground (arith, step r, Evolves-refl r, Extends-update_where w f step rs)

change-Evolves : (c : Change) (r : JobRow) → selects c r ≡ true → Evolves r (sets c r)
change-Evolves (builds id n) r h = ground arith
change-Evolves (submits id x u s f now) r h = ground arith
change-Evolves (accepted id x) r h = ground arith
change-Evolves (requeued id m t) r h = ground arith
change-Evolves (confirms id now) r h = ground arith
change-Evolves (fails id c m now) r h = ground arith
change-Evolves (cancels id now) r h = ground arith
change-Evolves (frees id) r h = Evolves-refl r
change-Evolves (sees id s x) r h = Evolves-refl r
change-Evolves (restarts id now) r h = ground arith

-- Whatever operations are done in whatever order, every job of the table keeps its place, order and
-- author, goes only from a status to one that the status leads to (so a job that may have been sent
-- is never pending, building or cancelled again, and a confirmed, failed or cancelled one stays so),
-- and keeps its signed and unsigned transaction once it is past building.
pub run-Extends : (counts : Bool) (os : List Op) (d : Db) → Extends d.jobs (run counts os d).jobs
run-Extends counts os d =
    run_ind (λ a claim id. Unit) (λ rs. Extends d.jobs rs)
      (λ c rs h.
        Extends-trans d.jobs rs (changed c rs) h
          (Extends-update_where (selects c) (sets c) (change-Evolves c) rs))
      (λ a claim id now rs ok fresh h.
        Extends-trans d.jobs rs _ h (Extends-append rs (new_job a claim id now ∷ [])))
      counts os d (all-IsOk os) (Extends-refl d.jobs)
