-- ===== src/Worker/Stored.antt =====
-- What stays true of a job's stored transaction while anyone works on the tables.
use odatano.Base.{
  ℕ, ◌≡◌, refl, ap, sym, subst, ◌∙◌, Bool, true, Option, none, some, List, [], ◌∷◌, ◌++◌, arith,
  inl, inr, Bool-cases, Option-cases, ◌==◌,
}
use odatano.Base.Table.{select_one}
use odatano.Jobs.{JobRow, Db, has_id, get_job_by_id}
use odatano.Jobs.Operations.{Op, apply, run}
use odatano.Jobs.Induction.{IsOk, AllOk}
use odatano.Jobs.Lifecycle.{Evolves, Extends, is_fixed, leads-is_fixed, run-Extends}
use odatano.Jobs.Keys.{IsFresh, HasUniqueKeys, run-HasUniqueKeys}

-- The row of the first table is still there in the second, and has evolved.
Extends-select :
    (id : ℕ) (rs qs : List JobRow) (r : JobRow)
    → Extends rs qs
    → select_one (has_id id) rs ≡ some r
    → (q : JobRow) × (select_one (has_id id) qs ≡ some q) × Evolves r q
Extends-select id [] qs r h e = ground arith
Extends-select id (x ∷ rs) [] r h e = absurd h
Extends-select id (x ∷ rs) (y ∷ qs) r h e = elim (Bool-cases (x.id == id)) [
  | inl same ↦ (y, ground arith, ground (arith, h))
  | inr other ↦
      let (q, found, evolved) = Extends-select id rs qs r h.1 (ground arith) in
      (q, ground arith, evolved)
]

-- The row may have been sent with these bytes, or has ended with them.
abbrev pub HasBytes : ℕ → Option JobRow → Type 0
HasBytes c none = ⊥
HasBytes c (some r) = (is_fixed r.status ≡ true) × (r.signed_tx_cbor ≡ some c)

-- The job's bytes are stored in the table.
abbrev pub IsStored : ℕ → ℕ → Db → Type 0
IsStored id c d = HasBytes c (get_job_by_id id d)

-- The bytes that a row has, as it was read, are those that are stored.
abbrev pub NamesStored : JobRow → Db → Type 0
NamesStored job d = (c : ℕ) → job.signed_tx_cbor ≡ some c → IsStored job.id c d

Evolves-HasBytes : (c : ℕ) (r q : JobRow) → Evolves r q → HasBytes c (some r) → HasBytes c (some q)
Evolves-HasBytes c r q (same, leads, kept) (fixed, bytes) =
    (leads-is_fixed r.status q.status leads fixed, (kept fixed).0 ∙ bytes)

run-IsStored :
    (counts : Bool) (os : List Op) (id c : ℕ) (d : Db)
    → IsStored id c d
    → IsStored id c (run counts os d)
run-IsStored counts os id c d h = elim (Option-cases (get_job_by_id id d)) [
  | inl missing ↦ absurd (subst (HasBytes c) missing h)
  | inr (r, found) ↦
      let (q, still, evolved) =
        Extends-select id d.jobs (run counts os d).jobs r (run-Extends counts os d) found in
      subst (HasBytes c) (sym still) (Evolves-HasBytes c r q evolved (subst (HasBytes c) found h))
]

run-append :
    (counts : Bool) (os ps : List Op) (d : Db)
    → run counts (os ++ ps) d ≡ run counts ps (run counts os d)
run-append counts [] ps d = refl
run-append counts (o ∷ os) ps d = run-append counts os ps (apply counts o d)

module _ (is_uuid : ℕ → Bool) where
  AllOk-append :
      (os ps : List Op)
      → AllOk (IsFresh is_uuid) os
      → AllOk (IsFresh is_uuid) ps
      → AllOk (IsFresh is_uuid) (os ++ ps)
  AllOk-append [] ps h k = k
  AllOk-append (o ∷ os) ps h k = (h.0, AllOk-append os ps h.1 k)

  -- The second state of the tables is reached by operations of the job store.
  unfoldable pub Follows : Db → Db → Type 0
  Follows d e = (os : List Op) × AllOk (IsFresh is_uuid) os × (e ≡ run true os d)

  pub Follows-refl : (d : Db) → Follows d d
  unfolding Follows
  Follows-refl d = ([], tt, refl)

  pub Follows-trans : (d e f : Db) → Follows d e → Follows e f → Follows d f
  unfolding Follows
  Follows-trans d e f (os, ok, p) (ps, fine, q) =
      (os ++ ps, AllOk-append os ps ok fine, q ∙ ap (run true ps) p ∙ sym (run-append true os ps d))

  pub Follows-IsStored : (id c : ℕ) (d e : Db) → Follows d e → IsStored id c d → IsStored id c e
  unfolding Follows
  Follows-IsStored id c d e (os, ok, p) h =
      subst (IsStored id c) (sym p) (run-IsStored true os id c d h)

  pub NamesStored-stable :
      (job : JobRow) (d e : Db) → Follows d e → NamesStored job d → NamesStored job e
  NamesStored-stable job d e f h c bytes = Follows-IsStored job.id c d e f (h c bytes)

  pub Follows-HasUniqueKeys :
      (d e : Db) → Follows d e → HasUniqueKeys is_uuid d.jobs → HasUniqueKeys is_uuid e.jobs
  unfolding Follows
  Follows-HasUniqueKeys d e (os, ok, p) h =
      subst (λ (x : Db). HasUniqueKeys is_uuid x.jobs) (sym p)
        (run-HasUniqueKeys is_uuid true os d ok h)

  pub Follows-apply : (o : Op) (d : Db) → IsOk (IsFresh is_uuid) o → Follows d (apply true o d)
  unfolding Follows
  Follows-apply o d fresh = (o ∷ [], (fresh, tt), refl)
