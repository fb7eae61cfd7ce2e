-- ===== src/Worker/Rounds.antt =====
-- What the tracker's loops and events keep.
use odatano.Base.{
  ℕ, suc, ◌≡◌, refl, subst, Bool, true, false, Option, none, some, List, [], ◌∷◌, arith, All, any,
  keep, is_some, not, ◌&&◌, inl, inr, Bool-cases, if_ind, ltb, ◌+◌, if◌then◌else◌, ◌==◌,
}
use odatano.Base.Table.{select_one}
use odatano.Errors.{JobError, is_not_found_on_all_backends}
use odatano.Jobs.{Db, record_confirmation_point}
use odatano.Jobs.Operations.{records_point}
use odatano.Jobs.Wallets.{job_failed}
use odatano.Worker.{Run, TrackedJob, ok, M, pure}
use odatano.Worker.Tracker.{
  BlockIndexed, Reorg, has_job_id, entry, seen_at, seen_in_round, modify, for_each, confirm_deep,
  confirm_entry, confirm_mature, confirm_all, index_block, forget_entry, roll_back, full_round,
  include, is_included, on_block_indexed, is_rolled_back, on_reorg, drop_if_old, look_up,
  poll_entry, poll_round, poll_once, learn_tip, clamp_tip, or_height,
}
use odatano.Worker.Stored.{Follows, Follows-apply}
use odatano.Worker.Triples.{IsTracked, IsSound, from_IsSound, Post, Triple}
use odatano.Worker.Keeping.{
  Setting, Keeps, KeepsWith, then-Keeps, catch-Keeps, call_of, pure-Keeps, weakly, modify-Keeps,
}
use odatano.Worker.Watching.{
  Holds, set_entry-Keeps, write-Keeps, finalize-Keeps, forget_inclusion_keeps, confirm_deep_keeps,
  ignored,
}

module _ (z : Setting) where
  open z use {is_uuid, world, options, fair, start}

  for_each-Keeps :
      (f : TrackedJob → M (Unit {0}))
      → ((t : TrackedJob) → Keeps z (f t))
      → (ts : List TrackedJob) → Keeps z (for_each f ts)
  for_each-Keeps f h [] = pure-Keeps z (ok tt)
  for_each-Keeps f h (t ∷ ts) = then-Keeps z _ _ (h t) (λ a. for_each-Keeps f h ts)

  -- An entry's bytes are stored.
  entry-IsTracked :
      (d : Db) (id : ℕ) (ts : List TrackedJob) {t : TrackedJob}
      → All (IsTracked d) ts
      → select_one (has_job_id id) ts ≡ some t
      → IsTracked d t
  entry-IsTracked d id [] {t} h e = ground arith
  entry-IsTracked d id (x ∷ ts) {t} h e = elim (Bool-cases (x.job_id == id)) [
    | inl same ↦ let at : x ≡ t = ground arith in subst (IsTracked d) at h.0
    | inr other ↦ entry-IsTracked d id ts {t = t} h.1 (ground arith)
  ]

  -- A part that reads an entry as it then is.
  module _ (f : Option TrackedJob → M (Unit {0})) (h : Keeps z (f none))
      (k : (t : TrackedJob) → KeepsWith z (Holds z t) (f (some t))) where
    read_entry :
        (o : Option TrackedJob) (s : Run)
        → IsSound is_uuid start s
        → ((t : TrackedJob) → o ≡ some t → IsTracked s.db t)
        → IsSound is_uuid start (f o s).1
          × Follows is_uuid s.db (f o s).1.db
          × Post is_uuid start (λ a s. Unit) (f o s).0 (f o s).1
    unfolding Triple
    read_entry none s sound tracked = h s sound tt
    read_entry (some t) s sound tracked = k t s sound (tracked t refl)

    with_entry-Keeps : (id : ℕ) → Keeps z (λ s. f (entry id s) s)
    unfolding Triple
    with_entry-Keeps id s sound p =
        read_entry (entry id s) s sound (λ t e.
          entry-IsTracked s.db id s.pending {t = t} (from_IsSound is_uuid start s sound).2 e)

  reading-Keeps : {A : Type 0} (f : Run → M A) → ((s : Run) → Keeps z (f s)) → Keeps z (λ s. f s s)
  unfolding Triple
  reading-Keeps f h s sound p = h s s sound p

  confirm_entry-Keeps :
      (revalidate : Bool) (tip id : ℕ)
      → Keeps z (λ s. confirm_entry true world options revalidate tip (entry id s) s)
  confirm_entry-Keeps revalidate tip id =
      with_entry-Keeps (confirm_entry true world options revalidate tip) (pure-Keeps z (ok tt))
        (λ t. found t) id
    where
      found :
          (t : TrackedJob)
          → KeepsWith z (Holds z t) (confirm_entry true world options revalidate tip (some t))
      found t =
          elim t.found_height
            as (λ h. KeepsWith z (Holds z t) (elim h [
              | none ↦ pure tt
              | some height ↦ confirm_deep true world options revalidate t tip height
            ])) [
              | none ↦ weakly z (Holds z t) _ (pure-Keeps z (ok tt))
              | some height ↦ confirm_deep_keeps z revalidate t tip height
            ]

  confirm_all-Keeps :
      (revalidate : Bool) (tip : Option ℕ) (ts : List TrackedJob)
      → Keeps z (confirm_all true world options revalidate tip ts)
  confirm_all-Keeps revalidate none ts = pure-Keeps z (ok tt)
  confirm_all-Keeps revalidate (some tip) ts =
      for_each-Keeps _ (λ t. confirm_entry-Keeps revalidate tip t.job_id) ts

  confirm_mature-Keeps :
      (revalidate : Bool) → Keeps z (confirm_mature true world options revalidate)
  unfolding confirm_mature
  confirm_mature-Keeps revalidate =
      reading-Keeps (λ r. confirm_all true world options revalidate r.tip_height r.pending)
        (λ r. confirm_all-Keeps revalidate r.tip_height r.pending)

  -- A change of the tip.
  tip-Keeps :
      (f : Option ℕ → Option ℕ) → Keeps z (modify (λ s. record s { tip_height = f s.tip_height }))
  tip-Keeps f =
      modify-Keeps z (λ s. record s { tip_height = f s.tip_height }) (λ s. (refl, refl, refl))

  include-Keeps : (e : BlockIndexed) (t : TrackedJob) → Keeps z (include true world options e t)
  include-Keeps e t =
      then-Keeps z _ _
        (set_entry-Keeps z t.job_id (λ s. seen_at e.slot e.height) (λ s t. (refl, refl)))
        (λ a.
          catch-Keeps z _ _
            (write-Keeps z (record_confirmation_point t.job_id e.slot e.height)
              (λ d. Follows-apply is_uuid (records_point t.job_id e.slot e.height) d tt))
            (ignored z))

  pub on_block_indexed-Keeps : (e : BlockIndexed) → Keeps z (on_block_indexed true world options e)
  unfolding on_block_indexed
  on_block_indexed-Keeps e =
      reading-Keeps
        (λ r.
          if r.running && any (λ t. true) r.pending
          then index_block true world options e (keep (is_included true world options e) r.pending)
          else pure tt)
        (λ r.
          if_ind (Keeps z) (r.running && any (λ t. true) r.pending)
            (λ x.
              then-Keeps z _ _
                (tip-Keeps (learn_tip (or_height true world options e.tip_height e.height)))
                (λ a.
                  then-Keeps z _ _
                    (for_each-Keeps _ (include-Keeps e)
                      (keep (is_included true world options e) r.pending))
                    (λ b. confirm_mature-Keeps false)))
            (λ x. pure-Keeps z (ok tt)))

  pub on_reorg-Keeps : (e : Reorg) → Keeps z (on_reorg true world options e)
  unfolding on_reorg
  on_reorg-Keeps e =
      reading-Keeps
        (λ r.
          if r.running
          then roll_back true world options e
              (keep (is_rolled_back true world options e.fork_slot) r.pending)
          else pure tt)
        (λ r.
          if_ind (Keeps z) r.running
            (λ x. then-Keeps z _ _ (tip-Keeps (clamp_tip true world options e.fork_height)) (λ a.
              for_each-Keeps _
                (λ t.
                  with_entry-Keeps (forget_entry true world options) (pure-Keeps z (ok tt))
                    (forget_inclusion_keeps z) t.job_id)
                (keep (is_rolled_back true world options e.fork_slot) r.pending)))
            (λ x. pure-Keeps z (ok tt)))

  drop_if_old-Keeps : (t : TrackedJob) (e : JobError) → Keeps z (drop_if_old true world options t e)
  drop_if_old-Keeps t e = reading-Keeps _ (λ r.
      if_ind (Keeps z)
        (is_not_found_on_all_backends e
          && ltb (t.submitted_at + options.confirmation_timeout_ms) (world.now r.step))
        (λ x. finalize-Keeps z t job_failed) (λ x. pure-Keeps z (ok tt)))

  look_up-Keeps : (t : TrackedJob) → Keeps z (look_up true world options t)
  look_up-Keeps t =
      catch-Keeps z _ _
        (then-Keeps z _ _ (call_of z world.lookup_tx) (λ found.
          then-Keeps z _ _
            (set_entry-Keeps z t.job_id
              (λ s t. seen_in_round s.round (seen_at found.slot found.height t))
              (λ s t. (refl, refl)))
            (λ a.
              write-Keeps z (record_confirmation_point t.job_id found.slot found.height) (λ d.
                Follows-apply is_uuid (records_point t.job_id found.slot found.height) d tt))))
        (drop_if_old-Keeps t)

  poll_entry-Keeps : (id : ℕ) → Keeps z (λ s. poll_entry true world options (entry id s) s)
  poll_entry-Keeps id =
      with_entry-Keeps (poll_entry true world options) (pure-Keeps z (ok tt))
        (λ t. weakly z (Holds z t) _ (
          if_ind (Keeps z) (is_some t.found_height) (λ x. pure-Keeps z (ok tt))
            (λ x. look_up-Keeps t)))
        id

  poll_round-Keeps : Keeps z (poll_round true world options)
  poll_round-Keeps = then-Keeps z _ _ (call_of z world.latest_height) (λ height.
      then-Keeps z _ _ (tip-Keeps (learn_tip height)) (λ a.
        then-Keeps z _ _
          (reading-Keeps
            (λ r. for_each (λ t s. poll_entry true world options (entry t.job_id s) s) r.pending)
            (λ r. for_each-Keeps _ (λ t. poll_entry-Keeps t.job_id) r.pending))
          (λ b. confirm_mature-Keeps true)))

  pub poll_once-Keeps : Keeps z (poll_once true world options)
  unfolding poll_once
  poll_once-Keeps =
      reading-Keeps
        (λ r.
          if r.running && not r.polling && any (λ t. true) r.pending
          then full_round true world options
          else pure tt)
        (λ r.
          if_ind (Keeps z) (r.running && not r.polling && any (λ t. true) r.pending)
            (λ x.
              then-Keeps z _ _
                (modify-Keeps z (λ s. record s { polling = true; round = suc s.round })
                  (λ s. (refl, refl, refl)))
                (λ a. then-Keeps z _ _ (catch-Keeps z _ _ poll_round-Keeps (ignored z)) (λ b.
                  modify-Keeps z (λ s. record s { polling = false }) (λ s. (refl, refl, refl)))))
            (λ x. pure-Keeps z (ok tt)))
