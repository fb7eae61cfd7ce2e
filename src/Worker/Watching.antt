-- ===== src/Worker/Watching.antt =====
-- What the confirmation tracker keeps: it sends only stored bytes again.
use odatano.Base.{
  ℕ, ◌≡◌, refl, sym, subst, Bool, true, false, Option, none, some, List, [], ◌∷◌, arith, All, keep,
  is_id, not, ◌&&◌, if_ind, if◌then◌else◌,
}
use odatano.Base.Table.{All-update_where}
use odatano.Errors.{JobError, is_not_found_on_all_backends}
use odatano.Jobs.{Db, clear_confirmation_point, record_confirmation_point}
use odatano.Jobs.Operations.{clears_point, records_point}
use odatano.Jobs.Wallets
use odatano.Jobs.Wallets.{job_confirmed, job_failed}
use odatano.Worker.{Run, TrackedJob, ChainTx, ok, M, pure, ◌>>=◌}
use odatano.Worker.Tracker.{
  has_job_id, set_entry, forget, seen_at, seen_in_round, unseen, modify, ignore, announce, finalize,
  resend, forget_inclusion, re_anchor, vanished, still_included, confirm_included, confirm_deep,
  is_deep, write,
}
use odatano.Worker.Stored.{IsStored, Follows, Follows-apply, Follows-IsStored}
use odatano.Worker.Triples.{IsTracked, Triple, consequence, send_keeps}
use odatano.Worker.Keeping.{
  Setting, Keeps, KeepsWith, closed-Ops, then-Keeps, catch-Keeps, op-Keeps, call_of, pure-Keeps,
  weakly, then-KeepsWith, catch-KeepsWith, modify-Keeps, track_keeps,
}

module _ (z : Setting) where
  open z use {is_uuid, world, options, fair, start}

  pub ignored : (e : JobError) → Keeps z (ignore e)
  ignored e = pure-Keeps z (ok tt)

  -- A change of an entry that keeps its job and its bytes.
  pub set_entry-Keeps :
      (id : ℕ) (f : Run → TrackedJob → TrackedJob)
      → ((s : Run) (t : TrackedJob)
          → ((f s t).job_id ≡ t.job_id) × ((f s t).signed_tx_cbor ≡ t.signed_tx_cbor))
      → Keeps z (modify (λ s. set_entry id (f s) s))
  set_entry-Keeps id f same =
      track_keeps z (λ s. set_entry id (f s) s) (λ s. Unit) (λ s. (refl, refl))
        (λ s p h.
          All-update_where (IsTracked s.db) (has_job_id id) (f s)
            (λ t e k c bytes.
              subst (λ i. IsStored i c s.db) (sym (same s t).0)
                (k c (subst (λ x. x ≡ some c) (same s t).1 bytes)))
            s.pending h)

  pub All-keep :
      (P : TrackedJob → Type 0) (p : TrackedJob → Bool) (ts : List TrackedJob)
      → All P ts
      → All P (keep p ts)
  All-keep P p [] h = tt
  All-keep P p (t ∷ ts) h = ground (arith, h, All-keep P p ts h.1)

  pub write-Keeps :
      (f : Db → Db) → ((d : Db) → Follows is_uuid d (f d)) → Keeps z (write true world options f)
  write-Keeps f h = op-Keeps z (λ now d. (tt, f d)) (λ now d. h d)

  forgotten :
      (done : Bool) (id : ℕ)
      → Keeps z (modify (λ s. announce true world options done id (forget id s)))
  forgotten true id =
      track_keeps z _ (λ s. Unit) (λ s. (refl, refl))
        (λ s p h. All-keep (IsTracked s.db) _ s.pending h)
  forgotten false id =
      track_keeps z _ (λ s. Unit) (λ s. (refl, refl))
        (λ s p h. All-keep (IsTracked s.db) _ s.pending h)

  pub finalize-Keeps :
      (t : TrackedJob) (o : Wallets.Outcome) → Keeps z (finalize true world options t o)
  unfolding finalize
  finalize-Keeps t o =
      catch-Keeps z _ _
        (then-Keeps z _ _ (op-Keeps z _ (closed-Ops z o t.job_id t.wallet_id))
          (λ done. forgotten done t.job_id))
        ignored

  -- The bytes of an entry, if any, are stored with its job.
  abbrev pub Holds : TrackedJob → Db → Type 0
  Holds t d = IsTracked d t

  pub Holds-stable : (t : TrackedJob) (d e : Db) → Follows is_uuid d e → Holds t d → Holds t e
  Holds-stable t d e f h c bytes = Follows-IsStored is_uuid t.job_id c d e f (h c bytes)

  resend_keeps :
      (id : ℕ) (c : Option ℕ)
      → KeepsWith z (λ d. (k : ℕ) → c ≡ some k → IsStored id k d) (resend true world options id c)
  resend_keeps id none = weakly z _ (pure tt) (pure-Keeps z (ok tt))
  resend_keeps id (some c) =
      let D : Db → Type 0 = λ d. (k : ℕ) → some c ≡ some k → IsStored id k d in
      let stable : (d e : Db) → Follows is_uuid d e → D d → D e =
        λ d e f h k same. Follows-IsStored is_uuid id k d e f (h k same) in
      catch-KeepsWith z D stable _ _
        (then-KeepsWith z D stable _ _
          (consequence is_uuid start (λ s. IsStored id c s.db) (λ s. D s.db) _ _ _ (λ s h. h c refl)
            (λ a s q. tt) (send_keeps is_uuid start world fair id c))
          (λ a. weakly z D _ (pure-Keeps z (ok tt))))
        (λ e. weakly z D _ (ignored e))

  resent_keeps :
      (b : Bool) (t : TrackedJob)
      → KeepsWith z
          (Holds t)
          (resend true world options t.job_id (if b then t.signed_tx_cbor else none))
  resent_keeps true t = resend_keeps t.job_id t.signed_tx_cbor
  resent_keeps false t = weakly z (Holds t) (pure tt) (pure-Keeps z (ok tt))

  pub forget_inclusion_keeps :
      (t : TrackedJob) → KeepsWith z (Holds t) (forget_inclusion true world options t)
  unfolding forget_inclusion
  forget_inclusion_keeps t =
      let stable = Holds-stable t in
      then-KeepsWith z (Holds t) stable _ _
        (weakly z (Holds t) _ (set_entry-Keeps t.job_id (λ s. unseen) (λ s t. (refl, refl))))
        (λ a.
          then-KeepsWith z (Holds t) stable _ _
            (weakly z (Holds t) _ (
              catch-Keeps z _ _
                (write-Keeps (clear_confirmation_point t.job_id)
                  (λ d. Follows-apply is_uuid (clears_point t.job_id) d tt))
                ignored))
            (λ b. resent_keeps options.resubmit_on_rollback t))

  re_anchor-Keeps :
      (t : TrackedJob) (tip : ℕ) (found : ChainTx)
      → Keeps z (re_anchor true world options t tip found)
  re_anchor-Keeps t tip found =
      elim found.height
        as (λ h. Keeps z (re_anchor true world options t tip (record found { height = h }))) [
          | none ↦ pure-Keeps z (ok true)
          | some h ↦
              if_ind (Keeps z) (is_id t.found_height h) (λ e. pure-Keeps z (ok true))
                (λ e.
                  then-Keeps z _ _
                    (set_entry-Keeps t.job_id (λ s. seen_at found.slot (some h))
                      (λ s t. (refl, refl)))
                    (λ a.
                      then-Keeps z _ _
                        (write-Keeps (record_confirmation_point t.job_id found.slot (some h)) (λ d.
                          Follows-apply is_uuid (records_point t.job_id found.slot (some h)) d tt))
                        (λ b. pure-Keeps z (ok (is_deep true world options tip h)))))
        ]

  vanished_keeps :
      (t : TrackedJob) (e : JobError) → KeepsWith z (Holds t) (vanished true world options t e)
  vanished_keeps t e =
      if_ind (KeepsWith z (Holds t)) (is_not_found_on_all_backends e)
        (λ x.
          then-KeepsWith z (Holds t) (Holds-stable t) _ _
            (weakly z (Holds t) _
              (modify-Keeps z (λ s. record s { tip_height = none }) (λ s. (refl, refl, refl))))
            (λ a.
              then-KeepsWith z (Holds t) (Holds-stable t) _ _ (forget_inclusion_keeps t)
                (λ b. weakly z (Holds t) _ (pure-Keeps z (ok false)))))
        (λ x. weakly z (Holds t) _ (pure-Keeps z (ok false)))

  still_included_keeps :
      (t : TrackedJob) (tip : ℕ) → KeepsWith z (Holds t) (still_included true world options t tip)
  unfolding still_included
  still_included_keeps t tip =
      catch-KeepsWith z (Holds t) (Holds-stable t) _ _
        (weakly z (Holds t) _ (
          then-Keeps z _ _ (call_of z world.lookup_tx) (λ found.
            then-Keeps z _ _
              (set_entry-Keeps t.job_id (λ s. seen_in_round s.round) (λ s t. (refl, refl)))
              (λ a. re_anchor-Keeps t tip found))))
        (vanished_keeps t)

  confirm_included-Keeps :
      (t : TrackedJob) (b : Bool) → Keeps z (confirm_included true world options t b)
  confirm_included-Keeps t true = finalize-Keeps t job_confirmed
  confirm_included-Keeps t false = pure-Keeps z (ok tt)

  -- A part that reads the state first.
  reading :
      (D : Db → Type 0) {A : Type 0} (f : Run → M A)
      → ((s : Run) → KeepsWith z D (f s))
      → KeepsWith z D (λ s. f s s)
  unfolding Triple
  reading D f h s sound d = h s s sound d

  pub confirm_deep_keeps :
      (revalidate : Bool) (t : TrackedJob) (tip height : ℕ)
      → KeepsWith z (Holds t) (confirm_deep true world options revalidate t tip height)
  confirm_deep_keeps revalidate t tip height =
      reading (Holds t)
        (λ r s.
          if not (is_deep true world options tip height)
          then (ok tt, s)
          else if revalidate && not (is_id t.seen_round r.round)
          then (still_included true world options t tip >>= confirm_included true world options t) s
          else finalize true world options t job_confirmed s)
        (λ r.
          branches (not (is_deep true world options tip height))
            (revalidate && not (is_id t.seen_round r.round)))
    where
      branches :
          (b c : Bool)
          → KeepsWith z (Holds t) (λ s.
            if b
            then (ok tt, s)
            else if c
            then (still_included true world options t tip >>= confirm_included true world options t)
                s
            else finalize true world options t job_confirmed s)
      branches true c = weakly z (Holds t) _ (pure-Keeps z (ok tt))
      branches false true =
          then-KeepsWith z (Holds t) (Holds-stable t) _ _ (still_included_keeps t tip)
            (λ b. weakly z (Holds t) _ (confirm_included-Keeps t b))
      branches false false = weakly z (Holds t) _ (finalize-Keeps t job_confirmed)
