-- ===== src/Worker/Tracker.antt =====
-- srv/blockchain/wallet-worker/confirmation-tracker.ts: the jobs that await their confirmation.
-- A block event or a polling round awaits the database and the node; the tracker's entries are its own,
-- so that other instances change only the tables meanwhile.
use odatano.Base.{
  ℕ, suc, ◌+◌, Bool, true, false, Option, none, some, List, [], ◌∷◌, ◌++◌, ◌&&◌, not, any, keep,
  leb, ltb, max, or_default, is_some, is_id, ◌==◌, if◌then◌else◌,
}
use odatano.Base.Table.{update_where, select_one}
use odatano.Errors.{JobError, is_not_found_on_all_backends}
use odatano.Jobs.{
  tx_dropped, Db, mark_confirmed, mark_failed, record_confirmation_point, clear_confirmation_point,
}
use odatano.Jobs.Wallets.{Outcome, job_confirmed, job_failed, bump_wallet_stats}
use odatano.Worker.{
  Run, World, TrackedJob, ChainTx, M, ok, ◌>>=◌, ◌>>◌, pure, catch, tx, call, send,
}

pub record TrackerOptions : Type 0 where
  pub confirmation_depth : ℕ
  pub confirmation_timeout_ms : ℕ
  pub resubmit_on_rollback : Bool

-- `BlockIndexedEvent` and `ReorgEvent`, as far as the tracker reads them
pub record BlockIndexed : Type 0 where
  pub slot : Option ℕ
  pub height : Option ℕ
  pub tip_height : Option ℕ
  pub tx_hashes : List ℕ

pub record Reorg : Type 0 where
  pub fork_slot : ℕ
  pub fork_height : Option ℕ

abbrev pub has_job_id : ℕ → TrackedJob → Bool
has_job_id id t = t.job_id == id

-- `pending.get(id)`, and a change of the entry
abbrev pub entry : ℕ → Run → Option TrackedJob
entry id s = select_one (has_job_id id) s.pending

abbrev pub set_entry : ℕ → (TrackedJob → TrackedJob) → Run → Run
set_entry id f s = record s { pending = update_where (has_job_id id) f s.pending }

abbrev pub forget : ℕ → Run → Run
forget id s = record s { pending = keep (λ t. not (has_job_id id t)) s.pending }

-- `track`
unfoldable pub track : TrackedJob → Run → Run
track t s = record s {
  pending = if any (has_job_id t.job_id) s.pending then s.pending else s.pending ++ (t ∷ []);
}

-- `Math.max(last ?? 0, height)`
abbrev pub learn_tip : Option ℕ → Option ℕ → Option ℕ
learn_tip none last = last
learn_tip (some h) last = some (max (or_default last 0) h)

abbrev pub seen_at : Option ℕ → Option ℕ → TrackedJob → TrackedJob
seen_at slot height t = record t { found_slot = slot; found_height = height }

abbrev pub seen_in_round : ℕ → TrackedJob → TrackedJob
seen_in_round round t = record t { seen_round = some round }

abbrev pub unseen : TrackedJob → TrackedJob
unseen t = record t { found_slot = none; found_height = none; seen_round = none }

abbrev pub modify : (Run → Run) → M (Unit {0})
modify f s = (ok tt, f s)

-- A loop over entries, `for (const job of …)`, with each entry as it then is.
abbrev pub for_each : (TrackedJob → M (Unit {0})) → List TrackedJob → M (Unit {0})
for_each f [] = pure tt
for_each f (t ∷ ts) = do f t; for_each f ts

abbrev pub ignore : JobError → M (Unit {0})
ignore e = pure tt

module _ (counts : Bool) (w : World) (options : TrackerOptions) where
  abbrev pub write : (Db → Db) → M (Unit {0})
  write f = tx counts w (λ now d. (tt, f d))

  -- The terminal transition with the statistics, in one transaction.
  abbrev pub closed : Outcome → ℕ → ℕ → ℕ → Db → Bool × Db
  closed job_confirmed id wallet now d =
      let (done, d') = mark_confirmed counts id now d in
      (done, if done then bump_wallet_stats wallet job_confirmed now d' else d')
  closed job_failed id wallet now d =
      let (done, d') = mark_failed counts id tx_dropped 0 now d in
      (done, if done then bump_wallet_stats wallet job_failed now d' else d')

  abbrev pub announce : Bool → ℕ → Run → Run
  announce false id s = s
  announce true id s = record s { announced = id ∷ s.announced }

  -- `finalize`: a failed transaction leaves the entry for the next round.
  unfoldable pub finalize : TrackedJob → Outcome → M (Unit {0})
  finalize t outcome =
      catch
        (do
          done ← tx counts w (λ now d. closed outcome t.job_id t.wallet_id now d)
          modify (λ s. announce done t.job_id (forget t.job_id s)))
        ignore

  -- The bytes are sent again, and an error is ignored.
  abbrev pub resend : ℕ → Option ℕ → M (Unit {0})
  resend id none = pure tt
  resend id (some cbor) = catch (do send counts w id cbor; pure tt) ignore

  -- `forgetInclusion`
  unfoldable pub forget_inclusion : TrackedJob → M (Unit {0})
  forget_inclusion t = do
    modify (set_entry t.job_id unseen)
    catch (write (clear_confirmation_point t.job_id)) ignore
    resend t.job_id (if options.resubmit_on_rollback then t.signed_tx_cbor else none)

  -- `tip - height + 1 >= depth`
  abbrev pub is_deep : ℕ → ℕ → Bool
  is_deep tip height = leb (height + options.confirmation_depth) (tip + 1)

  -- The transaction is on the chain: where it was, or at another height.
  abbrev pub re_anchor : TrackedJob → ℕ → ChainTx → M Bool
  re_anchor t tip found =
      let moved : ℕ → M Bool = λ h. (do
        modify (set_entry t.job_id (seen_at found.slot (some h)))
        write (record_confirmation_point t.job_id found.slot (some h))
        pure (is_deep tip h)) in
      elim found.height [
        | none ↦ pure true
        | some h ↦ if is_id t.found_height h then pure true else moved h
      ]

  abbrev pub vanished : TrackedJob → JobError → M Bool
  vanished t e =
      if is_not_found_on_all_backends e
      then (do modify (λ s. record s { tip_height = none }); forget_inclusion t; pure false)
      else pure false

  -- `stillIncluded`
  unfoldable pub still_included : TrackedJob → ℕ → M Bool
  unfolding forget_inclusion
  still_included t tip =
      catch
        (do
          found ← call counts w w.lookup_tx
          modify (λ s. set_entry t.job_id (seen_in_round s.round) s)
          re_anchor t tip found)
        (vanished t)

  abbrev pub confirm_included : TrackedJob → Bool → M (Unit {0})
  confirm_included t false = pure tt
  confirm_included t true = finalize t job_confirmed

  abbrev pub confirm_deep : Bool → TrackedJob → ℕ → ℕ → M (Unit {0})
  confirm_deep revalidate t tip height s =
      if not (is_deep tip height)
      then (ok tt, s)
      else if revalidate && not (is_id t.seen_round s.round)
      then (still_included t tip >>= confirm_included t) s
      else finalize t job_confirmed s

  abbrev pub confirm_entry : Bool → ℕ → Option TrackedJob → M (Unit {0})
  confirm_entry revalidate tip none = pure tt
  confirm_entry revalidate tip (some t) = elim t.found_height [
    | none ↦ pure tt
    | some height ↦ confirm_deep revalidate t tip height
  ]

  abbrev pub confirm_all : Bool → Option ℕ → List TrackedJob → M (Unit {0})
  confirm_all revalidate none ts = pure tt
  confirm_all revalidate (some tip) ts =
      for_each (λ t s. confirm_entry revalidate tip (entry t.job_id s) s) ts

  -- `confirmMature`; the tip is that from the beginning of the loop.
  unfoldable pub confirm_mature : Bool → M (Unit {0})
  unfolding finalize still_included
  confirm_mature revalidate s = confirm_all revalidate s.tip_height s.pending s

  abbrev pub include : BlockIndexed → TrackedJob → M (Unit {0})
  include e t = do
    modify (set_entry t.job_id (seen_at e.slot e.height))
    catch (write (record_confirmation_point t.job_id e.slot e.height)) ignore

  abbrev pub or_height : Option ℕ → Option ℕ → Option ℕ
  or_height none h = h
  or_height (some t) h = some t

  abbrev pub is_included : BlockIndexed → TrackedJob → Bool
  is_included e t = not (is_some t.found_height) && any (λ h. h == t.tx_hash) e.tx_hashes

  abbrev pub index_block : BlockIndexed → List TrackedJob → M (Unit {0})
  index_block e found = do
    modify (λ s. record s { tip_height = learn_tip (or_height e.tip_height e.height) s.tip_height })
    for_each (include e) found
    confirm_mature false

  -- `onBlockIndexed`
  unfoldable pub on_block_indexed : BlockIndexed → M (Unit {0})
  unfolding confirm_mature
  on_block_indexed e s =
      (if s.running && any (λ t. true) s.pending
          then index_block e (keep (is_included e) s.pending)
          else pure tt)
        s

  abbrev pub clamp_tip : Option ℕ → Option ℕ → Option ℕ
  clamp_tip none last = none
  clamp_tip (some fork) none = none
  clamp_tip (some fork) (some last) = if ltb fork last then some fork else some last

  abbrev pub is_rolled_back : ℕ → TrackedJob → Bool
  is_rolled_back fork t = elim t.found_slot [ none ↦ false | some slot ↦ ltb fork slot ]

  abbrev pub forget_entry : Option TrackedJob → M (Unit {0})
  forget_entry none = pure tt
  forget_entry (some t) = forget_inclusion t

  abbrev pub roll_back : Reorg → List TrackedJob → M (Unit {0})
  roll_back e ts = do
    modify (λ s. record s { tip_height = clamp_tip e.fork_height s.tip_height })
    for_each (λ t s. forget_entry (entry t.job_id s) s) ts

  -- `onReorg`
  unfoldable pub on_reorg : Reorg → M (Unit {0})
  unfolding forget_inclusion
  on_reorg e s =
      (if s.running then roll_back e (keep (is_rolled_back e.fork_slot) s.pending) else pure tt) s

  -- The age of a job is tested when the lookup has failed.
  abbrev pub drop_if_old : TrackedJob → JobError → M (Unit {0})
  drop_if_old t e s =
      (if is_not_found_on_all_backends e
            && ltb (t.submitted_at + options.confirmation_timeout_ms) (w.now s.step)
          then finalize t job_failed
          else pure tt)
        s

  abbrev pub look_up : TrackedJob → M (Unit {0})
  look_up t =
      catch
        (do
          found ← call counts w w.lookup_tx
          modify (λ s.
              set_entry t.job_id (λ t. seen_in_round s.round (seen_at found.slot found.height t)) s)
          write (record_confirmation_point t.job_id found.slot found.height))
        (drop_if_old t)

  abbrev pub poll_entry : Option TrackedJob → M (Unit {0})
  poll_entry none = pure tt
  poll_entry (some t) = if is_some t.found_height then pure tt else look_up t

  abbrev pub poll_entries : M (Unit {0})
  poll_entries s = for_each (λ t s. poll_entry (entry t.job_id s) s) s.pending s

  abbrev pub poll_round : M (Unit {0})
  poll_round = do
    height ← call counts w w.latest_height
    modify (λ s. record s { tip_height = learn_tip height s.tip_height })
    poll_entries
    confirm_mature true

  abbrev pub full_round : M (Unit {0})
  full_round = do
    modify (λ s. record s { polling = true; round = suc s.round })
    catch poll_round ignore
    modify (λ s. record s { polling = false })

  -- `pollOnce`; an error of the lookup of the tip ends the round.
  unfoldable pub poll_once : M (Unit {0})
  unfolding finalize confirm_mature
  poll_once s =
      (if s.running && not s.polling && any (λ t. true) s.pending then full_round else pure tt) s

-- `start` and `stop`; the listeners and the timer are the caller's
unfoldable pub start_tracker : Run → Run
start_tracker s = record s { running = true }

unfoldable pub stop_tracker : Run → Run
stop_tracker s = record s { running = false; pending = [] }
