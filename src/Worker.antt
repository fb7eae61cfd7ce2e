-- ===== src/Worker.antt =====
-- srv/blockchain/wallet-worker: one instance's work on jobs, with what happens around it.
-- The instance goes step by step: before each step the others act (`meanwhile`), and a transaction of
-- the database may fail before or after its commit (`outage`). What the third-party parts answer (the
-- node, the transaction builder, the signer, the JSON and CBOR parsers) is given by the `World`.
-- The rows of TransactionSubmissions, which only keep books, and log lines are not modelled.
pub mod Tracker
pub mod Execution
pub mod Reconciliation
pub mod Dispatch
pub mod Triples
pub mod Keeping
pub mod Watching
pub mod Rounds
pub mod Stored
pub mod Submitting
pub mod Working
pub mod Orphans
pub mod Dispatching
pub mod OneTransaction
pub mod Occupancy
pub mod Turns
mod Tests
use odatano.Base.{
  ℕ, suc, ◌+◌, Bool, true, false, Option, none, some, List, [], ◌∷◌, ◌++◌, ◌||◌, any, ◌==◌,
  if◌then◌else◌,
}
use odatano.Errors.{JobError, plain_error}
use odatano.Jobs.{JobStatus, JobKind, JobRow, Db, get_job_by_id}
use odatano.Jobs.Operations.{Op, apply}
use odatano.Jobs.Lifecycle.{is_fixed}

-- How a part of the work ends: with a value, with an error, or by an early `return`.
pub data Outcome (A : Type 0) : Type 0 where
  ok : A → Outcome A
  thrown : JobError → Outcome A
  returned : Outcome A

-- A third party's answer.
pub data Answer (A : Type 0) : Type 0 where
  gives : A → Answer A
  fails : JobError → Answer A

-- What becomes of a transaction of the database.
pub data Outage : Type 0 where
  committed lost_before lost_after : Outage

-- What other instances do: an operation on the tables, or the sending of a job's stored transaction.
pub data Event : Type 0 where
  acts : Op → Event
  sends : ℕ → Event

pub record TrackedJob : Type 0 where
  pub job_id : ℕ
  pub wallet_id : ℕ
  pub kind : JobKind
  pub tx_hash : ℕ
  pub signed_tx_cbor : Option ℕ
  pub submitted_at : ℕ
  pub found_slot : Option ℕ
  pub found_height : Option ℕ
  pub seen_round : Option ℕ

-- What the dispatcher starts.
pub data Task : Type 0 where
  executes reconciles : JobRow → Task

-- The state of the instance, with the tables and with what has been sent by anyone: job and bytes.
pub record Run : Type 0 where
  pub db : Db
  pub sent : List (ℕ × ℕ)
  pub step : ℕ
  -- the heartbeat's `lost`
  pub lost : Bool
  -- the tracker's `pending`, `lastKnownTipHeight` and `round`
  pub pending : List TrackedJob
  pub tip_height : Option ℕ
  pub round : ℕ
  -- the tracker's `running` and `polling`
  pub running : Bool
  pub polling : Bool
  -- the jobs of which `onFinal` has been told
  pub announced : List ℕ
  -- the worker's `executing`, and what has been spawned, the last one first
  pub executing : List ℕ
  pub spawned : List Task

-- The parts of a built and signed transaction.
pub record Built : Type 0 where
  pub unsigned : Option ℕ
  pub fee : Option ℕ
  pub signed : ℕ

-- A transaction that the chain has.
pub record ChainTx : Type 0 where
  pub slot : Option ℕ
  pub height : Option ℕ

pub record World : Type 0 where
  pub instance_id : ℕ
  pub ttl : ℕ
  pub now : ℕ → ℕ
  pub meanwhile : ℕ → List Event
  pub outage : ℕ → Outage
  -- A beat of the heartbeat before this step has found the lease lost.
  pub beat_lost : ℕ → Bool
  -- The signed bytes in a request, if any; the checks of a build request; the build and signature.
  pub request_cbor : ℕ → Answer (Option ℕ)
  pub prepare : ℕ → Answer (Unit {0})
  pub build : ℕ → Answer Built
  -- `getTxHashFromCbor`
  pub hash_of : ℕ → Answer ℕ
  -- `client.submitTransaction`, `getTransaction` and `getLatestBlock`, and the local index
  pub submit : ℕ → Answer ℕ
  pub lookup_tx : ℕ → Answer ChainTx
  pub indexed : ℕ → Answer Bool
  pub latest_height : ℕ → Answer (Option ℕ)

abbrev pub M : Type 0 → Type 0
M A = Run → Outcome A × Run

abbrev pub and_then : {A B : Type 0} → (A → M B) → Outcome A → M B
and_then f (ok a) s = f a s
and_then f (thrown e) s = (thrown e, s)
and_then f returned s = (returned, s)

infixl 5 ◌>>=◌ ◌>>◌
abbrev pub ◌>>=◌ : {A B : Type 0} → M A → (A → M B) → M B
◌>>=◌ m f s = let (o, s') = m s in and_then f o s'

abbrev pub ◌>>◌ : {A B : Type 0} → M A → M B → M B
m >> k = m >>= λ _. k

abbrev pub pure : {A : Type 0} → A → M A
pure a s = (ok a, s)

abbrev pub recover : {A : Type 0} → (JobError → M A) → Outcome A → M A
recover handler (ok a) s = (ok a, s)
recover handler (thrown e) s = handler e s
recover handler returned s = (returned, s)

-- `try { m } catch (err) { handler(err) }`
abbrev pub catch : {A : Type 0} → M A → (JobError → M A) → M A
catch m handler s = let (o, s') = m s in recover handler o s'

-- `if (!b) return`
abbrev pub continue_if : Bool → M (Unit {0})
continue_if true s = (ok tt, s)
continue_if false s = (returned, s)

abbrev pub answered : {A : Type 0} → Answer A → Outcome A
answered (gives a) = ok a
answered (fails e) = thrown e

-- The bytes that a row holds, once they may be sent.
abbrev pub sendable : Option JobRow → Option ℕ
sendable none = none
sendable (some r) = if is_fixed r.status then r.signed_tx_cbor else none

abbrev pub log_sent : ℕ → Option ℕ → List (ℕ × ℕ) → List (ℕ × ℕ)
log_sent id none l = l
log_sent id (some c) l = (id, c) ∷ l

module _ (counts : Bool) where
  unfoldable pub happen : Event → Run → Run
  happen (acts o) s = record s { db = apply counts o s.db }
  happen (sends id) s = record s { sent = log_sent id (sendable (get_job_by_id id s.db)) s.sent }

  unfoldable pub happen_all : List Event → Run → Run
  happen_all [] s = s
  happen_all (e ∷ es) s = happen_all es (happen e s)

  module _ (w : World) where
    open w use {now, meanwhile, outage, beat_lost}

    -- The next step: the others act first.
    unfoldable pub tick : Run → Run
    tick s =
        let s' = happen_all (meanwhile s.step) s in
        record s' { step = suc s.step; lost = s.lost || beat_lost s.step }

    abbrev pub commit : {R : Type 0} → Outage → R × Db → Run → Outcome R × Run
    commit committed (r, d) s = (ok r, record s { db = d })
    commit lost_before (r, d) s = (thrown plain_error, s)
    commit lost_after (r, d) s = (thrown plain_error, record s { db = d })

    -- `cds.tx(f)`, with the time at which it runs.
    unfoldable pub tx : {R : Type 0} → (ℕ → Db → R × Db) → M R
    tx f s = let s' = tick s in commit (outage s.step) (f (now s.step) s'.db) s'

    -- A call of a third party that neither reads nor writes the state.
    unfoldable pub call : {A : Type 0} → (ℕ → Answer A) → M A
    call f s = (answered (f s.step), tick s)

    -- `client.submitTransaction(cbor)` for a job: whatever it answers, the bytes may be out.
    unfoldable pub send : ℕ → ℕ → M ℕ
    send id cbor s =
        let s' = tick s in (answered (w.submit s.step), record s' { sent = (id, cbor) ∷ s'.sent })
