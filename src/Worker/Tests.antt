-- ===== src/Worker/Tests.antt =====
-- An instance at work on one job, and the theorems at concrete inputs.
use odatano.Base.{
  ℕ, ◌≤◌, length, ◌+◌, refl, Bool, true, false, none, some, List, [], ◌∷◌, arith, ltb, if_ind, ◌==◌,
  if◌then◌else◌, All,
}
use odatano.Jobs.{simple_ada, JobRow, hsm, Db}
use odatano.Jobs.Wallets.{new_wallet}
use odatano.Jobs.Creation.{InsertJobArgs, new_job, sooner, find_due_jobs}
use odatano.Jobs.Keys.{HasUniqueKeys}
use odatano.Worker.{Run, World, sends, gives, committed, Outage, lost_after}
use odatano.Worker.Tracker.{TrackerOptions}
use odatano.Worker.Dispatch.{Dispatcher, next_per_wallet, tick_safe}
use odatano.Worker.Turns.{turns_of, turn_of, next_per_wallet-find_due_jobs}
use odatano.Jobs.Queue.{IsFirst, is_runnable}
use odatano.Worker.Occupancy.{IsOccupied, tick_safe-IsOccupied}
use odatano.Worker.Stored.{IsStored}
use odatano.Worker.Triples.{IsFair}
use odatano.Worker.OneTransaction.{
  Work, starts, dispatches, polls, executes_job, reconciles_wallet, perform_all, SendsOneEach,
  sent_bytes_lem, sent_once,
}

-- Random IDs are from 1000 on here.
abbrev is_uuid : ℕ → Bool
is_uuid n = ltb 999 n

abbrev pay : InsertJobArgs
pay = record {
  wallet_id = 1;
  kind = simple_ada;
  request = 77;
  idempotency_key = some 40;
  priority = none;
  not_before = none;
  max_attempts = none;
  created_by = some 2;
}

abbrev payment : JobRow
payment = new_job pay (some 42) 1000 10

abbrev tables : Db
tables = record {
  jobs = payment ∷ [];
  wallets =
      new_wallet (record { wallet_id = 1; signer_type = hsm; address = 3; public_key_hash = 4 })
      ∷ [];
}

-- Another instance sends what is stored whenever it can; the commit of one step is not acknowledged.
abbrev crash : ℕ → Outage
crash k = if k == 8 then lost_after else committed

abbrev world : World
world = record {
  instance_id = 7;
  ttl = 1_000;
  now = λ k. 100 + k;
  meanwhile = λ k. if k == 13 then sends 1000 ∷ [] else [];
  outage = crash;
  beat_lost = λ k. false;
  request_cbor = λ r. gives (some 55);
  prepare = λ r. gives tt;
  build = λ k. gives (record { unsigned = some 65; fee = some 2; signed = 66 + k });
  hash_of = λ c. gives (c + 500);
  submit = λ k. gives 571;
  lookup_tx = λ k. gives (record { slot = some 9; height = some 3 });
  indexed = λ k. gives false;
  latest_height = λ k. gives (some 30);
}

abbrev options : TrackerOptions
options = record {
  confirmation_depth = 10;
  confirmation_timeout_ms = 1_000_000;
  resubmit_on_rollback = true;
}

abbrev dispatcher : Dispatcher
dispatcher = record {
  wallets = 1 ∷ [];
  max_concurrent_wallets = 2;
  still_running = λ k. true;
  ended = λ k. [];
}

abbrev fresh : Run
fresh = record {
  db = tables;
  sent = [];
  step = 0;
  lost = false;
  pending = [];
  tip_height = none;
  round = 0;
  running = false;
  polling = false;
  announced = [];
  executing = [];
  spawned = [];
}

abbrev works : List Work
works =
    starts
    ∷ dispatches
    ∷ executes_job payment
    ∷ executes_job payment
    ∷ reconciles_wallet 1
    ∷ polls
    ∷ []

unique : HasUniqueKeys is_uuid tables.jobs
unique = ground arith

fair : (k : ℕ) → All (IsFair is_uuid) (world.meanwhile k)
fair k = if_ind (All (IsFair is_uuid)) (k == 13) (λ e. (tt, tt)) (λ e. tt)

sent_bytes_lem_example :
    All
      (λ p. IsStored p.0 p.1 (perform_all true world options dispatcher works fresh).db)
      (perform_all true world options dispatcher works fresh).sent
sent_bytes_lem_example =
    sent_bytes_lem is_uuid world options dispatcher fair works fresh (refl, refl) unique

sent_once_example : SendsOneEach (perform_all true world options dispatcher works fresh).sent
sent_once_example = sent_once is_uuid world options dispatcher fair works fresh (refl, refl) unique

tick_safe-IsOccupied_example :
    IsOccupied true world dispatcher (tick_safe true world dispatcher fresh).1.executing
tick_safe-IsOccupied_example = tick_safe-IsOccupied true world dispatcher fresh (tt, ground arith)

next_per_wallet-find_due_jobs_example :
    (length (turns_of 1 (next_per_wallet (find_due_jobs 60 tables))) ≤ 1)
    × IsFirst sooner
        (is_runnable 1 60)
        tables.jobs
        (turn_of 1 (next_per_wallet (find_due_jobs 60 tables)))
next_per_wallet-find_due_jobs_example = next_per_wallet-find_due_jobs 1 60 tables
