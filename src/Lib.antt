-- ===== src/Lib.antt =====
-- odatano: a verification library for the ODATANO Cardano service.
--
-- The service reads and writes the Cardano chain for OData clients. The parts modelled here are those
-- that decide whether a request reaches a backend, what an agent may do, whether a payment is made
-- once, and which outputs are unspent:
--
--   CircuitBreaker   srv/blockchain/circuit-breaker.ts. One circuit for each backend: shouldAttempt,
--                    recordSuccess, recordFailure, getState, reset. Children: Invariant, Phases.
--   Failover         srv/blockchain/cardano-client.ts. One call under the breaker (callWithResilience),
--                    the retried init (ensureBackendInitialized) and the loop over the backends
--                    (executeWithPriority); it uses the breaker's operations. What backends answer, and
--                    what other requests do meanwhile, is a parameter. Children: Routing, Probes.
--   RateLimiter      srv/utils/rate-limiter.ts. check, checkMany, peek, sweep, reset, with the counters
--                    of keys for each group; RateLimiter/Keys has groupOf and principalRateKey on the
--                    text of a key. Children: Counts, Sorting, Consistency, Serving, Window, Batch.
--   Lease            The lease columns that the job store and the crawler share.
--   Jobs             srv/blockchain/wallet-worker/job-store.ts. The tables of jobs and wallets. Jobs has
--                    the guarded transitions, Jobs/Wallets the wallets and their leases, Jobs/Creation
--                    insertJob and the reads, Jobs/Recovery the recovery after a crash. Jobs/Operations
--                    makes each operation a step, and Jobs/Induction is the induction on steps that the
--                    others use: Lifecycle, Transactions, Keys, Idempotence, Leases. Reports is on what a
--                    transition tells its caller, Queue on the reads that order the jobs.
--   SyncState        srv/blockchain/crawler/sync-state.ts. The shared cursor row of the crawler, with
--                    SyncState/Cursor for its advance, import lease, rollback and error streak;
--                    SyncState/Operations makes each operation a step. Children: Leadership, Pause,
--                    Streak.
--   PendingSpends    srv/blockchain/pending-spends.ts. record, spentBy, apply, prune. Child: Offers.
--   EpochSlots       srv/utils/epoch-slots.ts, with the tables of srv/utils/const.ts. Child:
--                    RoundTrips.
--   Grants           srv/utils/agent-grants.ts. The rows of agents' grants: their input checks, issue,
--                    revocation, rotation and edit. Grants/Tokens is the token cache with the two halves
--                    of resolveAgentToken, Grants/Budget the statements of the daily budget and
--                    Grants/Enforcement the hook enforceAgentGrant. Grants/Instances puts the requests
--                    of an instance and everyone's statements in sequence. Propriety, Admission, Spending,
--                    Revocation and Uncommitted have the proofs.
--   Ledger           srv/blockchain/ledger-state.ts. The rows of the UTxO set: applyBlockToLedger and
--                    undoLedgerForTransactions. Children: Rollback, Application, RoundTrip.
--   Errors           The classes of srv/utils/errors.ts that callers branch on, and what the wallet worker
--                    makes of an error (isTransientJobError, terminalErrorCode, retryBackoffMs).
--   Worker           srv/blockchain/wallet-worker. An instance's state, the world around it and the steps
--                    in which it runs. Worker/Tracker is confirmation-tracker.ts; Worker/Execution
--                    (executeJob, the fence of lease-heartbeat.ts, submitStoredTransaction,
--                    adoptSubmitted, handleExecutionFailure), Worker/Reconciliation
--                    (reconcileSubmitting) and Worker/Dispatch (start, stop, tick, spawn) are
--                    wallet-worker.ts. They call the operations of Jobs on the tables. Triples and
--                    Keeping have rules for such programs, like those of a Hoare logic; Watching, Rounds,
--                    Submitting, Working, Orphans, Dispatching apply them to each part; OneTransaction,
--                    Occupancy and Turns conclude.
--   Base             Boolean tests, lists, maps (Base/Dict) and database tables (Base/Table).
--
-- A statement of the database is one step on a table. Where the source reads a row and writes it in a
-- later statement, the row that was read is an argument, so that other statements may stand between.
-- IDs, hashes, messages and CBOR are numbers, since the code only stores and compares them; times are
-- milliseconds and arguments. JavaScript numbers stay below 2 ^ 53 here, as times, counters and slots
-- do, so that no rounding is modelled. All loops are recursions on lists, without fuel.
--
-- An instance of the worker runs step by step: a transaction of the database and a call of a third party
-- are a step each, before which others act on the tables, and a transaction may fail before or after its
-- commit. The transactions themselves are not interleaved. Work that the dispatcher spawns is run one
-- after the other here; what another work of the same instance does to the tables and what it sends
-- counts as done by others, but the tracker's list is changed only by the work that runs. The answers
-- of the node, the transaction builder, the signer and the parsers are parameters, each by its step.
--
-- Not modelled: the rows of TransactionSubmissions, which only keep books; the usage counters of grants;
-- the sums of addresses and accounts in the ledger state; the coercion of database rows, log lines,
-- timers, the transport to the backends, the building and signing of transactions, which rest on
-- third-party libraries, and the CAP services.
pub mod Base
pub mod CircuitBreaker
pub mod Failover
pub mod RateLimiter
pub mod Lease
pub mod Jobs
pub mod SyncState
pub mod PendingSpends
pub mod EpochSlots
pub mod Errors
pub mod Grants
pub mod Ledger
pub mod Worker
