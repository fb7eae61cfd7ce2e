-- ===== src/Errors.antt =====
-- srv/utils/errors.ts, as far as callers branch on an error: its class, its HTTP status and its code.
-- The predicates on errors of the wallet worker (srv/blockchain/wallet-worker/wallet-worker.ts) are
-- here too. Messages, and the subclasses that no caller tells from their parent, are left out.
use odatano.Base.{
  ℕ, ◌-◌, ◌*◌, ◌^◌, min, Bool, true, false, List, ◌&&◌, ◌||◌, leb, ◌==◌, all, length, ltb,
  if◌then◌else◌,
}
use odatano.Jobs.{JobErrorCode, other_code}

pub data ErrorClass : Type 0 where
  -- no `BackendError`
  plain : ErrorClass
  backend_error not_found already_submitted provider_unavailable rate_limited hsm_error : ErrorClass
  -- with the statuses of the backends' errors
  all_backends_failed : List ℕ → ErrorClass

pub record JobError : Type 0 where
  pub class : ErrorClass
  pub status_code : ℕ
  pub code : ℕ

-- An error that is no `BackendError`.
abbrev pub plain_error : JobError
plain_error = record { class = plain; status_code = 0; code = 0 }

-- `EXECUTION_FAILED`
abbrev pub execution_failed : JobErrorCode
execution_failed = other_code 0

abbrev pub is_404 : ℕ → Bool
is_404 status = status == 404

abbrev pub not_found_class : ErrorClass → Bool
not_found_class not_found = true
not_found_class (all_backends_failed statuses) = ltb 0 (length statuses) && all is_404 statuses
not_found_class _ = false

-- `isNotFoundOnAllBackends`
unfoldable pub is_not_found_on_all_backends : JobError → Bool
is_not_found_on_all_backends e = not_found_class e.class

abbrev pub transient_class : ErrorClass → ℕ → Bool
transient_class provider_unavailable status = true
transient_class rate_limited status = true
transient_class (all_backends_failed statuses) status = true
transient_class hsm_error status = true
transient_class plain status = false
transient_class backend_error status = leb 500 status || status == 429
transient_class not_found status = leb 500 status || status == 429
transient_class already_submitted status = leb 500 status || status == 429

-- `isTransientJobError`
unfoldable pub is_transient_job_error : JobError → Bool
is_transient_job_error e = transient_class e.class e.status_code

abbrev pub code_for : ErrorClass → ℕ → JobErrorCode
code_for plain code = execution_failed
code_for _ code = if code == 0 then execution_failed else other_code code

-- `terminalErrorCode`
unfoldable pub terminal_error_code : JobError → JobErrorCode
terminal_error_code e = code_for e.class e.code

-- `retryBackoffMs`: five seconds, doubled for each attempt after the first, at most a minute.
unfoldable pub retry_backoff_ms : ℕ → ℕ
retry_backoff_ms attempt = min (5_000 * 2 ^ (attempt - 1)) 60_000
