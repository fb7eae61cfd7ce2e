-- ===== src/RateLimiter/Tests.antt =====
-- Runs of the limiter, and the theorems at concrete inputs.
use odatano.Base.{ℕ, ◌+◌, ◌≤◌, ◌≡◌, refl, ◌↔◌, ◌%◌, true, none, some, List, [], ◌∷◌, arith}
use odatano.RateLimiter.{
  RateLimiterOptions, RateLimiter, ms, deny, empty, options, check_many, check, peek,
}
use odatano.RateLimiter.Consistency.{IsConsistent}
use odatano.RateLimiter.Serving.{Call, checks, sweeps, serve, serve-IsConsistent}
use odatano.RateLimiter.Window.{peek-check, retry_exact}
use odatano.RateLimiter.Batch.{TakesAll, all_or_none}
use odatano.RateLimiter.Keys.{codes, group_of, principal_rate_key, group_of-colon_user}

-- Two hits in 100 milliseconds; at most three keys, at most two in a group.
abbrev small : RateLimiterOptions
small = record { window_ms = 100; max_requests = 2; max_keys = 3; max_keys_per_group = 2 }

-- Keys are grouped by their last digit.
abbrev last_digit : ℕ → ℕ
last_digit k = k % 10

-- Key 1 has hits at 10 and 40.
abbrev busy : RateLimiter
busy = record { hits = (1, 10 ∷ 40 ∷ []) ∷ []; group_counts = (1, 1) ∷ [] }

refused : (check small last_digit 50 1 busy).0 ≡ deny (ms 60)
unfolding check
refused = refl

third_key_of_group :
    (check small last_digit 60 21 (check small last_digit 50 11 busy).1).0 ≡ deny (ms 100)
unfolding check
third_key_of_group = refl

defaults :
    options 10 5 none (some 0)
    ≡ record { window_ms = 10; max_requests = 5; max_keys = 10_000; max_keys_per_group = 64 }
unfolding options
defaults = refl

abbrev calls : List Call
calls = checks 5 1 1 ∷ checks 6 2 2 ∷ checks 7 3 1 ∷ checks 8 4 1 ∷ sweeps 107 ∷ []

serve-IsConsistent_example : IsConsistent small last_digit (serve small last_digit empty calls)
serve-IsConsistent_example = serve-IsConsistent small last_digit calls (omega arith)

peek-check_example : peek small last_digit 50 1 busy ≡ (check small last_digit 50 1 busy).0
peek-check_example = peek-check small last_digit 50 1 (10 ∷ 40 ∷ []) busy (omega arith) refl

retry_exact_example :
    ((check small last_digit 110 1 (check small last_digit 50 1 busy).1).0.allowed ≡ true)
    ↔ (50 + 60 ≤ 110)
retry_exact_example =
    retry_exact small last_digit 50 110 1 60 (10 ∷ 40 ∷ []) busy (omega arith) (omega arith) refl
      (omega arith) refused

all_or_none_example :
    TakesAll small last_digit 120 1 2 busy (check_many small last_digit 120 1 2 busy)
all_or_none_example = all_or_none small last_digit 120 1 2 busy (omega arith) (refl, tt)

group_of-colon_user_example :
    group_of (principal_rate_key (some (codes "agent:7")) none (codes "grant-admin"))
    ≡ codes "user=agent"
group_of-colon_user_example =
    group_of-colon_user b'a' (codes "gent") (codes "7") (codes "grant-admin") none (omega arith)
