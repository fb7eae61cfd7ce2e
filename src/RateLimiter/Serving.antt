-- ===== src/RateLimiter/Serving.antt =====
-- Every history of calls keeps the limiter consistent.
use odatano.Base.{
  ℕ, ◌+◌, ◌≤◌, ◌<◌, ◌≡◌, refl, inl, inr, true, false, some, List, [], ◌∷◌, ◌++◌, arith, ◌==◌, leb,
  ltb, any, keep, length, replicate, length-append, length-replicate, length-keep-le, if◌then◌else◌,
  Bool-cases, Option-cases,
}
use odatano.Base.Dict.{Dict, lookup, Each, Each-lookup}
use odatano.RateLimiter.{
  RateLimiterOptions, RateLimiter, empty, sort, in_window, hits_of, count_of, drop_key, make_room,
  count_key, track, store, consume, check_many, sweep_entries, sweep, reset,
}
use odatano.RateLimiter.Sorting.{length-sort}
use odatano.RateLimiter.Counts.{members}
use odatano.RateLimiter.Consistency.{
  IsConsistent, HasRoom, drop_key-IsConsistent, make_room-HasRoom, store-IsConsistent,
  store_new-IsConsistent,
}

-- Calls of the limiter and runs of its timer, each at its time.
pub data Call : Type 0 where
  checks : ℕ → ℕ → ℕ → Call
  sweeps : ℕ → Call
  resets : Call

module _ (o : RateLimiterOptions) (group_of : ℕ → ℕ) where
  -- What `consume` stores fits the limit, if the hits of the key did.
  consume_keeps :
      (P : RateLimiter → Type 0) (now key count : ℕ) (s : RateLimiter)
      → length (hits_of o group_of key s) ≤ o.max_requests
      → ((ts : List ℕ) → length ts ≤ o.max_requests → P (store o group_of key ts s))
      → P (consume o group_of now key count s).1
  unfolding consume
  consume_keeps P now key count s fit stored =
      let kept = keep (in_window o group_of now) (hits_of o group_of key s) in
      let le = length-keep-le (in_window o group_of now) (hits_of o group_of key s) in
      elim (Bool-cases (ltb o.max_requests (length kept + count))) [
        | inl full ↦ rw (full, consume) (stored (sort kept) (omega (arith, length-sort kept)))
        | inr room ↦
            rw (room, consume)
              (stored (kept ++ replicate count now) (
                ground
                  (arith, length-append kept (replicate count now), length-replicate count now)))
      ]

  hits-limited :
      (key : ℕ) (s : RateLimiter)
      → Each (λ ts. length ts ≤ o.max_requests) s.hits
      → length (hits_of o group_of key s) ≤ o.max_requests
  hits-limited key s h = elim (Option-cases (lookup key s.hits)) [
    | inl missing ↦ rw missing (omega arith)
    | inr (ts, found) ↦
        rw found (Each-lookup (λ ts. length ts ≤ o.max_requests) key s.hits {v = ts} h found)
  ]

  tracked-IsConsistent :
      (now key count : ℕ) (old : List ℕ) (s : RateLimiter)
      → IsConsistent o group_of s
      → lookup key s.hits ≡ some old
      → IsConsistent o group_of (consume o group_of now key count s).1
  tracked-IsConsistent now key count old s c found =
      consume_keeps (IsConsistent o group_of) now key count s (hits-limited key s c.limited)
        (λ ts fit. store-IsConsistent o group_of key old ts s c found fit)

  new-IsConsistent :
      (now key count : ℕ) (s r : RateLimiter)
      → IsConsistent o group_of s
      → HasRoom o group_of key s r
      → members group_of (group_of key) s.hits < o.max_keys_per_group
      → IsConsistent o group_of
          (consume o group_of now key count (count_key o group_of (group_of key) r)).1
  unfolding count_key
  new-IsConsistent now key count s r c h free =
      consume_keeps (IsConsistent o group_of) now key count (count_key o group_of (group_of key) r)
        (hits-limited key (count_key o group_of (group_of key) r) h.fits.limited)
        (λ ts fit. store_new-IsConsistent o group_of key ts s r h free c fit)

  pub check_many-IsConsistent :
      (now key count : ℕ) (s : RateLimiter)
      → 0 < o.max_keys
      → IsConsistent o group_of s
      → IsConsistent o group_of (check_many o group_of now key count s).1
  unfolding check_many
  check_many-IsConsistent now key count s pos c = elim (Bool-cases (count == 0)) [
    | inl nothing ↦ rw (nothing, check_many) c
    | inr some_slots ↦ elim (Option-cases (lookup key s.hits)) [
      | inr (old, found) ↦
          rw (some_slots, check_many)
            (rw (found, track) (tracked-IsConsistent now key count old s c found))
      | inl missing ↦
          elim (Bool-cases (leb o.max_keys_per_group (count_of o group_of (group_of key) s))) [
            | inl crowded ↦
                rw (some_slots, check_many) (rw (missing, track) (rw (crowded, track) c))
            | inr free ↦
                rw (some_slots, check_many)
                  (rw (missing, track)
                    (rw (free, track)
                      (new-IsConsistent now key count s (make_room o group_of s) c
                        (make_room-HasRoom o group_of key s pos c missing)
                        (ground (arith, c.counted (group_of key))))))
          ]
    ]
  ]

  sweep_entries-IsConsistent :
      (now : ℕ) (m : Dict (List ℕ)) (s : RateLimiter)
      → IsConsistent o group_of s
      → IsConsistent o group_of (sweep_entries o group_of now m s)
  unfolding sweep_entries
  sweep_entries-IsConsistent now [] s c = c
  sweep_entries-IsConsistent now ((key, ts) ∷ m) s c =
      sweep_entries-IsConsistent now m _
        (elim (any (in_window o group_of now) ts)
          as (λ b. IsConsistent o group_of (if b then s else drop_key o group_of key s)) [
            | true ↦ c
            | false ↦ drop_key-IsConsistent o group_of key s c
          ])

  pub sweep-IsConsistent :
      (now : ℕ) (s : RateLimiter)
      → IsConsistent o group_of s
      → IsConsistent o group_of (sweep o group_of now s)
  unfolding sweep
  sweep-IsConsistent now s c = sweep_entries-IsConsistent now s.hits s c

  pub serve : RateLimiter → List Call → RateLimiter
  serve s [] = s
  serve s (checks now key count ∷ cs) = serve (check_many o group_of now key count s).1 cs
  serve s (sweeps now ∷ cs) = serve (sweep o group_of now s) cs
  serve s (resets ∷ cs) = serve (reset s) cs

  empty-IsConsistent : IsConsistent o group_of empty
  empty-IsConsistent = record {
    distinct = tt;
    groups = tt;
    counted = λ g. refl;
    grouped = λ g. omega arith;
    bounded = omega arith;
    limited = tt;
  }

  serve_keeps :
      (cs : List Call) (s : RateLimiter)
      → 0 < o.max_keys
      → IsConsistent o group_of s
      → IsConsistent o group_of (serve s cs)
  unfolding serve
  serve_keeps [] s pos c = c
  serve_keeps (checks now key count ∷ cs) s pos c =
      serve_keeps cs _ pos (check_many-IsConsistent now key count s pos c)
  serve_keeps (sweeps now ∷ cs) s pos c = serve_keeps cs _ pos (sweep-IsConsistent now s c)
  serve_keeps (resets ∷ cs) s pos c = serve_keeps cs empty pos empty-IsConsistent

  -- Whatever calls the limiter gets, at whatever times, with room for at least one key: the counter
  -- of each group is the number of its tracked keys and within the limit for a group, no key is
  -- tracked twice, there are at most `max_keys` keys, and no key holds more hits than are allowed.
  pub serve-IsConsistent :
      (cs : List Call) → 0 < o.max_keys → IsConsistent o group_of (serve empty cs)
  serve-IsConsistent cs pos = serve_keeps cs empty pos empty-IsConsistent
