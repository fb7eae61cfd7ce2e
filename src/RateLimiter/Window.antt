-- ===== src/RateLimiter/Window.antt =====
-- What a peek tells and how long a refused caller has to wait.
use odatano.Base.{
  ℕ, ◌+◌, ◌-◌, ◌≤◌, ◌<◌, ◌≡◌, refl, sym, ap, ◌∙◌, subst, ◌↔◌, inl, inr, Bool, true, some, List, [],
  ◌∷◌, arith, keep, length, Bool-cases, List-cases, All, length-keep-le,
}
use odatano.Base.Dict.{lookup, erase, lookup-insert_self}
use odatano.RateLimiter.{
  RateLimiterOptions, RateLimiter, ms, deny, sort, in_window, hits_of, consume, track, check_many,
  check, peek,
}
use odatano.RateLimiter.Sorting.{length-sort, IsSorted, sort-IsSorted, All-sort, minimum-sort}

pub keep-All : (p : ℕ → Bool) (ts : List ℕ) → All (λ t. p t ≡ true) (keep p ts)
keep-All p [] = tt
keep-All p (t ∷ ts) = ground (arith, keep-All p ts)

pub keep_every : (p : ℕ → Bool) (ts : List ℕ) → All (λ t. p t ≡ true) ts → keep p ts ≡ ts
keep_every p [] h = refl
keep_every p (t ∷ ts) h = rw h.0 (ap (λ us. t ∷ us) (keep_every p ts h.1))

module _ (o : RateLimiterOptions) (group_of : ℕ → ℕ) where
  -- A tracked key goes straight to `consume`.
  check-tracked :
      (now key : ℕ) (old : List ℕ) (s : RateLimiter)
      → lookup key s.hits ≡ some old
      → check o group_of now key s ≡ consume o group_of now key 1 s
  unfolding check check_many track
  check-tracked now key old s found = ground arith

  -- For a tracked key, `peek` tells what `check` would answer, the wait included.
  pub peek-check :
      (now key : ℕ) (old : List ℕ) (s : RateLimiter)
      → 0 < o.max_requests
      → lookup key s.hits ≡ some old
      → peek o group_of now key s ≡ (check o group_of now key s).0
  unfolding peek consume
  peek-check now key old s pos found =
      let kept = keep (in_window o group_of now) (hits_of o group_of key s) in
      rw (check-tracked now key old s found) (elim (List-cases (sort kept)) [
        | inl nothing ↦ ground (arith, length-sort kept, minimum-sort kept)
        | inr (t, ts, shape) ↦ ground (arith, length-sort kept, minimum-sort kept)
      ])

  All-in_window :
      (later t : ℕ) (ts : List ℕ)
      → in_window o group_of later t ≡ true
      → All (λ u. t ≤ u) ts
      → All (λ u. in_window o group_of later u ≡ true) ts
  All-in_window later t [] p h = tt
  All-in_window later t (u ∷ us) p h = (ground arith, All-in_window later t us p h.1)

  retry-consume :
      (later key t : ℕ) (ts : List ℕ) (s : RateLimiter)
      → lookup key s.hits ≡ some (t ∷ ts)
      → IsSorted (t ∷ ts)
      → o.max_requests ≡ length (t ∷ ts)
      → ((consume o group_of later key 1 s).0.allowed ≡ true) ↔ (t + o.window_ms ≤ later)
  unfolding consume
  retry-consume later key t ts s found sorted full =
      let p = in_window o group_of later in
      elim (Bool-cases (p t)) [
        | inl inside ↦
            let whole : keep p (t ∷ ts) ≡ t ∷ ts =
              keep_every p (t ∷ ts) (inside, All-in_window later t ts inside sorted.0) in
            ground arith
        | inr outside ↦ ground (arith, length-keep-le p ts)
      ]

  retry-check :
      (later key t : ℕ) (ts : List ℕ) (s : RateLimiter)
      → lookup key s.hits ≡ some (t ∷ ts)
      → IsSorted (t ∷ ts)
      → o.max_requests ≡ length (t ∷ ts)
      → ((check o group_of later key s).0.allowed ≡ true) ↔ (t + o.window_ms ≤ later)
  retry-check later key t ts s found sorted full =
      rw (check-tracked later key (t ∷ ts) s found)
        (retry-consume later key t ts s found sorted full)

  -- What a refusal of a tracked key says of its hits.
  record IsFull (now key r t : ℕ) (ts old : List ℕ) (s : RateLimiter) : Type 0 where
    many : o.max_requests < length (t ∷ ts) + 1
    wait : r ≡ t + o.window_ms - now
    stored : lookup key (consume o group_of now key 1 s).1.hits ≡ some (t ∷ ts)

  refused-IsFull :
      (now key r t : ℕ) (ts old : List ℕ) (s : RateLimiter)
      → lookup key s.hits ≡ some old
      → sort (keep (in_window o group_of now) old) ≡ t ∷ ts
      → (consume o group_of now key 1 s).0 ≡ deny (ms r)
      → IsFull now key r t ts old s
  unfolding consume
  refused-IsFull now key r t ts old s found shape refused =
      let kept = keep (in_window o group_of now) old in
      let same = length-sort kept in
      record {
        many = ground (arith, same);
        wait = ground (arith, same);
        stored = ground (arith, same, lookup-insert_self key (sort kept) (erase key s.hits));
      }

  refusal_nonempty :
      (now key r : ℕ) (old : List ℕ) (s : RateLimiter)
      → 0 < o.max_requests
      → lookup key s.hits ≡ some old
      → sort (keep (in_window o group_of now) old) ≡ []
      → (consume o group_of now key 1 s).0 ≡ deny (ms r)
      → ⊥
  unfolding consume
  refusal_nonempty now key r old s pos found nothing refused =
      ground (arith, length-sort (keep (in_window o group_of now) old))

  -- When a check of a tracked key is refused and told to wait for `r` milliseconds, the next check
  -- of the key from then on passes exactly if at least `r` milliseconds have gone by.
  pub retry_exact :
      (now later key r : ℕ) (old : List ℕ) (s : RateLimiter)
      → 0 < o.max_requests
      → length old ≤ o.max_requests
      → lookup key s.hits ≡ some old
      → now ≤ later
      → (check o group_of now key s).0 ≡ deny (ms r)
      → ((check o group_of later key (check o group_of now key s).1).0.allowed ≡ true)
        ↔ (now + r ≤ later)
  retry_exact now later key r old s pos fit found after refused =
      let kept = keep (in_window o group_of now) old in
      let same = check-tracked now key old s found in
      elim (List-cases (sort kept)) [
        | inl nothing ↦ absurd (
            refusal_nonempty now key r old s pos found nothing (ap (λ p. p.0) (sym same) ∙ refused))
        | inr (t, ts, shape) ↦
            let full =
              refused-IsFull now key r t ts old s found shape
                (ap (λ p. p.0) (sym same) ∙ refused) in
            let inside = subst (All (λ u. in_window o group_of now u ≡ true)) shape (
              All-sort (λ u. in_window o group_of now u ≡ true) kept
                (keep-All (in_window o group_of now) old)) in
            let again =
              retry-check later key t ts (consume o group_of now key 1 s).1 full.stored
                (subst IsSorted shape (sort-IsSorted kept))
                (omega (
                  arith,
                  full.many,
                  length-keep-le (in_window o group_of now) old,
                  length-sort kept,
                  ap length shape,
                )) in
            let due : now + r ≡ t + o.window_ms = ground (arith, full.wait, inside) in
            rw due (
              subst
                (λ (s' : RateLimiter).
                  ((check o group_of later key s').0.allowed ≡ true) ↔ (t + o.window_ms ≤ later))
                (ap (λ p. p.1) (sym same)) again)
      ]
