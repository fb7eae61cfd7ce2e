-- ===== src/RateLimiter/Batch.antt =====
-- A check takes all the slots that it asks for, or none.
use odatano.Base.{
  ℕ, ◌<◌, ◌≡◌, refl, sym, ap, ◌∙◌, subst, inl, inr, true, false, Option, none, some, List, [], ◌++◌,
  arith, leb, or_default, replicate, Option-cases, keep, length, Bool-cases, List-cases,
}
use odatano.Base.Dict.{lookup, erase, lookup-insert_self}
use odatano.RateLimiter.{
  RateLimiterOptions, RateLimiter, RateCheckResult, ms, deny, sort, in_window, hits_of, consume,
  track, make_room, drop_key, count_key, count_of, check_many,
}
use odatano.RateLimiter.Counts.{Distinct, lookup-erase-none}
use odatano.RateLimiter.Sorting.{length-sort, All-sort}
use odatano.RateLimiter.Window.{keep-All, keep_every}

module _ (o : RateLimiterOptions) (group_of : ℕ → ℕ) where
  -- What `consume` leaves recorded for the key.
  consume-recorded :
      (now key count : ℕ) (s r : RateLimiter)
      → lookup key r.hits ≡ lookup key s.hits
      → let kept = keep (in_window o group_of now) (hits_of o group_of key s) in
        let (answer, s') = consume o group_of now key count r in
        (answer.allowed ≡ true → hits_of o group_of key s' ≡ kept ++ replicate count now)
        × (answer.allowed ≡ false → hits_of o group_of key s' ≡ sort kept)
  unfolding consume
  consume-recorded now key count s r same =
      let kept = keep (in_window o group_of now) (hits_of o group_of key r) in
      let p =
        ap (λ (h : Option (List ℕ)). keep (in_window o group_of now) (or_default h [])) same in
      (
        λ e.
            ground
              (arith, p, lookup-insert_self key (kept ++ replicate count now) (erase key r.hits)),
        λ e. ground (arith, p, lookup-insert_self key (sort kept) (erase key r.hits)),
      )

  make_room-lookup :
      (key : ℕ) (s : RateLimiter)
      → Distinct s.hits
      → lookup key s.hits ≡ none
      → lookup key (make_room o group_of s).hits ≡ none
  unfolding make_room drop_key
  make_room-lookup key s d missing = elim (List-cases s.hits) [
    | inl nothing ↦ ground arith
    | inr (e, m, shape) ↦ ground (arith, lookup-erase-none e.0 key s.hits d missing)
  ]

  -- The conclusion about a check, for its answer and the state after it.
  abbrev pub TakesAll : ℕ → ℕ → ℕ → RateLimiter → RateCheckResult × RateLimiter → Type 0
  TakesAll now key count s (answer, s') =
      let kept = keep (in_window o group_of now) (hits_of o group_of key s) in
      (answer.allowed ≡ true → hits_of o group_of key s' ≡ kept ++ replicate count now)
      × (answer.allowed ≡ false
          → length (keep (in_window o group_of now) (hits_of o group_of key s')) ≡ length kept)

  consume-TakesAll :
      (now key count : ℕ) (s r : RateLimiter)
      → lookup key r.hits ≡ lookup key s.hits
      → TakesAll now key count s (consume o group_of now key count r)
  consume-TakesAll now key count s r same =
      let p = in_window o group_of now in
      let kept = keep p (hits_of o group_of key s) in
      let (taken, left) = consume-recorded now key count s r same in
      let fixed =
        keep_every p (sort kept)
          (All-sort (λ t. p t ≡ true) kept (keep-All p (hits_of o group_of key s))) in
      (taken, λ e. ap (λ ts. length (keep p ts)) (left e) ∙ (ap length fixed ∙ length-sort kept))

  module _ (now key count : ℕ) where
    check_many-found :
        (old : List ℕ) (s : RateLimiter)
        → 0 < count
        → lookup key s.hits ≡ some old
        → check_many o group_of now key count s ≡ consume o group_of now key count s
    unfolding check_many track
    check_many-found old s pos found = ground arith

    check_many-crowded :
        (s : RateLimiter)
        → 0 < count
        → lookup key s.hits ≡ none
        → leb o.max_keys_per_group (count_of o group_of (group_of key) s) ≡ true
        → check_many o group_of now key count s ≡ (deny (ms o.window_ms), s)
    unfolding check_many track
    check_many-crowded s pos missing crowded = ground arith

    check_many-new :
        (s : RateLimiter)
        → 0 < count
        → lookup key s.hits ≡ none
        → leb o.max_keys_per_group (count_of o group_of (group_of key) s) ≡ false
        → check_many o group_of now key count s
          ≡ consume o group_of now key count
              (count_key o group_of (group_of key) (make_room o group_of s))
    unfolding check_many track
    check_many-new s pos missing free = ground arith

  -- A batch of slots is taken whole or not at all: if the check passes, the hits of the key in the
  -- window are followed by one hit for each slot asked for; if it is refused, as many hits of the
  -- key lie in the window as before.
  pub all_or_none :
      (now key count : ℕ) (s : RateLimiter)
      → 0 < count
      → Distinct s.hits
      → TakesAll now key count s (check_many o group_of now key count s)
  unfolding check_many track
  all_or_none now key count s pos d = elim (Option-cases (lookup key s.hits)) [
    | inr (old, found) ↦
        subst (TakesAll now key count s) (sym (check_many-found now key count old s pos found))
          (consume-TakesAll now key count s s refl)
    | inl missing ↦
        elim (Bool-cases (leb o.max_keys_per_group (count_of o group_of (group_of key) s))) [
          | inl crowded ↦
              subst (TakesAll now key count s)
                (sym (check_many-crowded now key count s pos missing crowded))
                ((λ e. cc), λ e. refl)
          | inr free ↦
              subst (TakesAll now key count s)
                (sym (check_many-new now key count s pos missing free))
                (consume-TakesAll now key count s _
                  (make_room-lookup key s d missing ∙ sym missing))
        ]
  ]
