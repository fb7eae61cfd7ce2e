-- ===== src/RateLimiter/Consistency.antt =====
-- The counters of the limiter agree with its map of hits, and its limits hold.
use odatano.Base.{
  ℕ, suc, ◌+◌, ◌-◌, ◌≤◌, ◌<◌, ◌≡◌, sym, subst, inl, inr, true, none, some, List, [], ◌∷◌, arith,
  ◌==◌, leb, length, if◌then◌else◌, or_default, Bool-cases, Option-cases, List-cases,
}
use odatano.Base.Dict.{Dict, lookup, erase, Each, Each-insert}
use odatano.RateLimiter.{
  RateLimiterOptions, RateLimiter, release_group, drop_key, make_room, count_key, store,
}
use odatano.RateLimiter.Counts.{
  Distinct, lookup-erase_self, lookup-erase-none, erase-Distinct, insert-Distinct, length-erase,
  erase_missing, length-insert_new, members, members-erase, members-insert_new, count_in,
  count-insert, count-erase,
}

module _ (o : RateLimiterOptions) (group_of : ℕ → ℕ) where
  -- `counted` says that the counter of each group is the number of its keys.
  pub record IsConsistent (s : RateLimiter) : Type 0 where
    pub distinct : Distinct s.hits
    pub groups : Distinct s.group_counts
    pub counted : (g : ℕ) → count_in s.group_counts g ≡ members group_of g s.hits
    pub grouped : (g : ℕ) → members group_of g s.hits ≤ o.max_keys_per_group
    pub bounded : length s.hits ≤ o.max_keys
    pub limited : Each (λ ts. length ts ≤ o.max_requests) s.hits

  Each-erase :
      (k : ℕ) (m : Dict (List ℕ))
      → Each (λ ts. length ts ≤ o.max_requests) m
      → Each (λ ts. length ts ≤ o.max_requests) (erase k m)
  Each-erase k [] h = tt
  Each-erase k ((j, ts) ∷ m) h = ground (arith, Each-erase k m h.1)

  release-Distinct :
      (g : ℕ) (counts : Dict ℕ) → Distinct counts → Distinct (release_group o group_of g counts)
  unfolding release_group
  release-Distinct g counts d = ground (
    arith,
    erase-Distinct g counts d,
    insert-Distinct g (or_default (lookup g counts) 1 - 1) counts d,
  )

  -- A counter that is not zero goes down by one; the others stay.
  release_count :
      (g h n : ℕ) (counts : Dict ℕ)
      → Distinct counts
      → count_in counts g ≡ suc n
      → count_in (release_group o group_of g counts) h ≡ (if g == h then n else count_in counts h)
  unfolding release_group
  release_count g h n counts d e = ground (
    arith,
    count-erase g h counts d,
    count-insert g h (or_default (lookup g counts) 1 - 1) counts,
  )

  drop-counted :
      (key g : ℕ) (ts : List ℕ) (s : RateLimiter)
      → IsConsistent s
      → lookup key s.hits ≡ some ts
      → count_in (release_group o group_of (group_of key) s.group_counts) g
        ≡ members group_of g (erase key s.hits)
  drop-counted key g ts s c found =
      let own = members-erase group_of (group_of key) key s.hits found in
      let all = members-erase group_of g key s.hits found in
      let now = c.counted (group_of key) in
      let left = members group_of (group_of key) (erase key s.hits) in
      let shape : count_in s.group_counts (group_of key) ≡ suc left = ground arith in
      ground (arith, release_count (group_of key) g left s.group_counts c.groups shape, c.counted g)

  pub drop_key-IsConsistent :
      (key : ℕ) (s : RateLimiter) → IsConsistent s → IsConsistent (drop_key o group_of key s)
  unfolding drop_key
  drop_key-IsConsistent key s c = elim (Option-cases (lookup key s.hits)) [
    | inl missing ↦ rw (missing, drop_key) c
    | inr (ts, found) ↦
        rw (found, drop_key)
          (record {
            distinct = erase-Distinct key s.hits c.distinct;
            groups = release-Distinct (group_of key) s.group_counts c.groups;
            counted = λ g. drop-counted key g ts s c found;
            grouped = λ g. omega (arith, members-erase group_of g key s.hits found, c.grouped g);
            bounded = omega (arith, length-erase key s.hits found, c.bounded);
            limited = Each-erase key s.hits c.limited;
          })
  ]

  -- A new key finds room.
  pub record HasRoom (key : ℕ) (s r : RateLimiter) : Type 0 where
    pub fits : IsConsistent r
    pub missing : lookup key r.hits ≡ none
    pub room : length r.hits < o.max_keys
    pub smaller : (g : ℕ) → members group_of g r.hits ≤ members group_of g s.hits

  drop-HasRoom :
      (key first : ℕ) (ts : List ℕ) (m : Dict (List ℕ)) (s : RateLimiter)
      → IsConsistent s
      → s.hits ≡ (first, ts) ∷ m
      → lookup key s.hits ≡ none
      → HasRoom key s (drop_key o group_of first s)
  unfolding drop_key
  drop-HasRoom key first ts m s c shape missing =
      let found : lookup first s.hits ≡ some ts = ground arith in
      let ok = drop_key-IsConsistent first s c in
      record {
        fits = ok;
        missing = rw (found, drop_key) (lookup-erase-none first key s.hits c.distinct missing);
        room = rw (found, drop_key) (omega (arith, length-erase first s.hits found, c.bounded));
        smaller =
            λ g. rw (found, drop_key) (omega (arith, members-erase group_of g first s.hits found));
      }

  full_room :
      (e : ℕ × List ℕ) (m : Dict (List ℕ)) (s : RateLimiter)
      → leb o.max_keys (length s.hits) ≡ true
      → s.hits ≡ e ∷ m
      → make_room o group_of s ≡ drop_key o group_of e.0 s
  unfolding make_room
  full_room e m s full shape = ground arith

  pub make_room-HasRoom :
      (key : ℕ) (s : RateLimiter)
      → 0 < o.max_keys
      → IsConsistent s
      → lookup key s.hits ≡ none
      → HasRoom key s (make_room o group_of s)
  unfolding make_room
  make_room-HasRoom key s pos c missing = elim (Bool-cases (leb o.max_keys (length s.hits))) [
    | inl full ↦ elim (List-cases s.hits) [
      | inl none_there ↦ absurd (ground arith)
      | inr (e, m, shape) ↦
          let dropped = drop-HasRoom key e.0 e.1 m s c shape missing in
          subst (HasRoom key s) (sym (full_room e m s full shape)) dropped
    ]
    | inr free ↦
        rw (free, make_room)
          (record { fits = c; missing = missing; room = ground arith; smaller = λ g. omega arith })
  ]

  pub store-IsConsistent :
      (key : ℕ) (old ts : List ℕ) (s : RateLimiter)
      → IsConsistent s
      → lookup key s.hits ≡ some old
      → length ts ≤ o.max_requests
      → IsConsistent (store o group_of key ts s)
  unfolding store
  store-IsConsistent key old ts s c found fit =
      let gone = lookup-erase_self key s.hits c.distinct in
      record {
        distinct = insert-Distinct key ts (erase key s.hits) (erase-Distinct key s.hits c.distinct);
        groups = c.groups;
        counted = λ g. omega (
          arith,
          c.counted g,
          members-erase group_of g key s.hits found,
          members-insert_new group_of g key ts (erase key s.hits) gone,
        );
        grouped = λ g. omega (
          arith,
          c.grouped g,
          members-erase group_of g key s.hits found,
          members-insert_new group_of g key ts (erase key s.hits) gone,
        );
        bounded = omega (
          arith,
          c.bounded,
          length-erase key s.hits found,
          length-insert_new key ts (erase key s.hits) gone,
        );
        limited =
            Each-insert (λ ts. length ts ≤ o.max_requests) key ts (erase key s.hits) fit
              (Each-erase key s.hits c.limited);
      }

  -- A new key, counted for its group and stored.
  pub store_new-IsConsistent :
      (key : ℕ) (ts : List ℕ) (s r : RateLimiter)
      → HasRoom key s r
      → members group_of (group_of key) s.hits < o.max_keys_per_group
      → IsConsistent s
      → length ts ≤ o.max_requests
      → IsConsistent (store o group_of key ts (count_key o group_of (group_of key) r))
  unfolding store count_key
  store_new-IsConsistent key ts s r h free c fit =
      let same = erase_missing key r.hits h.missing in
      rw same (record {
        distinct = insert-Distinct key ts r.hits h.fits.distinct;
        groups = insert-Distinct (group_of key) _ r.group_counts h.fits.groups;
        counted = λ g. ground (
          arith,
          count-insert (group_of key) g (count_in r.group_counts (group_of key) + 1) r.group_counts,
          h.fits.counted g,
          members-insert_new group_of g key ts r.hits h.missing,
        );
        grouped = λ g. ground (
          arith,
          h.smaller g,
          c.grouped g,
          members-insert_new group_of g key ts r.hits h.missing,
        );
        bounded = omega (arith, h.room, length-insert_new key ts r.hits h.missing);
        limited = Each-insert (λ ts. length ts ≤ o.max_requests) key ts r.hits fit h.fits.limited;
      })
