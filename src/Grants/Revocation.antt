-- ===== src/Grants/Revocation.antt =====
-- A revoked grant's token is refused, if the revocation is committed before the cache forgets it.
use odatano.Base.{
  ℕ, zero, suc, ◌≤◌, ◌≡◌, refl, sym, subst, Bool, false, Option, none, some, List, [], ◌∷◌, ◌&&◌,
  not, keep, ltb, leb, length, ◌==◌, arith, All, if_ind, inl, inr, Bool-cases,
}
use odatano.Base.Table.{select_one, update_where, All-update_where}
use odatano.Grants.{
  Grant, patched, is_expired, is_live_grant, revoke_agent_grant, rotate_agent_grant,
}
use odatano.Grants.Tokens.{
  CachedToken, Lookup, TokenCache, Resolution, accepted, has_hash, find_hash, delete_hash,
  token_cache_max, invalidate_token_cache, emptied_if_full, remember_token, judge, read_grant,
  Started, after_hit, begin_resolve, after_row, end_resolve,
}
use odatano.Grants.Instances.{
  Instance, Step, begins, reads, ends, issues, revokes, rotates, edits, invalidates, at, without,
  with_row, begun, ended, end_with, end_at, step, steps,
}

-- The cache finds the one token that it has of the grant.
abbrev pub IsIndexed : ℕ → TokenCache → Type 0
IsIndexed id c = All (λ t. t.grant.id ≡ id → find_hash id c.hashes ≡ some t.hash) c.tokens

some_lookup : (x l : Lookup) → some x ≡ some l → x ≡ l
some_lookup x l e = ground arith

module _ (id : ℕ) (since : ℕ) where
  abbrev IsOther : Grant → Type 0
  IsOther g = (g.id == id) ≡ false

  abbrev NotRead : Option (Option Grant) → Type 0
  NotRead (some (some g)) = IsOther g
  NotRead _ = Unit

  abbrev pub NotAccepted : Resolution → Type 0
  NotAccepted (accepted g) = IsOther g
  NotAccepted _ = Unit

  -- No row of the grant is live, none is cached, and no recent lookup has read one.
  abbrev IsGone : List Grant → TokenCache → List Lookup → List (ℕ × Resolution) → Type 0
  IsGone table c flights answered =
      All (λ g. is_live_grant id g ≡ false) table
      × All (λ t. IsOther t.grant) c.tokens
      × (since ≤ c.current)
      × All (λ l. since ≤ l.generation → NotRead l.row) flights
      × All (λ p. since ≤ p.0 → NotAccepted p.1) answered

  abbrev Gone : Instance → Type 0
  Gone i = IsGone i.table i.cache i.flights i.answered

  read_grant_lem :
      (hash : ℕ) (gs : List Grant)
      → All (λ g. is_live_grant id g ≡ false) gs
      → NotRead (some (read_grant hash gs))
  read_grant_lem hash [] h = tt
  read_grant_lem hash (g ∷ gs) h =
      if_ind (λ (o : Option Grant). NotRead (some o)) (g.token_hash == hash && g.is_active)
        (λ e. ground (arith, e, h.0)) (λ e. read_grant_lem hash gs h.1)

  judge_lem : (g : Grant) (now : ℕ) → IsOther g → NotAccepted (judge g now)
  judge_lem g now h = if_ind NotAccepted (is_expired g now) (λ e. tt) (λ e. h)

  keep_all {ℓ} :
      {A : Type ℓ} (P : A → Type 0) (p : A → Bool) (xs : List A) → All P xs → All P (keep p xs)
  keep_all P p [] h = tt
  keep_all P p (x ∷ xs) h =
      if_ind (All P) (p x) (λ e. (h.0, keep_all P p xs h.1)) (λ e. keep_all P p xs h.1)

  found-IsOther :
      (hash : ℕ) (ts : List CachedToken)
      → All (λ t. IsOther t.grant) ts
      → (t : CachedToken) → select_one (has_hash hash) ts ≡ some t
      → IsOther t.grant
  found-IsOther hash [] h t e = ground arith
  found-IsOther hash (x ∷ ts) h t e = elim (Bool-cases (has_hash hash x)) [
    | inl here ↦ let same : x ≡ t = ground arith in subst (λ t. IsOther t.grant) same h.0
    | inr other ↦ found-IsOther hash ts h.1 t (ground arith)
  ]

  module _ (ttl : ℕ) where
    started_lem :
        (hash now : ℕ) (o : Option CachedToken) (i : Instance)
        → ((t : CachedToken) → o ≡ some t → IsOther t.grant)
        → Gone i
        → Gone (
            begun ttl
              (after_hit hash now o i.cache).0
              (record i { cache = (after_hit hash now o i.cache).1 }))
    started_lem hash now none i found (rows, tokens, le, flights, answered) =
        (rows, tokens, le, ((λ e. tt), flights), answered)
    started_lem hash now (some t) i found (rows, tokens, le, flights, answered) =
        if_ind (λ (p : Started × TokenCache). Gone (begun ttl p.0 (record i { cache = p.1 })))
          (ltb now t.until)
          (λ e.
            (rows, tokens, le, flights, ((λ e. judge_lem t.grant now (found t refl)), answered)))
          (λ e. (
            rows,
            keep_all (λ t. IsOther t.grant) (λ t. not (has_hash hash t)) i.cache.tokens tokens,
            le,
            ((λ e. tt), flights),
            answered,
          ))

    begins_lem : (hash now : ℕ) (i : Instance) → Gone i → Gone (step ttl (begins hash now) i)
    unfolding step begin_resolve
    begins_lem hash now i h =
        if_ind (λ (p : Started × TokenCache). Gone (begun ttl p.0 (record i { cache = p.1 })))
          (ltb 0 ttl)
          (λ e.
            started_lem hash now (select_one (has_hash hash) i.cache.tokens) i
              (found-IsOther hash i.cache.tokens h.1) h)
          (λ e. started_lem hash now none i (λ t e. ground arith) h)

    reads_lem :
        (table : List Grant) (n : ℕ) (ls : List Lookup)
        → All (λ g. is_live_grant id g ≡ false) table
        → All (λ l. since ≤ l.generation → NotRead l.row) ls
        → All (λ l. since ≤ l.generation → NotRead l.row) (with_row table n ls)
    reads_lem table n [] rows h = tt
    reads_lem table zero (l ∷ ls) rows h = ((λ e. read_grant_lem l.key table rows), h.1)
    reads_lem table (suc n) (l ∷ ls) rows h = (h.0, reads_lem table n ls rows h.1)

    All-without {ℓ} :
        (P : Lookup → Type ℓ) (n : ℕ) (ls : List Lookup) → All P ls → All P (without n ls)
    All-without P n [] h = tt
    All-without P zero (l ∷ ls) h = h.1
    All-without P (suc n) (l ∷ ls) h = (h.0, All-without P n ls h.1)

    All-at {ℓ} :
        (P : Lookup → Type ℓ) (n : ℕ) (ls : List Lookup) (l : Lookup)
        → All P ls
        → at n ls ≡ some l
        → P l
    All-at P n [] l h e = ground arith
    All-at P zero (x ∷ ls) l h e = subst P (some_lookup x l e) h.0
    All-at P (suc n) (x ∷ ls) l h e = All-at P n ls l h.1 e

    remember_lem :
        (hash : ℕ) (g : Grant) (now : ℕ) (c : TokenCache)
        → IsOther g
        → All (λ t. IsOther t.grant) c.tokens
        → All (λ t. IsOther t.grant) (remember_token hash g ttl now c).tokens
    unfolding remember_token
    remember_lem hash g now c other h =
        let emptied : All (λ t. IsOther t.grant) (emptied_if_full c).tokens =
          if_ind (λ (c : TokenCache). All (λ t. IsOther t.grant) c.tokens)
            (leb token_cache_max (length c.tokens)) {x = record c { tokens = []; hashes = [] }}
            {y = c} (λ e. tt) (λ e. h) in
        (
          other,
          keep_all (λ t. IsOther t.grant) (λ t. not (has_hash hash t)) (emptied_if_full c).tokens
              emptied,
        )

    remember-current :
        (hash : ℕ) (g : Grant) (now : ℕ) (c : TokenCache)
        → (remember_token hash g ttl now c).current ≡ c.current
    unfolding remember_token
    remember-current hash g now c =
        if_ind (λ (d : TokenCache). d.current ≡ c.current) (leb token_cache_max (length c.tokens))
          {x = record c { tokens = []; hashes = [] }} {y = c} (λ e. refl) (λ e. refl)

    accepted_lem :
        (l : Lookup) (now : ℕ) (g : Grant) (i : Instance)
        → (since ≤ l.generation → IsOther g)
        → Gone i
        → Gone (
            ended ttl l.generation
              (after_row ttl l now (some g) i.cache).0
              (after_row ttl l now (some g) i.cache).1
              i)
    accepted_lem l now g i other (rows, tokens, le, flights, answered) =
        if_ind (λ (p : Resolution × TokenCache). Gone (ended ttl l.generation p.0 p.1 i))
          (is_expired g now) (λ e. (rows, tokens, le, flights, ((λ e. tt), answered)))
          (λ e.
            if_ind (λ (c : TokenCache). Gone (ended ttl l.generation (accepted g) c i))
              (ltb 0 ttl && l.generation == i.cache.current)
              (λ e.
                let at : l.generation ≡ i.cache.current = ground (arith, e) in
                (
                  rows,
                  remember_lem l.key g now i.cache (other (subst (λ n. since ≤ n) (sym at) le))
                      tokens,
                  subst (λ n. since ≤ n) (sym (remember-current l.key g now i.cache)) le,
                  flights,
                  (other, answered),
                ))
              (λ e. (rows, tokens, le, flights, (other, answered))))

    ended_lem :
        (l : Lookup) (now : ℕ) (row : Option (Option Grant)) (i : Instance)
        → (since ≤ l.generation → NotRead row)
        → Gone i
        → Gone (end_with ttl now l row i)
    unfolding end_resolve
    ended_lem l now none i other h = h
    ended_lem l now (some none) i other (rows, tokens, le, flights, answered) =
        (rows, tokens, le, flights, ((λ e. tt), answered))
    ended_lem l now (some (some g)) i other h = accepted_lem l now g i other h

    end_at_lem :
        (n now : ℕ) (o : Option Lookup) (i : Instance)
        → ((l : Lookup) → o ≡ some l → since ≤ l.generation → NotRead l.row)
        → Gone i
        → Gone (end_at ttl n now o i)
    end_at_lem n now none i other h = h
    end_at_lem n now (some l) i other h =
        ended_lem l now l.row (record i { flights = without n i.flights }) (other l refl)
          (
            h.0,
            h.1,
            h.2,
            All-without (λ l. since ≤ l.generation → NotRead l.row) n i.flights h.3,
            h.4,
          )

    -- A statement that revives no row of the grant.
    rows_lem :
        (w : Grant → Bool) (f : Grant → Grant)
        → ((g : Grant) → is_live_grant id g ≡ false → is_live_grant id (f g) ≡ false)
        → (i : Instance) → Gone i
        → Gone (record i { table = update_where w f i.table })
    rows_lem w f dead i h = (
      All-update_where (λ g. is_live_grant id g ≡ false) w f (λ g e k. dead g k) i.table h.0,
      h.1,
      h.2,
      h.3,
      h.4,
    )

    -- New grants have new IDs.
    abbrev pub IsNewFor : Step → Type 0
    IsNewFor (issues g) = (g.id == id) ≡ false
    IsNewFor _ = Unit

    step_lem : (s : Step) (i : Instance) → IsNewFor s → Gone i → Gone (step ttl s i)
    unfolding step revoke_agent_grant rotate_agent_grant invalidate_token_cache
    step_lem (begins hash now) i new h = begins_lem hash now i h
    step_lem (reads n) i new h = (h.0, h.1, h.2, reads_lem i.table n i.flights h.0 h.3, h.4)
    step_lem (ends n now) i new h =
        end_at_lem n now (at n i.flights) i
          (λ l e. All-at (λ l. since ≤ l.generation → NotRead l.row) n i.flights l h.3 e) h
    step_lem (issues g) i new h = ((ground (arith, new), h.0), h.1, h.2, h.3, h.4)
    step_lem (revokes j now) i new h =
        rows_lem (is_live_grant j) (λ g. record g { is_active = false; revoked_at = some now })
          (λ g k. ground arith) i h
    step_lem (rotates j hash) i new h =
        rows_lem (is_live_grant j) (λ g. record g { token_hash = hash }) (λ g k. k) i h
    step_lem (edits j e n) i new h = rows_lem (is_live_grant j) (patched e n) (λ g k. k) i h
    step_lem (invalidates j) i new h = (
      h.0,
      deleted (find_hash j i.cache.hashes) i.cache.tokens h.1,
      ground (arith, h.2),
      h.3,
      h.4,
    )
      where
        deleted :
            (o : Option ℕ) (ts : List CachedToken)
            → All (λ t. IsOther t.grant) ts
            → All (λ t. IsOther t.grant) (delete_hash o ts)
        deleted none ts k = k
        deleted (some hash) ts k = keep_all (λ t. IsOther t.grant) (λ t. not (has_hash hash t)) ts k

    pub steps_lem :
        (ss : List Step) (i : Instance) → All IsNewFor ss → Gone i → Gone (steps ttl ss i)
    steps_lem [] i new h = h
    steps_lem (s ∷ ss) i new h = steps_lem ss (step ttl s i) new.1 (step_lem s i new.0 h)

revoked_rows :
    (id now : ℕ) (gs : List Grant)
    → All (λ g. is_live_grant id g ≡ false) (revoke_agent_grant id now gs).1
unfolding revoke_agent_grant
revoked_rows id now [] = tt
revoked_rows id now (g ∷ gs) = (
  if_ind (λ (g : Grant). is_live_grant id g ≡ false) (is_live_grant id g) (λ e. ground arith)
      (λ e. e),
  revoked_rows id now gs,
)

-- A cached token of the grant is the one that is found, or there is none.
other_token :
    (id : ℕ) (o : Option ℕ) (t : CachedToken)
    → (t.grant.id ≡ id → o ≡ some t.hash)
    → ((h : ℕ) → o ≡ some h → has_hash h t ≡ false)
    → (t.grant.id == id) ≡ false
other_token id o t found off = elim (Bool-cases (t.grant.id == id)) [
  | inl same ↦
      let hit : o ≡ some t.hash = found (ground arith) in
      let miss : has_hash t.hash t ≡ false = off t.hash hit in ground (arith, miss)
  | inr other ↦ other
]

forgotten :
    (id : ℕ) (o : Option ℕ) (ts : List CachedToken)
    → All (λ t. t.grant.id ≡ id → o ≡ some t.hash) ts
    → All (λ t. (t.grant.id == id) ≡ false) (delete_hash o ts)
forgotten id none [] k = tt
forgotten id none (t ∷ ts) k =
    (other_token id none t k.0 (λ h e. ground arith), forgotten id none ts k.1)
forgotten id (some h) [] k = tt
forgotten id (some h) (t ∷ ts) k =
    if_ind (All (λ t. (t.grant.id == id) ≡ false)) (not (has_hash h t))
      (λ e. (
        other_token id (some h) t k.0 (λ j same. ground (arith, e, same)),
        forgotten id (some h) ts k.1,
      ))
      (λ e. forgotten id (some h) ts k.1)

-- A revoked grant's token is refused: once an instance has forgotten a grant whose revocation is
-- committed, no request that begins after that is accepted for the grant, whatever is requested, read,
-- issued with a new ID, revoked, rotated, edited or forgotten then, and however the lookups in flight
-- interleave. The cache is asked to find the grant's one token by its ID, and the lookups in flight to
-- have begun in the cache's generation or before.
pub revoked_token_is_refused :
    (ttl id now : ℕ) (gs : List Grant) (i : Instance) (ss : List Step)
    → i.table ≡ (revoke_agent_grant id now gs).1
    → IsIndexed id i.cache
    → All (λ l. l.generation ≤ i.cache.current) i.flights
    → i.answered ≡ []
    → All (IsNewFor id (suc i.cache.current) ttl) ss
    → All
        (λ p. suc i.cache.current ≤ p.0 → NotAccepted id (suc i.cache.current) p.1)
        (steps ttl (invalidates id ∷ ss) i).answered
unfolding step invalidate_token_cache
revoked_token_is_refused ttl id now gs i ss committed indexed older none_yet new =
    (steps_lem id (suc i.cache.current) ttl ss (step ttl (invalidates id) i) new (
      subst (All (λ g. is_live_grant id g ≡ false)) (sym committed) (revoked_rows id now gs),
      forgotten id (find_hash id i.cache.hashes) i.cache.tokens indexed,
      omega arith,
      past i.flights older,
      subst (All (λ p. suc i.cache.current ≤ p.0 → NotAccepted id (suc i.cache.current) p.1))
          (sym none_yet) tt,
    )).4
  where
    past :
        (ls : List Lookup)
        → All (λ l. l.generation ≤ i.cache.current) ls
        → All (λ l. suc i.cache.current ≤ l.generation → NotRead id (suc i.cache.current) l.row) ls
    past [] h = tt
    past (l ∷ ls) h = ((λ e. absurd (ground (arith, e, h.0))), past ls h.1)
