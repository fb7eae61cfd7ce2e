-- ===== src/Grants/Instances.antt =====
-- srv/utils/agent-grants.ts: the requests of one instance and the statements of all, step by step.
use odatano.Base.{ℕ, zero, suc, Option, none, some, List, [], ◌∷◌}
use odatano.Base.Table.{update_where}
use odatano.Grants.{
  Grant, GrantEdit, NormalizedInput, patched, is_live_grant, revoke_agent_grant, rotate_agent_grant,
}
use odatano.Grants.Tokens.{
  Lookup, TokenCache, Resolution, invalidate_token_cache, read_grant, Started, answers, awaits,
  begin_resolve, end_resolve,
}

-- One instance: the committed rows, its cache, the lookups in flight, and the answers that it has given,
-- each with the generation of the cache at the beginning of its request.
pub record Instance : Type 0 where
  pub table : List Grant
  pub cache : TokenCache
  pub flights : List Lookup
  pub answered : List (ℕ × Resolution)

pub data Step : Type 0 where
  -- a request with the token's hash, and the time
  begins : ℕ → ℕ → Step
  -- the SELECT of a lookup in flight, by its place, and its end
  reads : ℕ → Step
  ends : ℕ → ℕ → Step
  -- committed statements: of this instance or of another one
  issues : Grant → Step
  revokes : ℕ → ℕ → Step
  rotates : ℕ → ℕ → Step
  edits : ℕ → GrantEdit → NormalizedInput → Step
  invalidates : ℕ → Step

abbrev pub at : ℕ → List Lookup → Option Lookup
at n [] = none
at zero (l ∷ ls) = some l
at (suc n) (l ∷ ls) = at n ls

abbrev pub without : ℕ → List Lookup → List Lookup
without n [] = []
without zero (l ∷ ls) = ls
without (suc n) (l ∷ ls) = l ∷ without n ls

abbrev pub with_row : List Grant → ℕ → List Lookup → List Lookup
with_row gs n [] = []
with_row gs zero (l ∷ ls) = record l { row = some (read_grant l.key gs) } ∷ ls
with_row gs (suc n) (l ∷ ls) = l ∷ with_row gs n ls

module _ (ttl : ℕ) where
  abbrev pub log : ℕ → Resolution → Instance → Instance
  log n r i = record i { answered = (n, r) ∷ i.answered }

  abbrev pub begun : Started → Instance → Instance
  begun (answers r) i = log i.cache.current r i
  begun (awaits l) i = record i { flights = l ∷ i.flights }

  abbrev pub ended : ℕ → Resolution → TokenCache → Instance → Instance
  ended n r c i = log n r (record i { cache = c })

  -- Only a lookup that has read its row can end.
  abbrev pub end_with : ℕ → Lookup → Option (Option Grant) → Instance → Instance
  end_with now l none i = i
  end_with now l (some row) i =
      let (r, c) = end_resolve ttl l now row i.cache in ended l.generation r c i

  abbrev pub end_at : ℕ → ℕ → Option Lookup → Instance → Instance
  end_at n now none i = i
  end_at n now (some l) i = end_with now l l.row (record i { flights = without n i.flights })

  unfoldable pub step : Step → Instance → Instance
  unfolding begin_resolve end_resolve revoke_agent_grant rotate_agent_grant invalidate_token_cache
  step (begins hash now) i =
      let (started, c) = begin_resolve ttl hash now i.cache in
      begun started (record i { cache = c })
  step (reads n) i = record i { flights = with_row i.table n i.flights }
  step (ends n now) i = end_at n now (at n i.flights) i
  step (issues g) i = record i { table = g ∷ i.table }
  step (revokes id now) i = record i { table = (revoke_agent_grant id now i.table).1 }
  step (rotates id hash) i = record i { table = (rotate_agent_grant id hash i.table).1 }
  step (edits id e n) i = record i { table = update_where (is_live_grant id) (patched e n) i.table }
  step (invalidates id) i = record i { cache = invalidate_token_cache id i.cache }

  abbrev pub steps : List Step → Instance → Instance
  steps [] i = i
  steps (s ∷ ss) i = steps ss (step s i)
