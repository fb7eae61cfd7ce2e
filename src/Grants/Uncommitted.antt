-- ===== src/Grants/Uncommitted.antt =====
-- A revocation inside a transaction that is not yet committed: the handlers of CardanoAgentService give
-- `cds.tx(req)` to `revokeAgentGrantById`, so that the cache forgets the token before the commit.
use odatano.Base.{ℕ, ◌+◌, ◌<◌, ◌≡◌, true, false, Option, none, some, List, [], ◌∷◌, arith}
use odatano.Grants.{Grant, is_expired, revoke_agent_grant}
use odatano.Grants.Tokens.{
  Resolution, accepted, invalidate_token_cache, remember_token, begin_resolve, end_resolve,
}
use odatano.Grants.Instances.{
  Instance, Step, begins, reads, ends, revokes, invalidates, step, steps,
}

-- The last answer.
abbrev pub latest : Instance → Option Resolution
latest i = elim i.answered [ [] ↦ none | ◌∷◌ p ps ↦ some p.1 ]

-- An empty cache and one grant.
abbrev pub serving : Grant → ℕ → Instance
serving g n = record {
  table = g ∷ [];
  cache = record { tokens = []; hashes = []; current = n };
  flights = [];
  answered = [];
}

-- The cache forgets the grant, a request looks its token up, the revocation is committed, and a second
-- request comes.
abbrev pub early : Grant → ℕ → ℕ → List Step
early g now later =
    invalidates g.id
    ∷ begins g.token_hash now
    ∷ reads 0
    ∷ ends 0 now
    ∷ revokes g.id now
    ∷ begins g.token_hash later
    ∷ []

-- A revoked token is let in: if the cache forgets a live, unexpired grant before its revocation is
-- committed, and a request with the token is resolved in between, then a request that begins after the
-- commit and within the lifetime of the cache is still accepted.
pub revoked_token_is_accepted :
    (ttl now later n : ℕ) (g : Grant)
    → g.is_active ≡ true
    → is_expired g now ≡ false
    → is_expired g later ≡ false
    → later < now + ttl
    → latest (steps ttl (early g now later) (serving g n)) ≡ some (accepted g)
unfolding step begin_resolve end_resolve remember_token invalidate_token_cache revoke_agent_grant
revoked_token_is_accepted ttl now later n g live fresh still soon =
    ground (arith, live, fresh, still, soon)
