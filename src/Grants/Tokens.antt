-- ===== src/Grants/Tokens.antt =====
-- srv/utils/agent-grants.ts: the token cache of one instance. A lookup that misses the cache is a SELECT
-- that it awaits: it begins, reads the committed table, and ends, and other steps may stand between.
-- `hashAgentToken` is a parameter's work: tokens are given by their hashes.
use odatano.Base.{
  ℕ, suc, ◌+◌, Bool, Option, none, some, List, [], ◌∷◌, ◌&&◌, not, keep, ltb, leb, length, ◌==◌,
  if◌then◌else◌,
}
use odatano.Base.Table.{select_one}
use odatano.Grants.{Grant, is_expired}

pub record CachedToken : Type 0 where
  pub hash : ℕ
  pub grant : Grant
  pub until : ℕ

-- A lookup in flight: the token's hash, the generation at its beginning, and what it has read, if it has.
pub record Lookup : Type 0 where
  pub key : ℕ
  pub generation : ℕ
  pub row : Option (Option Grant)

-- `hashes` is `tokenHashOfGrant`, an ID with a hash.
pub record TokenCache : Type 0 where
  pub tokens : List CachedToken
  pub hashes : List (ℕ × ℕ)
  pub current : ℕ

pub data Resolution : Type 0 where
  accepted : Grant → Resolution
  -- 401 and 410
  invalid_token grant_expired : Resolution

abbrev pub has_hash : ℕ → CachedToken → Bool
has_hash h t = t.hash == h

abbrev pub find_hash : ℕ → List (ℕ × ℕ) → Option ℕ
find_hash id [] = none
find_hash id ((g, h) ∷ hs) = if g == id then some h else find_hash id hs

abbrev pub delete_hash : Option ℕ → List CachedToken → List CachedToken
delete_hash none ts = ts
delete_hash (some h) ts = keep (λ t. not (has_hash h t)) ts

-- `invalidateTokenCache`
unfoldable pub invalidate_token_cache : ℕ → TokenCache → TokenCache
invalidate_token_cache id c = record {
  tokens = delete_hash (find_hash id c.hashes) c.tokens;
  hashes = keep (λ p. not (p.0 == id)) c.hashes;
  current = suc c.current;
}

-- `TOKEN_CACHE_MAX`
abbrev pub token_cache_max : ℕ
token_cache_max = 10_000

abbrev pub emptied_if_full : TokenCache → TokenCache
emptied_if_full c =
    if leb token_cache_max (length c.tokens) then record c { tokens = []; hashes = [] } else c

abbrev pub put_token : CachedToken → TokenCache → TokenCache
put_token t c = record c {
  tokens = t ∷ delete_hash (some t.hash) c.tokens;
  hashes = (t.grant.id, t.hash) ∷ keep (λ p. not (p.0 == t.grant.id)) c.hashes;
}

-- `rememberToken`
unfoldable pub remember_token : ℕ → Grant → ℕ → ℕ → TokenCache → TokenCache
remember_token hash g ttl now c =
    put_token (record { hash = hash; grant = g; until = now + ttl }) (emptied_if_full c)

abbrev pub judge : Grant → ℕ → Resolution
judge g now = if is_expired g now then grant_expired else accepted g

-- `SELECT … WHERE tokenHash = <hash> AND isActive`
abbrev pub read_grant : ℕ → List Grant → Option Grant
read_grant hash gs = select_one (λ g. g.token_hash == hash && g.is_active) gs

-- The first part of `resolveAgentToken`: an answer from the cache, or a lookup to be awaited.
pub data Started : Type 0 where
  answers : Resolution → Started
  awaits : Lookup → Started

abbrev pub start_lookup : ℕ → TokenCache → Started
start_lookup hash c = awaits (record { key = hash; generation = c.current; row = none })

abbrev pub after_hit : ℕ → ℕ → Option CachedToken → TokenCache → Started × TokenCache
after_hit hash now none c = (start_lookup hash c, c)
after_hit hash now (some t) c =
    if ltb now t.until
    then (answers (judge t.grant now), c)
    else (start_lookup hash c, record c { tokens = delete_hash (some hash) c.tokens })

unfoldable pub begin_resolve : ℕ → ℕ → ℕ → TokenCache → Started × TokenCache
begin_resolve ttl hash now c =
    if ltb 0 ttl
    then after_hit hash now (select_one (has_hash hash) c.tokens) c
    else (start_lookup hash c, c)

-- The last part, when the row has been read.
abbrev pub after_row : ℕ → Lookup → ℕ → Option Grant → TokenCache → Resolution × TokenCache
after_row ttl l now none c = (invalid_token, c)
after_row ttl l now (some g) c = if is_expired g now then (grant_expired, c) else (
  accepted g,
  if ltb 0 ttl && l.generation == c.current then remember_token l.key g ttl now c else c,
)

unfoldable pub end_resolve : ℕ → Lookup → ℕ → Option Grant → TokenCache → Resolution × TokenCache
unfolding remember_token
end_resolve ttl l now row c = after_row ttl l now row c
