-- ===== src/RateLimiter/Keys.antt =====
-- srv/utils/rate-limiter.ts: the keys of the limiter on the text level (`groupOf`,
-- `principalRateKey`). A text is the list of its code points.
use Prim.Native.Char.{code}
use Prim.Native.String.{String}
use mathlib.Core.List.{append_assoc}
use odatano.Base.{
  ℕ, ◌≡◌, refl, ◌≢◌, Option, none, some, List, [], ◌∷◌, ◌++◌, map, arith, ◌==◌, if◌then◌else◌, All,
}

abbrev pub codes : String → List ℕ
codes String.[] = []
codes (String.◌∷◌ c s) = code c ∷ codes s

-- Everything before the first ':'; the whole key if it has none.
pub group_of : List ℕ → List ℕ
group_of [] = []
group_of (c ∷ cs) = if c == b':' then [] else c ∷ group_of cs

-- `replace(/:/g, '.')`
abbrev pub dotted : List ℕ → List ℕ
dotted = map (λ c. if c == b':' then b'.' else c)

abbrev pub by_address : Option (List ℕ) → List ℕ
by_address none = codes "anonymous"
by_address (some []) = codes "anonymous"
by_address (some (c ∷ cs)) = codes "ip=" ++ dotted (c ∷ cs)

-- The user, else the client address; an empty text counts as missing.
unfoldable pub principal_of : Option (List ℕ) → Option (List ℕ) → List ℕ
principal_of none ip = by_address ip
principal_of (some []) ip = by_address ip
principal_of (some (c ∷ cs)) ip = codes "user=" ++ (c ∷ cs)

pub principal_rate_key : Option (List ℕ) → Option (List ℕ) → List ℕ → List ℕ
unfolding principal_of
principal_rate_key user ip scope = principal_of user ip ++ (b':' ∷ scope)

abbrev pub HasNoColon : List ℕ → Type 0
HasNoColon cs = All (λ c. c ≢ b':') cs

group_of-append : (cs scope : List ℕ) → HasNoColon cs → group_of (cs ++ (b':' ∷ scope)) ≡ cs
unfolding group_of
group_of-append [] scope h = refl
group_of-append (c ∷ cs) scope h = ground (arith, group_of-append cs scope h.1)

dotted-HasNoColon : (cs : List ℕ) → HasNoColon (dotted cs)
dotted-HasNoColon [] = tt
dotted-HasNoColon (c ∷ cs) = ground (arith, dotted-HasNoColon cs)

by_address-HasNoColon : (ip : Option (List ℕ)) → HasNoColon (by_address ip)
by_address-HasNoColon none = omega arith
by_address-HasNoColon (some []) = omega arith
by_address-HasNoColon (some (c ∷ cs)) =
    (omega arith, (omega arith, (omega arith, dotted-HasNoColon (c ∷ cs))))

abbrev pub UserHasNoColon : Option (List ℕ) → Type 0
UserHasNoColon none = Unit
UserHasNoColon (some cs) = HasNoColon cs

principal-HasNoColon :
    (user ip : Option (List ℕ)) → UserHasNoColon user → HasNoColon (principal_of user ip)
unfolding principal_of
principal-HasNoColon none ip h = by_address-HasNoColon ip
principal-HasNoColon (some []) ip h = by_address-HasNoColon ip
principal-HasNoColon (some (c ∷ cs)) ip h =
    (omega arith, (omega arith, (omega arith, (omega arith, (omega arith, h)))))

-- The group of a key is its principal, for every address, IPv6 included, and every scope, if the
-- user's name has no ':'.
pub group_of-principal_rate_key :
    (user ip : Option (List ℕ)) (scope : List ℕ)
    → UserHasNoColon user
    → group_of (principal_rate_key user ip scope) ≡ principal_of user ip
unfolding principal_rate_key
group_of-principal_rate_key user ip scope h =
    group_of-append (principal_of user ip) scope (principal-HasNoColon user ip h)

-- For a user whose name has a ':', as the principal `agent:<id>` of a token, the group is only what
-- stands before it: all such users share one group.
pub group_of-colon_user :
    (c : ℕ) (name rest scope : List ℕ) (ip : Option (List ℕ))
    → HasNoColon (c ∷ name)
    → group_of (principal_rate_key (some (c ∷ (name ++ (b':' ∷ rest)))) ip scope)
      ≡ codes "user=" ++ (c ∷ name)
unfolding principal_rate_key principal_of
group_of-colon_user c name rest scope ip h = rw (append_assoc name (b':' ∷ rest) (b':' ∷ scope)) (
    group_of-append (codes "user=" ++ (c ∷ name)) (rest ++ (b':' ∷ scope))
      (omega arith, (omega arith, (omega arith, (omega arith, (omega arith, h))))))
