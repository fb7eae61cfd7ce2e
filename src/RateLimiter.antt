-- ===== src/RateLimiter.antt =====
-- srv/utils/rate-limiter.ts: the in-memory sliding-window limiter.
-- A key is a string that the limiter compares and maps to its group; keys and groups are numbers
-- here, under any function `group_of` (Keys.antt has the one of the source, on the text of a key).
-- `Date.now()` is an argument. `t > now - windowMs` is written `now < t + window_ms`, which has its
-- value also where the difference is negative. The timer that calls `sweep` is not modelled.
pub mod Keys
pub mod Counts
pub mod Sorting
pub mod Consistency
pub mod Serving
pub mod Window
pub mod Batch
mod Tests
use odatano.Base.{
  ℕ, suc, ◌+◌, ◌-◌, Bool, true, false, Option, none, some, List, [], ◌∷◌, ◌++◌, leb, ltb, ◌==◌, not,
  any, keep, length, replicate, if◌then◌else◌, or_default,
}
use odatano.Base.Dict.{Dict, lookup, has, insert, erase}

pub record RateLimiterOptions : Type 0 where
  pub window_ms : ℕ
  pub max_requests : ℕ
  pub max_keys : ℕ
  pub max_keys_per_group : ℕ

-- `maxKeys || 10_000` and `maxKeysPerGroup || 64`: zero, like a missing value, takes the default.
abbrev pub or_if_zero : Option ℕ → ℕ → ℕ
or_if_zero none d = d
or_if_zero (some n) d = if n == 0 then d else n

pub options : ℕ → ℕ → Option ℕ → Option ℕ → RateLimiterOptions
options window requests keys per_group = record {
  window_ms = window;
  max_requests = requests;
  max_keys = or_if_zero keys 10_000;
  max_keys_per_group = or_if_zero per_group 64;
}

-- `Math.min()` of no number is `Infinity`.
pub data Wait : Type 0 where
  ms : ℕ → Wait
  infinity : Wait

pub record RateCheckResult : Type 0 where
  pub allowed : Bool
  pub retry_after_ms : Wait

abbrev pub pass : RateCheckResult
pass = record { allowed = true; retry_after_ms = ms 0 }

abbrev pub deny : Wait → RateCheckResult
deny w = record { allowed = false; retry_after_ms = w }

pub record RateLimiter : Type 0 where
  pub hits : Dict (List ℕ)
  pub group_counts : Dict ℕ

abbrev pub empty : RateLimiter
empty = record { hits = []; group_counts = [] }

-- `sort((a, b) => a - b)`
abbrev pub insert_sorted : ℕ → List ℕ → List ℕ
insert_sorted t [] = t ∷ []
insert_sorted t (u ∷ us) = if leb t u then t ∷ u ∷ us else u ∷ insert_sorted t us

abbrev pub sort : List ℕ → List ℕ
sort [] = []
sort (t ∷ ts) = insert_sorted t (sort ts)

-- `Math.min(...ts)`
abbrev pub minimum : List ℕ → Wait
minimum [] = infinity
minimum (t ∷ ts) = elim (minimum ts) [ infinity ↦ ms t | ms u ↦ ms (if leb t u then t else u) ]

module _ (o : RateLimiterOptions) (group_of : ℕ → ℕ) where
  open o use {window_ms, max_requests, max_keys, max_keys_per_group}

  abbrev pub in_window : ℕ → ℕ → Bool
  in_window now t = ltb now (t + window_ms)

  abbrev pub hits_of : ℕ → RateLimiter → List ℕ
  hits_of key s = or_default (lookup key s.hits) []

  abbrev pub count_of : ℕ → RateLimiter → ℕ
  count_of group s = or_default (lookup group s.group_counts) 0

  release_group : ℕ → Dict ℕ → Dict ℕ
  release_group group counts =
      let n = or_default (lookup group counts) 1 - 1 in
      if n == 0 then erase group counts else insert group n counts

  pub drop_key : ℕ → RateLimiter → RateLimiter
  unfolding release_group
  drop_key key s =
      if has key s.hits
      then record {
        hits = erase key s.hits;
        group_counts = release_group (group_of key) s.group_counts;
      }
      else s

  -- At capacity the first key of the map, the least recently used one, is dropped.
  pub make_room : RateLimiter → RateLimiter
  unfolding drop_key
  make_room s =
      if leb max_keys (length s.hits) then elim s.hits [ [] ↦ s | e ∷ _ ↦ drop_key e.0 s ] else s

  pub count_key : ℕ → RateLimiter → RateLimiter
  count_key group s = record s { group_counts = insert group (count_of group s + 1) s.group_counts }

  -- What happens to a key that is not tracked yet; `none` if its group is full.
  track : ℕ → RateLimiter → Option RateLimiter
  unfolding make_room count_key
  track key s =
      if has key s.hits
      then some s
      else if leb max_keys_per_group (count_of (group_of key) s)
      then none
      else some (count_key (group_of key) (make_room s))

  -- The rest of `checkMany`: the key is put last, with its hits in the window and the new ones.
  pub store : ℕ → List ℕ → RateLimiter → RateLimiter
  store key ts s = record s { hits = insert key ts (erase key s.hits) }

  retry_after : ℕ → List ℕ → Wait
  retry_after now [] = ms window_ms
  retry_after now (t ∷ ts) = ms (t + window_ms - now)

  consume : ℕ → ℕ → ℕ → RateLimiter → RateCheckResult × RateLimiter
  unfolding store retry_after
  consume now key count s =
      let ts = keep (in_window now) (hits_of key s) in
      if ltb max_requests (length ts + count)
      then (deny (retry_after now (sort ts)), store key (sort ts) s)
      else (pass, store key (ts ++ replicate count now) s)

  unfoldable pub check_many : ℕ → ℕ → ℕ → RateLimiter → RateCheckResult × RateLimiter
  unfolding track consume
  check_many now key count s = if count == 0 then (pass, s) else elim (track key s) [
    | none ↦ (deny (ms window_ms), s)
    | some s' ↦ consume now key count s'
  ]

  unfoldable pub check : ℕ → ℕ → RateLimiter → RateCheckResult × RateLimiter
  unfolding check_many
  check now key s = check_many now key 1 s

  until : ℕ → Wait → Wait
  until now infinity = infinity
  until now (ms t) = ms (t + window_ms - now)

  unfoldable pub peek : ℕ → ℕ → RateLimiter → RateCheckResult
  unfolding until
  peek now key s =
      let ts = keep (in_window now) (hits_of key s) in
      if ltb (length ts) max_requests then pass else deny (until now (minimum ts))

  sweep_entries : ℕ → Dict (List ℕ) → RateLimiter → RateLimiter
  sweep_entries now [] s = s
  sweep_entries now ((key, ts) ∷ m) s =
      sweep_entries now m (if any (in_window now) ts then s else drop_key key s)

  unfoldable pub sweep : ℕ → RateLimiter → RateLimiter
  unfolding sweep_entries drop_key
  sweep now s = sweep_entries now s.hits s

abbrev pub reset : RateLimiter → RateLimiter
reset s = empty
