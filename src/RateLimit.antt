-- ===== src/RateLimit.antt =====
-- internal/ratelimit: whom a request is counted for (`ClientIp`, clientip.go), which addresses
-- are blocked for failed authentications (`Auth`, auth.go) and how many requests are let
-- through (this file, middleware.go). Tokens are counted in units of 1 / (60 * 10 ^ 9), in which a
-- nanosecond refills `rpm`; the rounding of the source's float64 is not modelled. Times are nanoseconds
-- since the epoch and given to each call. The calls of the hooks, the span and the log are left out.
pub mod Auth
pub mod Rate
pub mod Reaper
pub mod Interval
pub mod ClientIp
mod Examples
use nexus_proxy.Shared.{
  ℕ, suc, ◌+◌, ◌-◌, ◌*◌, ◌≤◌, ◌<◌, ◌≡◌, refl, String, Bool, true, false, not, List, [], ◌∷◌, Option,
  none, some, ltb, leb, arith, ◌==◌, if◌then◌else◌,
}
use nexus_proxy.Shared.Int.{ℤ, pos, pos_part, nonpos}
use nexus_proxy.Shared.Assoc.{string_eq, lookup, insert, delete}

-- One token.
abbrev pub unit : ℕ
unit = 60000000000

pub record Bucket : Type 0 where
  pub tokens : ℕ
  pub last_refill : ℕ
  pub last_seen : ℕ

pub record Middleware : Type 0 where
  pub rpm : ℕ
  pub burst : ℕ
  pub ttl : ℕ
  pub buckets : List (String × Bucket)
  pub hits_total : List (String × ℕ)
  pub rejections_total : ℕ

-- `NewMiddleware`; a rate that is not positive gives the disabled one.
unfoldable pub new_middleware : ℤ → ℤ → Middleware
new_middleware rpm burst =
    let disabled : Middleware = record {
      rpm = 0;
      burst = 0;
      ttl = 0;
      buckets = [];
      hits_total = [];
      rejections_total = 0;
    } in
    let enabled : Middleware = record {
      rpm = pos_part rpm;
      burst = if nonpos burst then pos_part rpm else pos_part burst;
      ttl = 600000000000;
      buckets = [];
      hits_total = [];
      rejections_total = 0;
    } in
    if nonpos rpm then disabled else enabled

abbrev pub full_bucket : ℕ → ℕ → Bucket
full_bucket burst now = record { tokens = burst * unit; last_refill = now; last_seen = now }

abbrev pub or_fresh : Bucket → Option Bucket → Bucket
or_fresh fresh (some b) = b
or_fresh fresh none = fresh

-- `bucketFor`.
unfoldable pub bucket_for : Middleware → String → ℕ → Bucket
bucket_for m key now = or_fresh (full_bucket m.burst now) (lookup key m.buckets)

-- The refill that opens `allow`.
unfoldable pub refill : ℕ → ℕ → Bucket → ℕ → Bucket
refill rpm burst b now =
    let filled = b.tokens + (now - b.last_refill) * rpm in
    if ltb b.last_refill now
    then record {
      tokens = if ltb (burst * unit) filled then burst * unit else filled;
      last_refill = now;
      last_seen = now;
    }
    else record b { last_seen = now }

-- The decision that closes `allow`.
unfoldable pub take_token : Bucket → Bucket × Bool
take_token b =
    if leb unit b.tokens then (record b { tokens = b.tokens - unit }, true) else (b, false)

-- `allow`.
unfoldable pub allow : Middleware → String → ℕ → Middleware × Bool
unfolding bucket_for
allow m key now =
    let (b, ok) = take_token (refill m.rpm m.burst (bucket_for m key now) now) in
    (record m { buckets = insert key b m.buckets }, ok)

-- What the wrapped handler does with a request.
pub data Verdict : Type 0 where
  served : Verdict
  too_many_requests : Verdict

unfoldable pub inc_rate_limit_hit : String → Middleware → Middleware
inc_rate_limit_hit id m = elim (lookup id m.hits_total) [
  | some n ↦ record m { hits_total = insert id (n + 1) m.hits_total }
  | none ↦ record m { hits_total = insert id 1 m.hits_total }
]

-- The handler of `Wrap`, of the key of the request and its hash.
unfoldable pub handle : Middleware → (String → String) → String → ℕ → Middleware × Verdict
unfolding inc_rate_limit_hit
handle m hashed_bucket_key key now =
    let (m', ok) = allow m key now in
    if m.rpm == 0
    then (m, served)
    else (if ok
        then (inc_rate_limit_hit (hashed_bucket_key key) m', served)
        else (record m' { rejections_total = m'.rejections_total + 1 }, too_many_requests))

-- One turn of the loop of `reap`, of the bucket under the key.
unfoldable pub reap_one :
    ℕ → ℕ → String → Option Bucket → List (String × Bucket) → List (String × Bucket)
reap_one ttl now key none m = m
reap_one ttl now key (some b) m = if ltb ttl (now - b.last_seen) then delete key m else m

-- The loop of `reap` over the entries of the map.
unfoldable pub reap_keys :
    ℕ → ℕ → List (String × Bucket) → List (String × Bucket) → List (String × Bucket)
unfolding reap_one
reap_keys ttl now [] m = m
reap_keys ttl now ((key, b) ∷ entries) m =
    reap_keys ttl now entries (reap_one ttl now key (lookup key m) m)

-- `reap`.
unfoldable pub reap : Middleware → ℕ → Middleware
unfolding reap_keys
reap m now = record m { buckets = reap_keys m.ttl now m.buckets m.buckets }
