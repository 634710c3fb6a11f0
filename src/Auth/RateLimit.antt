-- ===== src/Auth/RateLimit.antt =====
-- pkg/auth/ratelimit.go: a token bucket for each key. time.Now() is an argument, in nanoseconds; the
-- minutes that have passed times the requests a minute, cut to an integer, are computed exactly.
pub mod Rate
use logsieve.Prelude.{
  ℕ, ◌+◌, ◌-◌, ◌*◌, ◌/◌, ◌≤◌, String, Bool, true, false, not, List, [], ◌∷◌, none, some, ltb,
  if◌then◌else◌, str_eq, length, Dict, lookup, insert, lookup-insert, ◌≡◌, ap, arith, inl, inr,
  Option-cases,
}

pub record RateLimitConfig : Type 0 where
  pub enabled : Bool
  pub requests_per_min : ℕ
  pub burst_size : ℕ

pub record Bucket : Type 0 where
  pub tokens : ℕ
  pub last_refill : ℕ

pub record RateLimiter : Type 0 where
  pub config : RateLimitConfig
  pub buckets : Dict Bucket

abbrev pub minute : ℕ
minute = 60000000000

unfoldable pub new_rate_limiter : RateLimitConfig → RateLimiter
new_rate_limiter config = record { config = config; buckets = [] }

-- int(timePassed.Minutes() * float64(RequestsPerMin)); a clock that goes back adds nothing.
unfoldable pub tokens_to_add : RateLimitConfig → ℕ → ℕ
tokens_to_add config elapsed = elapsed * config.requests_per_min / minute

unfoldable pub refill : RateLimitConfig → ℕ → Bucket → Bucket
refill config now b =
    let add = tokens_to_add config (now - b.last_refill) in
    if ltb 0 add
    then record {
      tokens = if ltb config.burst_size (b.tokens + add) then config.burst_size else b.tokens + add;
      last_refill = now;
    }
    else b

-- The test of the bucket, once refilled.
unfoldable pub take_token : Bucket → Bool × Bucket
take_token b = if ltb 0 b.tokens then (true, record b { tokens = b.tokens - 1 }) else (false, b)

unfoldable pub use_bucket : RateLimitConfig → ℕ → Bucket → Bool × Bucket
use_bucket config now b = take_token (refill config now b)

-- The bucket of a key, or a full one.
unfoldable pub bucket_of : ℕ → String → RateLimiter → Bucket
bucket_of now key rl = elim (lookup key rl.buckets) [
  | none ↦ record { tokens = rl.config.burst_size; last_refill = now }
  | some b ↦ b
]

-- The two readings of the clock: for a new bucket, and for the refill.
unfoldable pub allow : ℕ → ℕ → String → RateLimiter → Bool × RateLimiter
allow made now key rl =
    let u = use_bucket rl.config now (bucket_of made key rl) in
    (u.0, record rl { buckets = insert key u.1 rl.buckets })

-- 200 and on, or 429 and c.Abort().
pub data Reply : Type 0 where
  passes too_many_requests : Reply

unfoldable pub middleware : ℕ → ℕ → String → RateLimiter → Reply × RateLimiter
middleware made now key rl = if not rl.config.enabled then (passes, rl) else (
  if (allow made now key rl).0 then passes else too_many_requests,
  (allow made now key rl).1,
)

-- What getKey reads of a request.
pub record Request : Type 0 where
  pub forwarded_for : String
  pub real_ip : String
  pub api_key : String
  pub client_ip : String

unfoldable pub get_key : String → Request → String
get_key key_func r =
    if str_eq key_func "header"
    then (if not (str_eq r.forwarded_for "")
        then r.forwarded_for
        else if not (str_eq r.real_ip "")
        then r.real_ip
        else r.client_ip)
    else if str_eq key_func "api_key"
    then (if not (str_eq r.api_key "")
        then Prim.Native.String.◌++◌ "key:" r.api_key
        else Prim.Native.String.◌++◌ "ip:" r.client_ip)
    else r.client_ip

abbrev pub idle_time : ℕ
idle_time = 5 * minute

drop_idle : ℕ → Dict Bucket → Dict Bucket
drop_idle cutoff [] = []
drop_idle cutoff ((k, b) ∷ m) =
    let rest = drop_idle cutoff m in if ltb b.last_refill cutoff then rest else (k, b) ∷ rest

-- Buckets last refilled before now - 5 minutes are forgotten.
unfoldable pub cleanup : ℕ → RateLimiter → RateLimiter
unfolding drop_idle
cleanup now rl = record rl { buckets = drop_idle (now - idle_time) rl.buckets }

pub record RateLimiterStats : Type 0 where
  pub enabled : Bool
  pub active_buckets : ℕ
  pub requests_per_min : ℕ
  pub burst_size : ℕ

unfoldable pub stats : RateLimiter → RateLimiterStats
stats rl = record {
  enabled = rl.config.enabled;
  active_buckets = length rl.buckets;
  requests_per_min = rl.config.requests_per_min;
  burst_size = rl.config.burst_size;
}

-- One bucket asked at each of the times in turn: how many requests it lets through.
unfoldable pub use_many : RateLimitConfig → List ℕ → Bucket → ℕ × Bucket
use_many config [] b = (0, b)
use_many config (now ∷ times) b =
    let u = use_bucket config now b in
    let r = use_many config times u.1 in ((if u.0 then 1 else 0) + r.0, r.1)

-- The times do not go back, and do not pass an end.
abbrev pub InOrder : ℕ → List ℕ → ℕ → Type 0
InOrder from [] end = from ≤ end
InOrder from (t ∷ ts) end = (from ≤ t) × InOrder t ts end
