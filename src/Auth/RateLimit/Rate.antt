-- ===== src/Auth/RateLimit/Rate.antt =====
-- The token buckets of pkg/auth/ratelimit.go: the rate that they let through, the burst, and the
-- keys apart from each other.
use logsieve.Prelude.{
  ℕ, ◌+◌, ◌-◌, ◌*◌, ◌/◌, ◌≤◌, String, false, List, [], ◌∷◌, some, if◌then◌else◌, str_eq, Dict,
  lookup, insert, lookup-insert, ◌≡◌, ap, arith, inl, inr, Option-cases,
}
use logsieve.Auth.RateLimit.{
  RateLimitConfig, Bucket, RateLimiter, minute, tokens_to_add, refill, take_token, use_bucket,
  bucket_of, allow, idle_time, drop_idle, cleanup, use_many, InOrder,
}

-- The credit that a bucket has by the end of a period: its tokens, in units of 1 / minute, and what
-- runs up from the last refill to the end.
abbrev credit : RateLimitConfig → ℕ → Bucket → ℕ
credit config end b = b.tokens * minute + (end - b.last_refill) * config.requests_per_min

refill_arith :
    (tokens rpm before after : ℕ)
    → (tokens + before * rpm / minute) * minute + after * rpm
      ≤ tokens * minute + (after + before) * rpm
refill_arith tokens rpm before after = omega arith

times_split :
    (last now end rpm : ℕ)
    → last ≤ now
    → now ≤ end
    → (end - last) * rpm ≡ ((end - now) + (now - last)) * rpm
times_split last now end rpm h k = ap (λ n. n * rpm) (omega arith)

refill-credit :
    (config : RateLimitConfig) (now end : ℕ) (b : Bucket)
    → b.last_refill ≤ now
    → now ≤ end
    → (credit config end (refill config now b) ≤ credit config end b)
      × ((refill config now b).last_refill ≤ now)
unfolding refill tokens_to_add
refill-credit config now end b h k = ground (
  arith,
  refill_arith b.tokens config.requests_per_min (now - b.last_refill) (end - now),
  times_split b.last_refill now end config.requests_per_min h k,
)

use_bucket-credit :
    (config : RateLimitConfig) (now end : ℕ) (b : Bucket)
    → b.last_refill ≤ now
    → now ≤ end
    → let u = use_bucket config now b in
      ((if u.0 then 1 else 0) * minute + credit config end u.1 ≤ credit config end b)
      × ((u.1).last_refill ≤ now)
unfolding use_bucket take_token
use_bucket-credit config now end b h k = ground (arith, refill-credit config now end b h k)

end_of : (from : ℕ) (times : List ℕ) (end : ℕ) → InOrder from times end → from ≤ end
end_of from [] end h = h
end_of from (t ∷ ts) end h = omega (arith, end_of t ts end h.1)

use_many-credit :
    (config : RateLimitConfig) (times : List ℕ) (from end : ℕ) (b : Bucket)
    → b.last_refill ≤ from
    → InOrder from times end
    → (use_many config times b).0 * minute ≤ credit config end b
unfolding use_many
use_many-credit config [] from end b h o = omega arith
use_many-credit config (t ∷ ts) from end b h o =
    let u = use_bucket-credit config t end b (omega arith) (end_of t ts end o.1) in
    omega (arith, u.0, use_many-credit config ts t end (use_bucket config t b).1 u.1 o.1)

refill_tokens :
    (config : RateLimitConfig) (now : ℕ) (b : Bucket)
    → b.tokens ≤ config.burst_size
    → (refill config now b).tokens ≤ config.burst_size
unfolding refill
refill_tokens config now b h = ground arith

-- The limit holds: a key whose bucket holds at most the burst at its last refill is let through at
-- most the burst and the configured rate times the time that passes, however the requests fall, as
-- long as the clock does not go back and the bucket is not forgotten. Times are in nanoseconds.
pub use_many-rate :
    (config : RateLimitConfig) (times : List ℕ) (end : ℕ) (b : Bucket)
    → b.tokens ≤ config.burst_size
    → InOrder b.last_refill times end
    → (use_many config times b).0 * minute
      ≤ config.burst_size * minute + (end - b.last_refill) * config.requests_per_min
use_many-rate config times end b h o =
    omega (arith, use_many-credit config times b.last_refill end b (omega arith) o)

abbrev pub IsCapped : ℕ → Dict Bucket → Type 0
IsCapped burst [] = Unit {0}
IsCapped burst ((k, b) ∷ m) = (b.tokens ≤ burst) × IsCapped burst m

IsCapped-insert :
    (burst : ℕ) (k : String) (b : Bucket) (m : Dict Bucket)
    → b.tokens ≤ burst
    → IsCapped burst m
    → IsCapped burst (insert k b m)
unfolding insert
IsCapped-insert burst k b [] h c = (h, tt)
IsCapped-insert burst k b ((j, x) ∷ m) h c = ground (arith, IsCapped-insert burst k b m h c.1)

IsCapped-drop_idle :
    (burst cutoff : ℕ) (m : Dict Bucket) → IsCapped burst m → IsCapped burst (drop_idle cutoff m)
unfolding drop_idle
IsCapped-drop_idle burst cutoff [] c = tt
IsCapped-drop_idle burst cutoff ((j, x) ∷ m) c =
    ground (arith, IsCapped-drop_idle burst cutoff m c.1)

capped_lookup :
    (burst : ℕ) (k : String) (m : Dict Bucket) (b : Bucket)
    → IsCapped burst m
    → lookup k m ≡ some b
    → b.tokens ≤ burst
unfolding lookup
capped_lookup burst k [] b c h = cc
capped_lookup burst k ((j, x) ∷ m) b c h = ground (arith, capped_lookup burst k m b c.1)

bucket_of_capped :
    (made : ℕ) (key : String) (rl : RateLimiter)
    → IsCapped rl.config.burst_size rl.buckets
    → (bucket_of made key rl).tokens ≤ rl.config.burst_size
unfolding bucket_of
bucket_of_capped made key rl c = elim (Option-cases (lookup key rl.buckets)) [
  | inl e ↦ ground arith
  | inr (b, e) ↦ ground (arith, capped_lookup rl.config.burst_size key rl.buckets b c e)
]

-- Requests and cleanups keep every bucket at the burst or below.
pub allow-IsCapped :
    (made now : ℕ) (key : String) (rl : RateLimiter)
    → IsCapped rl.config.burst_size rl.buckets
    → IsCapped rl.config.burst_size (allow made now key rl).1.buckets
      × IsCapped rl.config.burst_size (cleanup now rl).buckets
unfolding allow cleanup use_bucket take_token
allow-IsCapped made now key rl c =
    let b = bucket_of made key rl in
    let r = refill_tokens rl.config now b (bucket_of_capped made key rl c) in
    (
      IsCapped-insert rl.config.burst_size key _ rl.buckets (ground (arith, r)) c,
      IsCapped-drop_idle rl.config.burst_size (now - idle_time) rl.buckets c,
    )

-- A request for one key leaves the buckets of all other keys as they were.
pub allow_isolated :
    (made now : ℕ) (key other : String) (rl : RateLimiter)
    → str_eq key other ≡ false
    → lookup other (allow made now key rl).1.buckets ≡ lookup other rl.buckets
unfolding allow
allow_isolated made now key other rl h =
    ground (
      arith,
      lookup-insert key other (use_bucket rl.config now (bucket_of made key rl)).1 rl.buckets,
    )
