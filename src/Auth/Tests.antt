-- ===== src/Auth/Tests.antt =====
-- The API keys and the rate limit on small inputs.
use logsieve.Prelude.{
  has_prefix, insert, some, ◌+◌, ◌-◌, ◌*◌, ◌≤◌, true, false, [], ◌∷◌, if◌then◌else◌, str_eq, lookup,
  ◌≡◌, refl, arith, inl, inr,
}
use logsieve.Auth.ApiKey
use logsieve.Auth.ApiKey.{
  AuthMiddleware, Offers, skip, add_keys, validate_api_key, new_auth_middleware, add_api_key,
  remove_api_key, has_key, cut_bearer, middleware_passes_iff, validate_api_key-changes,
  validate_api_key-new,
}
use logsieve.Auth.RateLimit.{RateLimitConfig, Bucket, minute, use_many}
use logsieve.Auth.RateLimit.Rate.{use_many-rate}

abbrev config : ApiKey.Config
config = record {
  enabled = true;
  api_keys = "k1" ∷ "k2" ∷ [];
  bearer_auth = true;
  basic_auth = false;
}

abbrev guard : AuthMiddleware
guard = new_auth_middleware config

abbrev by_token : ApiKey.Request
by_token = record { api_key_header = "bad"; authorization = "Bearer k2"; api_key_query = "" }

k2_valid : validate_api_key guard "k2" ≡ true
unfolding validate_api_key new_auth_middleware add_keys lookup insert
k2_valid = refl

token_k2 : cut_bearer "Bearer k2" ≡ some "k2"
unfolding cut_bearer skip has_prefix
token_k2 = refl

guard_on : guard.config.enabled ≡ true
unfolding new_auth_middleware
guard_on = refl

guard_bearer : guard.config.bearer_auth ≡ true
unfolding new_auth_middleware
guard_bearer = refl

middleware_passes_iff_example : ApiKey.middleware guard by_token ≡ ApiKey.passes
middleware_passes_iff_example =
    (middleware_passes_iff guard by_token guard_on).0 "k2" (inr (inl (guard_bearer, token_k2)))
      k2_valid

validate_api_key-new_example :
    validate_api_key guard "k2" ≡ (if str_eq "k2" "" then false else has_key "k2" config.api_keys)
validate_api_key-new_example = validate_api_key-new config "k2"

abbrev limits : RateLimitConfig
limits = record { enabled = true; requests_per_min = 60; burst_size = 2 }

abbrev full : Bucket
full = record { tokens = 2; last_refill = 0 }

use_many-rate_example :
    (use_many limits (0 ∷ 5 ∷ 10 ∷ []) full).0 * minute ≤ 2 * minute + (10 - 0) * 60
use_many-rate_example =
    use_many-rate limits (0 ∷ 5 ∷ 10 ∷ []) 10 full (omega arith)
      (omega arith, (omega arith, (omega arith, omega arith)))
