-- ===== src/Auth.antt =====
-- pkg/auth: the API key check and the token bucket rate limiter.
pub mod ApiKey
pub mod RateLimit
pub mod Tests
