-- ===== src/Api.antt =====
-- What the API handlers share: lib/api/core, and the rate limit of lib/api/public-records.
pub mod Idempotency
pub mod RateLimit
