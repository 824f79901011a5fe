-- ===== src/RateLimit.antt =====
-- lib/rate-limit and policies/rate-limiting: the limits on the number of requests.
pub mod Headers
pub mod Limiter
pub mod Middleware
pub mod Tests
