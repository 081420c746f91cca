-- ===== src/Guards.antt =====
-- common/guards: the rate limiter of the unauthenticated routes.
pub mod RateLimit
