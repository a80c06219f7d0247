-- ===== src/Security.antt =====
-- libs/security: the services that limit failed logins and request rates.
pub mod BruteForce
pub mod RateLimit
mod Tests
