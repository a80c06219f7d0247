-- ===== src/Features.antt =====
-- libs/feature-flags: what the plan of an organization entitles it to.
pub mod Model
pub mod Repository
pub mod Service
pub mod Guard
pub mod Listener
mod Overrides
mod Tests
