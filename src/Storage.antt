-- ===== src/Storage.antt =====
-- libs/storage: files kept in S3 or Azure.
pub mod Model
pub mod Repository
pub mod Policy
pub mod Service
pub mod Quota
pub mod Lifecycle
pub mod Tenancy
mod Tests
