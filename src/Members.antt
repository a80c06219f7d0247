-- ===== src/Members.antt =====
-- libs/memberships: who belongs to which organization, with which role.
pub mod Model
pub mod Repository
pub mod Logs
pub mod Service
pub mod Calls
pub mod Keyed
pub mod Tenancy
pub mod Trail
pub mod Accounts
pub mod Remove
pub mod Invite
pub mod Seats
mod Tests
