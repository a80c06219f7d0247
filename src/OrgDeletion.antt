-- ===== src/OrgDeletion.antt =====
-- libs/org-deletion: the deletion of an organization.
pub mod Model
pub mod Repository
pub mod Service
pub mod Worker
pub mod Requests
pub mod Erasure
pub mod Steps
pub mod Outcomes
pub mod Completion
mod Tests
