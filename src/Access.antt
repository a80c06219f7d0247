-- ===== src/Access.antt =====
-- Who may do what: libs/common/src/rbac and libs/rbac.
pub mod Permissions
pub mod Roles
pub mod Context
pub mod Cache
pub mod Resolver
pub mod Guard
pub mod Incoming
pub mod OrgContext
mod Lookup
pub mod Coherence
mod Tests
