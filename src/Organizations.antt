-- ===== src/Organizations.antt =====
-- libs/organizations and, of prisma/organization.prisma, the status of an organization.
pub mod Repository
pub mod Service
mod Ownership
mod Tests
use saas_backend_blueprint.Prelude.{Bool, true, false}

pub data OrganizationStatus : Type 0 where
  active suspended pending_deletion deleted : OrganizationStatus

abbrev pub is_suspended : OrganizationStatus → Bool
is_suspended suspended = true
is_suspended _ = false
