-- ===== src/Members/Model.antt =====
-- prisma/membership.prisma: the Membership model, and what MembershipsService logs.
-- An id is a UUID, a number of 128 bits; the timestamps of a row, which no service reads, are left
-- out.
use saas_backend_blueprint.Prelude.{ℕ, String, Bool, true, false, ◌&&◌, ◌||◌, ◌==◌, List, Option}
use saas_backend_blueprint.Access.Roles.{MembershipRole}

abbrev pub Uuid : Type 0
Uuid = ℕ

pub data MembershipStatus : Type 0 where
  active invited suspended : MembershipStatus

abbrev pub is_active : MembershipStatus → Bool
is_active active = true
is_active _ = false

abbrev pub is_invited : MembershipStatus → Bool
is_invited invited = true
is_invited _ = false

pub record Membership : Type 0 where
  pub id : Uuid
  pub user_id : Uuid
  pub org_id : Uuid
  pub role : MembershipRole
  pub status : MembershipStatus

-- `@id` and `@@unique([userId, orgId])`
abbrev pub clash : Membership → Membership → Bool
clash m n = m.id == n.id || m.user_id == n.user_id && m.org_id == n.org_id

-- The `dto` of `createMembership`.
pub record CreateMembership : Type 0 where
  pub user_id : Uuid
  pub role : MembershipRole
  pub status : Option MembershipStatus

-- An entry of the activity log; `roles` is the role, or the previous and the new role.
pub record Activity : Type 0 where
  pub org_id : Uuid
  pub actor_id : Option Uuid
  pub action : String
  pub entity_id : Uuid
  pub target_user_id : Option Uuid
  pub roles : List MembershipRole

-- An event of the legal audit.
pub record AuditEvent : Type 0 where
  pub event_type : String
  pub org_id : Uuid
  pub trigger_type : String
  pub membership_id : Option Uuid
  pub target_user_id : Uuid
  pub roles : List MembershipRole
  pub actor_user_id : Option Uuid
