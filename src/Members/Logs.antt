-- ===== src/Members/Logs.antt =====
-- libs/memberships/src/application/services/memberships.service.ts: the row that `createMembership`
-- writes, and what the three writing methods hand to the activity log and to the legal audit.
use saas_backend_blueprint.Prelude.{String, [], ◌∷◌, Option, some}
use saas_backend_blueprint.Access.Roles.{MembershipRole}
use saas_backend_blueprint.Members.Model.{Uuid, Membership, CreateMembership, Activity, AuditEvent}
use saas_backend_blueprint.Members.Repository.{status_or_default}

abbrev pub new_row : Uuid → Uuid → CreateMembership → Membership
new_row id org dto = record {
  id = id;
  user_id = dto.user_id;
  org_id = org;
  role = dto.role;
  status = status_or_default dto.status;
}

-- What the three writing methods log.
unfoldable pub created_activity : Uuid → Uuid → CreateMembership → Option Uuid → Activity
created_activity id org dto actor = record {
  org_id = org;
  actor_id = actor;
  action = "membership.created";
  entity_id = id;
  target_user_id = some dto.user_id;
  roles = dto.role ∷ [];
}

unfoldable pub created_event : Uuid → Uuid → CreateMembership → Option Uuid → String → AuditEvent
created_event id org dto actor trigger = record {
  event_type = "membership.created";
  org_id = org;
  trigger_type = trigger;
  membership_id = some id;
  target_user_id = dto.user_id;
  roles = dto.role ∷ [];
  actor_user_id = actor;
}

unfoldable pub role_changed_activity :
    Uuid → Membership → MembershipRole → Option Uuid → Uuid → Activity
role_changed_activity org m role actor id = record {
  org_id = org;
  actor_id = actor;
  action = "membership.role_changed";
  entity_id = id;
  target_user_id = some m.user_id;
  roles = m.role ∷ role ∷ [];
}

unfoldable pub role_changed_event :
    Uuid → Membership → MembershipRole → Option Uuid → String → Uuid → AuditEvent
role_changed_event org m role actor trigger id = record {
  event_type = "membership.role_changed";
  org_id = org;
  trigger_type = trigger;
  membership_id = some id;
  target_user_id = m.user_id;
  roles = m.role ∷ role ∷ [];
  actor_user_id = actor;
}

unfoldable pub deleted_activity : Uuid → Membership → Option Uuid → Uuid → Activity
deleted_activity org m actor id = record {
  org_id = org;
  actor_id = actor;
  action = "membership.deleted";
  entity_id = id;
  target_user_id = some m.user_id;
  roles = m.role ∷ [];
}

unfoldable pub deleted_event : Uuid → Membership → Option Uuid → String → Uuid → AuditEvent
deleted_event org m actor trigger id = record {
  event_type = "membership.deleted";
  org_id = org;
  trigger_type = trigger;
  membership_id = some id;
  target_user_id = m.user_id;
  roles = m.role ∷ [];
  actor_user_id = actor;
}
