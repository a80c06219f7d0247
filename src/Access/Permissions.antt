-- ===== src/Access/Permissions.antt =====
-- libs/common/src/rbac/permissions.constants.ts. A permission is its string.
use saas_backend_blueprint.Prelude.{String}

abbrev pub org_manage : String
org_manage = "org.manage"

abbrev pub org_billing_manage : String
org_billing_manage = "org.billing.manage"

abbrev pub org_members_invite : String
org_members_invite = "org.members.invite"

abbrev pub org_members_remove : String
org_members_remove = "org.members.remove"

abbrev pub org_members_role_update : String
org_members_role_update = "org.members.role.update"

abbrev pub org_read : String
org_read = "org.read"

abbrev pub audit_read : String
audit_read = "audit.read"

abbrev pub analytics_view : String
analytics_view = "analytics.view"

abbrev pub analytics_export : String
analytics_export = "analytics.export"

abbrev pub planning_manage : String
planning_manage = "planning.manage"

abbrev pub planning_manage_any : String
planning_manage_any = "planning.manage_any"
