-- ===== src/Access/Roles.antt =====
-- libs/common/src/rbac/roles.constants.ts: roles, their hierarchy and their permissions.
pub mod Hierarchy
use saas_backend_blueprint.Prelude.{
  ℕ, suc, String, str_eq, Bool, true, false, List, [], ◌∷◌, Option, none, some, any, leb,
  if◌then◌else◌,
}
use saas_backend_blueprint.Access.Permissions

pub data MembershipRole : Type 0 where
  owner admin member read_only : MembershipRole

-- `===` on roles
abbrev pub role_eq : MembershipRole → MembershipRole → Bool
role_eq owner owner = true
role_eq admin admin = true
role_eq member member = true
role_eq read_only read_only = true
role_eq _ _ = false

abbrev pub role_hierarchy : List MembershipRole
role_hierarchy = read_only ∷ member ∷ admin ∷ owner ∷ []

-- `array.indexOf`; none is -1
abbrev pub index_of : MembershipRole → List MembershipRole → Option ℕ
index_of r [] = none
index_of r (q ∷ qs) =
    if role_eq q r then some 0 else elim (index_of r qs) [ none ↦ none | some i ↦ some (suc i) ]

abbrev pub index_ge : Option ℕ → Option ℕ → Bool
index_ge (some i) (some j) = leb j i
index_ge _ _ = false

unfoldable pub is_role_higher_or_equal : MembershipRole → MembershipRole → Bool
is_role_higher_or_equal user_role required_role =
    index_ge (index_of user_role role_hierarchy) (index_of required_role role_hierarchy)

unfoldable pub role_permissions : MembershipRole → List String
role_permissions owner =
    Permissions.org_manage ∷ Permissions.org_billing_manage ∷ Permissions.org_members_invite
    ∷ Permissions.org_members_remove ∷ Permissions.org_members_role_update ∷ Permissions.org_read
    ∷ Permissions.audit_read ∷ Permissions.analytics_view ∷ Permissions.analytics_export
    ∷ Permissions.planning_manage ∷ Permissions.planning_manage_any ∷ []
role_permissions admin =
    Permissions.org_manage ∷ Permissions.org_members_invite ∷ Permissions.org_members_remove
    ∷ Permissions.org_members_role_update ∷ Permissions.org_read ∷ Permissions.audit_read
    ∷ Permissions.analytics_view ∷ Permissions.planning_manage ∷ Permissions.planning_manage_any
    ∷ []
role_permissions member =
    Permissions.org_read ∷ Permissions.analytics_view ∷ Permissions.planning_manage ∷ []
role_permissions read_only = Permissions.org_read ∷ []

-- `permissions.includes(p)`
abbrev pub includes : List String → String → Bool
includes ps p = any (λ q. str_eq q p) ps

-- `roles.includes(r)`
abbrev pub includes_role : List MembershipRole → MembershipRole → Bool
includes_role rs r = any (λ q. role_eq q r) rs
