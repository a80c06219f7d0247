-- ===== src/Access/Context.antt =====
-- libs/rbac/src/services/rbac.service.ts: the context of a user in an organization, read from the
-- membership.
use saas_backend_blueprint.Prelude.{String, Bool, false, ◌&&◌, List, Option, none, some, all, any}
use saas_backend_blueprint.Access.Roles.{MembershipRole, role_permissions, includes, includes_role}
use saas_backend_blueprint.Members.Model.{Uuid, Membership, MembershipStatus, is_active}
use saas_backend_blueprint.Members.Service
use saas_backend_blueprint.Members.Service.{Providers, ServiceWorld}

pub record ContextData : Type 0 where
  pub user_id : Uuid
  pub org_id : Uuid
  pub role : MembershipRole
  pub status : MembershipStatus
  pub permissions : List String

-- Every role has an entry in the map.
unfoldable pub get_permissions_for_role : MembershipRole → List String
get_permissions_for_role role = role_permissions role

abbrev pub context_of : Uuid → Uuid → Option Membership → Option ContextData
context_of user org none = none
context_of user org (some m) = some (record {
  user_id = user;
  org_id = org;
  role = m.role;
  status = m.status;
  permissions = role_permissions m.role;
})

-- `if (!context || context.status !== ACTIVE) return false;`, then a test of the permissions
abbrev pub when_active : Option ContextData → (List String → Bool) → Bool
when_active none test = false
when_active (some c) test = is_active c.status && test c.permissions

module _ (p : Providers) where
  unfoldable pub resolve_context : Uuid → Uuid → ServiceWorld p → Option ContextData
  unfolding Service.find_by_user_and_org
  resolve_context user org w = context_of user org (Service.find_by_user_and_org p user org w)

  unfoldable pub has_permission : Uuid → Uuid → String → ServiceWorld p → Bool
  unfolding resolve_context
  has_permission user org permission w =
      when_active (resolve_context user org w) (λ ps. includes ps permission)

  unfoldable pub has_any_permission : Uuid → Uuid → List String → ServiceWorld p → Bool
  unfolding resolve_context
  has_any_permission user org permissions w =
      when_active (resolve_context user org w) (λ ps. any (includes ps) permissions)

  unfoldable pub has_all_permissions : Uuid → Uuid → List String → ServiceWorld p → Bool
  unfolding resolve_context
  has_all_permissions user org permissions w =
      when_active (resolve_context user org w) (λ ps. all (includes ps) permissions)

  unfoldable pub has_role : Uuid → Uuid → List MembershipRole → ServiceWorld p → Bool
  unfolding Service.find_by_user_and_org
  has_role user org roles w = elim (Service.find_by_user_and_org p user org w) [
    | none ↦ false
    | some m ↦ is_active m.status && includes_role roles m.role
  ]
