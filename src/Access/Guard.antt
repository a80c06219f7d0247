-- ===== src/Access/Guard.antt =====
-- libs/rbac/src/guards/rbac.guard.ts: `RBACGuard.canActivate` with `checkPermissions`.
-- The metadata of the route's decorators and the time of the call are arguments; the state is the
-- request, on which the guard writes, beside the table and the cache.
pub mod Laws
use saas_backend_blueprint.Prelude.{
  ℕ, String, Bool, true, false, not, ◌&&◌, List, [], ◌∷◌, Option, none, some, all, any, forbidden,
  Result, ok, err, Method, ◌>>=◌, ◌>>◌, return, throw, throw_if, or_throw, if◌then◌else◌,
}
use saas_backend_blueprint.Access.Roles.{MembershipRole, includes, includes_role}
use saas_backend_blueprint.Access.Resolver
use saas_backend_blueprint.Access.Resolver.{Backend, BackendWorld}
use saas_backend_blueprint.Members.Model.{Uuid, MembershipStatus, is_active}

-- libs/rbac/src/decorators/require-permissions.decorator.ts
pub data PermissionMode : Type 0 where
  any_mode all_mode : PermissionMode

pub record PermissionsMetadata : Type 0 where
  pub permissions : List String
  pub mode : PermissionMode

pub record RequestMembership : Type 0 where
  pub id : Uuid
  pub role : MembershipRole
  pub status : MembershipStatus

pub record TenantContext : Type 0 where
  pub tenant_id : Uuid
  pub user_id : Option Uuid
  pub role : Option MembershipRole
  pub permissions : Option (List String)

-- `RequestWithOrgContext`: what the guards read and write of it.
pub record Request : Type 0 where
  pub db_user_id : Option Uuid
  pub org_id : Option Uuid
  pub membership : Option RequestMembership
  pub rbac_permissions : Option (List String)
  pub rbac_role : Option MembershipRole
  pub tenant_context : Option TenantContext

pub record Guarded (S : Type 0) : Type 0 where
  pub request : Request
  pub backend : S

abbrev pub with_permissions :
    List String → MembershipRole → Option TenantContext → Option TenantContext
with_permissions ps role none = none
with_permissions ps role (some c) = some (record c { role = some role; permissions = some ps })

-- `mode === 'ALL' ? permissions.every(…) : permissions.some(…)`
abbrev pub granted : PermissionMode → List String → List String → Bool
granted all_mode required held = all (includes held) required
granted any_mode required held = any (includes held) required

-- `requiredRoles?.length` and `requiredRoles.includes(role)`
abbrev pub role_listed : Option (List MembershipRole) → MembershipRole → Bool
role_listed none role = false
role_listed (some roles) role = includes_role roles role

abbrev pub some_listed : Option (List MembershipRole) → Bool
some_listed (some (r ∷ rs)) = true
some_listed _ = false

module _ (b : Backend) where
  abbrev pub GuardState : Type 0
  GuardState = Guarded (BackendWorld b)

  unfoldable pub check_permissions :
      Uuid → Uuid → MembershipRole → PermissionsMetadata → ℕ → Method GuardState Bool
  check_permissions user org role meta now s =
      let (held, backend) = Resolver.resolve_permissions b user org now s.backend in
      let request : Request = record (s.request) {
        rbac_permissions = some held;
        rbac_role = some role;
        tenant_context = with_permissions held role s.request.tenant_context;
      } in
      (do
        throw_if (not (granted meta.mode meta.permissions held))
            (forbidden "You do not have permission to perform this action")
        return true)
        (record { request = request; backend = backend })

  -- The check of a member of the organization: roles first, then permissions.
  unfoldable pub check_member :
      Option PermissionsMetadata
      → Option (List MembershipRole)
      → Uuid
      → Uuid
      → MembershipRole
      → ℕ
      → Method GuardState Bool
  unfolding check_permissions
  check_member meta roles user org role now s =
      if role_listed roles role then return true s else elim meta [
        | some m ↦ check_permissions user org role m now s
        | none ↦
            if some_listed roles
            then throw (forbidden "You do not have the required role") s
            else return true s
      ]

  unfoldable pub check_request :
      Option PermissionsMetadata → Option (List MembershipRole) → ℕ → Method GuardState Bool
  unfolding check_member
  check_request meta roles now s =
      (do
        user ← or_throw s.request.db_user_id (forbidden "User context not found")
        org ← or_throw s.request.org_id (forbidden "Organization context not found")
        m ← or_throw s.request.membership (forbidden "Membership not found")
        throw_if (not (is_active m.status)) (forbidden "Membership is not active")
        check_member meta roles user org m.role now)
        s

  -- No RBAC requirements: allowed.
  unfoldable pub can_activate :
      Option PermissionsMetadata → Option (List MembershipRole) → ℕ → Method GuardState Bool
  unfolding check_request
  can_activate none none now s = return true s
  can_activate none (some roles) now s = check_request none (some roles) now s
  can_activate (some meta) roles now s = check_request (some meta) roles now s
