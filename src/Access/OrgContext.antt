-- ===== src/Access/OrgContext.antt =====
-- libs/rbac/src/guards/org-context.guard.ts: `OrgContextGuard.canActivate`.
-- The decorators' metadata and the status of the organizations are arguments; the state is the
-- request, on which the guard writes, the table of memberships with the cache, and the users.
pub mod Laws
use saas_backend_blueprint.Prelude.{
  ℕ, String, str_append, List, Bool, true, false, not, Option, none, some, Result, ok, err,
  forbidden, not_found, failure, Method, ◌>>=◌, ◌>>◌, return, throw, throw_if, modify, or_throw,
  if◌then◌else◌,
}
use saas_backend_blueprint.Platform.Table.{Table}
use saas_backend_blueprint.Access.Incoming.{Claims, Incoming, named_org}
use saas_backend_blueprint.Access.Resolver.{Backend, BackendWorld, providers}
use saas_backend_blueprint.Access.Guard.{
  Request, RequestMembership, TenantContext, Guarded, GuardState, PermissionsMetadata,
}
use saas_backend_blueprint.Access.Guard
use saas_backend_blueprint.Access.Roles.{MembershipRole}
use saas_backend_blueprint.Members.Model.{Uuid, Membership, is_active}
use saas_backend_blueprint.Members.Service
use saas_backend_blueprint.Organizations.{OrganizationStatus, is_suspended}
use saas_backend_blueprint.Users
use saas_backend_blueprint.Users.{User, user_clash, new_user}

-- What the guard is constructed with and finds on the route.
pub record Route : Type 1 where
  pub backend : Backend
  pub users : Table User user_clash
  pub org_status : Uuid → Option OrganizationStatus
  pub uuid_of : String → Uuid
  -- `@OrgScoped()`, `@AllowSuspended()`
  pub is_org_scoped : Bool
  pub allow_suspended : Bool

pub record OrgState (S U : Type 0) : Type 0 where
  pub guarded : Guarded S
  pub users : U

abbrev pub from_result : {S A : Type 0} → Result A → Method S A
from_result r s = (r, s)

abbrev pub email_of : Claims → String
email_of c = elim c.email [ none ↦ str_append c.sub "@unknown.local" | some e ↦ e ]

abbrev pub kept_permissions : Option TenantContext → Option (List String)
kept_permissions none = none
kept_permissions (some c) = c.permissions

-- The request with the organization and the membership in it.
abbrev pub entered : Uuid → Uuid → Membership → Request → Request
entered user org m r = record r {
  db_user_id = some user;
  org_id = some org;
  membership = some (record { id = m.id; role = m.role; status = m.status });
  tenant_context = some (record {
    tenant_id = org;
    user_id = some user;
    role = some m.role;
    permissions = kept_permissions r.tenant_context;
  });
}

module _ (t : Route) where
  abbrev pub State : Type 0
  State = OrgState (BackendWorld t.backend) t.users.State

  abbrev pub set_request : (Request → Request) → State → State
  set_request f s = let g = s.guarded in record s { guarded = record g { request = f g.request } }

  -- The user of the token; one who is not there is created. `id` is what the database draws.
  unfoldable pub resolve_user : Claims → Uuid → Method State Uuid
  resolve_user c id s = elim (Users.find_by_auth0_id t.users c.sub s.users) [
    | some u ↦ return u.id s
    | none ↦ elim (Users.create_user t.users (new_user id c.sub (email_of c)) s.users) [
      | none ↦ throw (failure "P2002") s
      | some users ↦ return id (record s { users = users })
    ]
  ]

  unfoldable pub check_suspended : Uuid → Method State (Unit {0})
  check_suspended org s =
      if t.allow_suspended
      then return tt s
      else (do
        status ← or_throw (t.org_status org) (not_found "Organization not found")
        throw_if (is_suspended status) (forbidden "Organization is suspended"))
          s

  -- A user enters an organization.
  unfoldable pub enter : Uuid → Uuid → Method State Bool
  unfolding check_suspended
  enter user org s =
      elim (Service.find_by_user_and_org (providers t.backend) user org s.guarded.backend) [
        | none ↦ elim (t.org_status org) [
          | none ↦ throw (not_found "Organization not found") s
          | some _ ↦ throw (forbidden "You are not a member of this organization") s
        ]
        | some m ↦
            (do
              throw_if (not (is_active m.status)) (forbidden "Membership is ")
              check_suspended org
              modify (set_request (entered user org m))
              return true)
              s
      ]

  abbrev pub enter_named : Uuid → Option Uuid → Method State Bool
  enter_named user none s = return true s
  enter_named user (some org) s = enter user org s

  unfoldable pub can_activate : Incoming → Uuid → Method State Bool
  unfolding resolve_user enter
  can_activate i id s =
      (do
        claims ← or_throw i.user (forbidden "User not authenticated")
        user ← resolve_user claims id
        modify (set_request (λ r. record r { db_user_id = some user }))
        org ← from_result (named_org t.uuid_of t.is_org_scoped i)
        enter_named user org)
        s

  abbrev pub guard_result :
      {A : Type 0} → State → Result A × Guarded (BackendWorld t.backend) → Result A × State
  guard_result s (r, g) = (r, record s { guarded = g })

  abbrev pub rbac_guard :
      Option PermissionsMetadata → Option (List MembershipRole) → ℕ → Method State Bool
  rbac_guard meta roles now s =
      guard_result s (Guard.can_activate t.backend meta roles now s.guarded)

  -- `@UseGuards(JwtAuthGuard, OrgContextGuard, RBACGuard)`, after the first: a guard that throws ends
  -- the request.
  unfoldable pub guards :
      Incoming
      → Uuid
      → Option PermissionsMetadata
      → Option (List MembershipRole)
      → ℕ
      → Method State Bool
  unfolding can_activate
  guards i id meta roles now s = (do can_activate i id; rbac_guard meta roles now) s
