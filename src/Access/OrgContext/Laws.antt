-- ===== src/Access/OrgContext/Laws.antt =====
-- What a request that passes the guards is known to have.
use saas_backend_blueprint.Prelude.{
  ℕ, ◌≡◌, ◌↔◌, Bool, true, false, not, ◌&&◌, ◌||◌, none, some, ok, arith,
}
use saas_backend_blueprint.Access.Roles.{role_permissions}
use saas_backend_blueprint.Access.Resolver.{BackendWorld, providers}
use saas_backend_blueprint.Access.Coherence.{Coherent, membership, resolve_permissions-present}
use saas_backend_blueprint.Access.Guard
use saas_backend_blueprint.Access.Guard.{PermissionsMetadata, granted}
use saas_backend_blueprint.Access.Incoming.{Claims, Incoming, named_org}
use saas_backend_blueprint.Access.OrgContext
use saas_backend_blueprint.Access.OrgContext.{Route, State}
use saas_backend_blueprint.Members.Model.{Uuid, is_active}
use saas_backend_blueprint.Members.Repository
use saas_backend_blueprint.Members.Repository.{is_of}
use saas_backend_blueprint.Members.Service
use saas_backend_blueprint.Organizations.{is_suspended}
use saas_backend_blueprint.Users
use saas_backend_blueprint.Users.{User}

module _ (t : Route) where
  -- The organization is there and is not suspended.
  abbrev pub is_open : Uuid → Bool
  is_open org = elim (t.org_status org) [ none ↦ false | some st ↦ not (is_suspended st) ]

  -- Who is meant to pass: an active member of the organization, which is open or whose suspension does
  -- not matter, with a role that carries the permissions required.
  abbrev pub admits : PermissionsMetadata → Uuid → Uuid → BackendWorld t.backend → Bool
  admits meta user org w = elim (membership t.backend user org w) [
    | none ↦ false
    | some m ↦
        is_active m.status
        && (t.allow_suspended || is_open org)
        && granted meta.mode meta.permissions (role_permissions m.role)
  ]

  find_lem :
      (user org : Uuid) (w : BackendWorld t.backend)
      → Service.find_by_user_and_org (providers t.backend) user org w
        ≡ membership t.backend user org w
  unfolding Service.find_by_user_and_org Repository.find_by_user_and_org
  find_lem user org w = t.backend.table.find_first_law (is_of user org) w.memberships

  -- The guards together let a request through that names an organization, of a user who is in the
  -- database, exactly when `admits` holds, over a coherent cache.
  pub guards-admits :
      (i : Incoming) (id : Uuid) (meta : PermissionsMetadata) (now : ℕ) (s : State t) (c : Claims)
      (u : User) (org : Uuid)
      → i.user ≡ some c
      → Users.find_by_auth0_id t.users c.sub s.users ≡ some u
      → named_org t.uuid_of t.is_org_scoped i ≡ ok (some org)
      → Coherent t.backend now s.guarded.backend
      → ((OrgContext.guards t i id (some meta) none now s).0 ≡ ok true)
        ↔ (admits meta u.id org s.guarded.backend ≡ true)
  unfolding OrgContext.guards Guard.can_activate
  guards-admits i id meta now s c u org e known named coherent = ground (
    arith,
    e,
    known,
    named,
    find_lem u.id org s.guarded.backend,
    resolve_permissions-present t.backend u.id org now s.guarded.backend coherent,
  )
