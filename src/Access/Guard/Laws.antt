-- ===== src/Access/Guard/Laws.antt =====
-- When RBACGuard lets a request through.
use saas_backend_blueprint.Prelude.{
  ℕ, ◌≡◌, ◌↔◌, Bool, true, false, not, ◌&&◌, ◌||◌, List, Option, none, some, ok, arith,
  Option-cases, inl, inr,
}
use saas_backend_blueprint.Access.Roles.{MembershipRole}
use saas_backend_blueprint.Access.Resolver.{Backend, BackendWorld}
use saas_backend_blueprint.Access.Coherence.{
  Coherent, membership, resolve_permissions-present, permissions_of,
}
use saas_backend_blueprint.Access.Guard
use saas_backend_blueprint.Access.Guard.{
  PermissionsMetadata, Request, GuardState, granted, role_listed, some_listed,
}
use saas_backend_blueprint.Members.Model.{Uuid, is_active}

module _ (b : Backend) where
  -- The required permissions against those that the table gives; a route with permissions only falls
  -- back on them where no role matched.
  abbrev pub meets :
      Option PermissionsMetadata
      → Option (List MembershipRole)
      → Uuid
      → Uuid
      → MembershipRole
      → BackendWorld b
      → Bool
  meets none roles user org role w = role_listed roles role || not (some_listed roles)
  meets (some m) roles user org role w =
      role_listed roles role
      || granted m.mode m.permissions (permissions_of b (membership b user org w))

  -- A guarded route is open to a request with a user, an organization and an active membership that
  -- meets the requirements; a route without requirements is open to all.
  abbrev pub opens : Option PermissionsMetadata → Option (List MembershipRole) → GuardState b → Bool
  opens none none s = true
  opens meta roles s = elim s.request.db_user_id [
    | none ↦ false
    | some user ↦ elim s.request.org_id [
      | none ↦ false
      | some org ↦ elim s.request.membership [
        | none ↦ false
        | some m ↦ is_active m.status && meets meta roles user org m.role s.backend
      ]
    ]
  ]

  -- Over a coherent cache RBACGuard lets a request through exactly when the route is open to it by
  -- the memberships table.
  pub can_activate-opens :
      (meta : Option PermissionsMetadata) (roles : Option (List MembershipRole)) (now : ℕ)
      (s : GuardState b)
      → Coherent b now s.backend
      → ((Guard.can_activate b meta roles now s).0 ≡ ok true) ↔ (opens meta roles s ≡ true)
  unfolding Guard.can_activate
  can_activate-opens none none now s h = ground arith
  can_activate-opens none (some rs) now s h = ground arith
  can_activate-opens (some m) roles now s h = elim (Option-cases s.request.db_user_id) [
    | inl e ↦ ground (arith, e)
    | inr (user, e) ↦ elim (Option-cases s.request.org_id) [
      | inl e' ↦ ground (arith, e, e')
      | inr (org, e') ↦
          ground (arith, e, e', resolve_permissions-present b user org now s.backend h)
    ]
  ]
