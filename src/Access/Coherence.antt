-- ===== src/Access/Coherence.antt =====
-- The RBAC cache and the memberships.
pub mod Writes
use saas_backend_blueprint.Prelude.{
  ℕ, ◌≤◌, String, ◌≡◌, refl, ◌≢◌, Bool, true, false, List, [], ◌∷◌, Option, none, some, arith, find,
  any, Bool-cases, Option-cases, inl, inr, if◌then◌else◌,
}
use saas_backend_blueprint.Access.Roles.{MembershipRole, role_permissions}
use saas_backend_blueprint.Access.Context
use saas_backend_blueprint.Access.Context.{ContextData}
use saas_backend_blueprint.Access.Cache
use saas_backend_blueprint.Access.Resolver
use saas_backend_blueprint.Access.Resolver.{Backend, BackendWorld, providers}
use saas_backend_blueprint.Access.Lookup.{
  Agrees, find-append-ne, find-update_where-ne, find-delete_where-ne, Agrees-activate,
}
use saas_backend_blueprint.Members.Model.{Uuid, Membership, CreateMembership, active, clash}
use saas_backend_blueprint.Members.Repository
use saas_backend_blueprint.Members.Repository.{has_id, is_of, is_invited_user}
use saas_backend_blueprint.Members.Logs.{new_row}
use saas_backend_blueprint.Members.Service
use saas_backend_blueprint.Members.Calls.{Call, creates, updates, deletes, activates, step, run}
use saas_backend_blueprint.Members.Keyed.{Keyed}

module _ (b : Backend) where
  -- The membership of a user in an organization, as the table has it.
  abbrev pub membership : Uuid → Uuid → BackendWorld b → Option Membership
  membership user org w = find (is_of user org) (b.table.rows w.memberships)

  abbrev pub permissions_of : Option Membership → List String
  permissions_of none = []
  permissions_of (some m) = role_permissions m.role

  -- From `now` on, what the cache holds agrees with the table.
  abbrev pub Coherent : ℕ → BackendWorld b → Type 0
  Coherent now w =
      (user org later : ℕ)
      → now ≤ later
      → Agrees (b.redis.stored w.cache later (user, org)) (membership user org w)

  abbrev context : Uuid → Uuid → Membership → ContextData
  context user org m = record {
    user_id = user;
    org_id = org;
    role = m.role;
    status = m.status;
    permissions = role_permissions m.role;
  }

  resolve_context_lem :
      (user org : Uuid) (w : BackendWorld b)
      → Context.resolve_context (providers b) user org w
        ≡ Context.context_of user org (membership user org w)
  unfolding Context.resolve_context Service.find_by_user_and_org Repository.find_by_user_and_org
  resolve_context_lem user org w =
      ground (arith, b.table.find_first_law (is_of user org) w.memberships)

  -- Over a coherent cache the resolver answers with the permissions of the user's present role in the
  -- organization, none for a user who has no membership there, whether the cache hits, misses or
  -- throws.
  pub resolve_permissions-present :
      (user org now : ℕ) (w : BackendWorld b)
      → Coherent now w
      → (Resolver.resolve_permissions b user org now w).0 ≡ permissions_of (membership user org w)
  unfolding Resolver.resolve_permissions Cache.get
  resolve_permissions-present user org now w h = ground (
    arith,
    h user org now,
    resolve_context_lem user org w,
    b.redis.get_law (user, org) now w.cache,
  )

  -- What a question to the resolver writes into the cache agrees with the table.
  pub resolve_permissions-Coherent :
      (user org now : ℕ) (w : BackendWorld b)
      → Coherent now w
      → Coherent now (Resolver.resolve_permissions b user org now w).1
  unfolding Resolver.resolve_permissions Cache.set
  resolve_permissions-Coherent user org now w h u o later le =
      elim (Option-cases (membership user org w)) [
        | inl absent ↦ ground (arith, h u o later, resolve_context_lem user org w)
        | inr (m, found) ↦ ground (
          arith,
          h u o later,
          resolve_context_lem user org w,
          b.redis.setex_law (user, org) (u, o) 600 (context user org m) now later w.cache,
        )
      ]
