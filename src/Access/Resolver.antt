-- ===== src/Access/Resolver.antt =====
-- libs/rbac/src/services/permission-resolver.service.ts: RBACService behind RBACCacheService.
-- A method takes the time of the call and returns its answer with the new state.
use saas_backend_blueprint.Prelude.{
  ℕ, String, Bool, true, false, List, [], Option, none, some, any, all,
}
use saas_backend_blueprint.Platform.Table.{Table}
use saas_backend_blueprint.Platform.Redis.{Redis}
use saas_backend_blueprint.Access.Roles.{MembershipRole, includes}
use saas_backend_blueprint.Access.Context
use saas_backend_blueprint.Access.Context.{ContextData}
use saas_backend_blueprint.Access.Cache
use saas_backend_blueprint.Access.Cache.{Key, same_key}
use saas_backend_blueprint.Members.Model.{Uuid, Membership, clash}
use saas_backend_blueprint.Members.Service.{Providers, World}

-- The state that RBAC and MembershipsService share: the table and the cache.
pub record Backend : Type 1 where
  pub table : Table Membership clash
  pub redis : Redis Key ContextData same_key
  pub seat_limit_provider : Option (Uuid → ℕ)
  -- whether `MEMBERSHIP_CACHE_NOTIFIER` is provided, by RBACCacheService
  pub notifies : Bool

abbrev pub notifier :
    (r : Redis Key ContextData same_key) → Bool → Option (Uuid → Uuid → r.State → r.State)
notifier r true = some (Cache.invalidate r)
notifier r false = none

abbrev pub providers : Backend → Providers
providers b = record {
  table = b.table;
  Cache = b.redis.State;
  cache_notifier = notifier b.redis b.notifies;
  seat_limit_provider = b.seat_limit_provider;
}

module _ (b : Backend) where
  abbrev pub BackendWorld : Type 0
  BackendWorld = World b.table.State b.redis.State

  abbrev pub fill :
      {A : Type 0}
      → Option ContextData
      → (ContextData → A)
      → A
      → ℕ
      → BackendWorld
      → A × BackendWorld
  fill none f a now w = (a, w)
  fill (some c) f a now w = (f c, record w { cache = Cache.set b.redis c now w.cache })

  -- A cache hit is answered as it stands; a miss reads the membership and fills the cache.
  abbrev pub through_cache :
      {A : Type 0} → Uuid → Uuid → (ContextData → A) → A → ℕ → BackendWorld → A × BackendWorld
  through_cache user org f a now w = elim (Cache.get b.redis user org now w.cache) [
    | some c ↦ (f c, w)
    | none ↦ fill (Context.resolve_context (providers b) user org w) f a now w
  ]

  unfoldable pub resolve_permissions : Uuid → Uuid → ℕ → BackendWorld → List String × BackendWorld
  resolve_permissions user org now w = through_cache user org (λ c. c.permissions) [] now w

  unfoldable pub get_user_role :
      Uuid → Uuid → ℕ → BackendWorld → Option MembershipRole × BackendWorld
  get_user_role user org now w = through_cache user org (λ c. some c.role) none now w

  unfoldable pub has_permission : Uuid → Uuid → String → ℕ → BackendWorld → Bool × BackendWorld
  has_permission user org permission now w =
      let (ps, w') = resolve_permissions user org now w in (includes ps permission, w')

  unfoldable pub has_any_permission :
      Uuid → Uuid → List String → ℕ → BackendWorld → Bool × BackendWorld
  has_any_permission user org permissions now w =
      let (ps, w') = resolve_permissions user org now w in (any (includes ps) permissions, w')

  unfoldable pub has_all_permissions :
      Uuid → Uuid → List String → ℕ → BackendWorld → Bool × BackendWorld
  has_all_permissions user org permissions now w =
      let (ps, w') = resolve_permissions user org now w in (all (includes ps) permissions, w')
