-- ===== src/Access/Cache.antt =====
-- libs/rbac/src/services/rbac-cache.service.ts over libs/redis/src/services/cache.service.ts.
-- The key `rbac:user:<userId>:org:<orgId>` is the pair of the two ids, which are UUIDs and hold no
-- colon; the JSON text of a context is the context. CacheService catches what Redis throws.
use saas_backend_blueprint.Prelude.{ℕ, Bool, ◌&&◌, ◌==◌, Option, none, some}
use saas_backend_blueprint.Platform.Redis.{Redis}
use saas_backend_blueprint.Members.Model.{Uuid}
use saas_backend_blueprint.Access.Context.{ContextData}

abbrev pub Key : Type 0
Key = Uuid × Uuid

abbrev pub same_key : Key → Key → Bool
same_key (user, org) (user', org') = user == user' && org == org'

abbrev pub rbac_cache_ttl : ℕ
rbac_cache_ttl = 600

-- `catch`: null for a read, nothing done for a write
abbrev pub or_null {ℓ} : {V : Type ℓ} → Option (Option V) → Option V
or_null none = none
or_null (some v) = v

abbrev pub or_unchanged {ℓ} : {S : Type ℓ} → Option S → S → S
or_unchanged none s = s
or_unchanged (some t) s = t

module _ (r : Redis Key ContextData same_key) where
  unfoldable pub get : Uuid → Uuid → ℕ → r.State → Option ContextData
  get user org now s = or_null (r.get (user, org) now s)

  unfoldable pub set : ContextData → ℕ → r.State → r.State
  set c now s = or_unchanged (r.setex (c.user_id, c.org_id) rbac_cache_ttl c now s) s

  unfoldable pub invalidate : Uuid → Uuid → r.State → r.State
  invalidate user org s = or_unchanged (r.del (user, org) s) s
