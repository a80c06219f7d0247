-- ===== src/Features/Repository.antt =====
-- libs/feature-flags/src/infrastructure/repositories/entitlement-override.repository.ts. The sort of
-- the list by the date of creation is left out.
use saas_backend_blueprint.Prelude.{
  ℕ, String, Bool, true, ◌&&◌, ltb, ◌==◌, List, Option, none, some,
}
use saas_backend_blueprint.Platform.Table.{Table}
use saas_backend_blueprint.Members.Model.{Uuid}
use saas_backend_blueprint.Features.Model.{Override, is_override, override_clash}

-- `expiresAt` null or later than now
abbrev pub is_unexpired : ℕ → Option ℕ → Bool
is_unexpired now none = true
is_unexpired now (some t) = ltb now t

abbrev pub is_active_of : Uuid → ℕ → Override → Bool
is_active_of org now o = o.org_id == org && is_unexpired now o.expires_at

-- What the update of an override writes.
abbrev pub rewritten : Override → Override → Override
rewritten new old = record old {
  value = new.value;
  reason = new.reason;
  expires_at = new.expires_at;
  created_by = new.created_by;
}

module _ (t : Table Override override_clash) where
  unfoldable pub find_active_by_org : Uuid → ℕ → t.State → List Override
  find_active_by_org org now s = t.find_many (is_active_of org now) s

  unfoldable pub find_all_by_org : Uuid → t.State → List Override
  find_all_by_org org s = t.find_many (λ o. o.org_id == org) s

  unfoldable pub upsert : Override → t.State → t.State
  upsert new s = t.upsert (is_override new.org_id new.key) new (rewritten new) s

  -- None: there is no such override.
  unfoldable pub delete : Uuid → String → t.State → Option t.State
  delete org key s = elim (t.find_first (is_override org key) s) [
    | none ↦ none
    | some o ↦ t.delete (is_override org key) s
  ]
