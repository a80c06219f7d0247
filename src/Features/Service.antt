-- ===== src/Features/Service.antt =====
-- libs/feature-flags/src/feature-flags.service.ts over the cache, the overrides and the billing fields of
-- the organizations. CacheService catches what Redis throws. `JSON` is a parameter.
use saas_backend_blueprint.Prelude.{
  ℕ, ltb, String, str_eq, Bool, false, ◌==◌, List, [], ◌∷◌, ◌++◌, Option, none, some, ◌≡◌, Method,
  not_found, return, throw, if◌then◌else◌,
}
use saas_backend_blueprint.Platform.Table.{Table}
use saas_backend_blueprint.Platform.Redis.{Redis}
use saas_backend_blueprint.Members.Model.{Uuid}
use saas_backend_blueprint.Access.Cache.{or_null, or_unchanged}
use saas_backend_blueprint.Billing.Model.{
  Organization, clash, BillingStatus, no_subscription, active,
}
use saas_backend_blueprint.Features.Model.{
  PlanTier, free, pro, enterprise, Setting, flag, amount, Value, setting, text, uuid, status,
  Entitlements, value_at, tier_name, plan_entitlements, LimitKey, plan_limit, Override,
  override_clash,
}
use saas_backend_blueprint.Features.Repository

abbrev pub same_org : Uuid → Uuid → Bool
same_org a b = a == b

-- `JSON.parse`, where none is an error, and `JSON.stringify`
pub record Json : Type 0 where
  pub parse : String → Option Setting
  pub stringify : Setting → String
  pub parse-stringify : (v : Setting) → parse (stringify v) ≡ some v

-- `pro_price` and `enterprise_price` are STRIPE_PRICE_ID_PRO and STRIPE_PRICE_ID_ENTERPRISE, `ttl` is
-- FEATURE_FLAGS_CACHE_TTL.
pub record Parts : Type 1 where
  pub redis : Redis Uuid Entitlements same_org
  pub overrides : Table Override override_clash
  pub organizations : Table Organization clash
  pub json : Json
  pub pro_price : Option String
  pub enterprise_price : Option String
  pub ttl : ℕ

pub record World (C O B : Type 0) : Type 0 where
  pub cache : C
  pub overrides : O
  pub organizations : B

abbrev pub is_price : String → Option String → Bool
is_price plan none = false
is_price plan (some price) = str_eq plan price

-- The empty text is no plan.
abbrev pub resolve_plan_tier : Option String → Option String → Option String → PlanTier
resolve_plan_tier pro_price enterprise_price none = free
resolve_plan_tier pro_price enterprise_price (some plan) =
    if str_eq plan ""
    then free
    else if is_price plan pro_price
    then pro
    else if is_price plan enterprise_price
    then enterprise
    else free

abbrev pub billing_status_of : Option Organization → BillingStatus
billing_status_of none = no_subscription
billing_status_of (some o) = o.billing_status

abbrev pub plan_of : Option Organization → Option String
plan_of none = none
plan_of (some o) = o.plan_id

abbrev pub tier_of : Option String → Option String → Option Organization → PlanTier
tier_of pro_price enterprise_price o = elim (billing_status_of o) [
  | active ↦ resolve_plan_tier pro_price enterprise_price (plan_of o)
  | _ ↦ free
]

-- A value that does not parse is left out.
abbrev pub patch : Json → List Override → Entitlements
patch j [] = []
patch j (o ∷ os) = elim (j.parse o.value) [
  | none ↦ patch j os
  | some v ↦ record { key = o.key; value = setting v } ∷ patch j os
]

-- `typeof value`
abbrev pub is_enabled : Option Value → Bool
is_enabled (some (setting (flag b))) = b
is_enabled (some (setting (amount n))) = ltb 0 n
is_enabled _ = false

-- `entitlements.plan in PLAN_LIMITS`
abbrev pub tier_named : Option Value → PlanTier
tier_named (some (text name)) =
    if str_eq name "PRO" then pro else if str_eq name "ENTERPRISE" then enterprise else free
tier_named _ = free

pub record LimitCheck : Type 0 where
  pub allowed : Bool
  pub limit : ℕ
  pub current : ℕ

module _ (p : Parts) where
  abbrev pub State : Type 0
  State = World p.redis.State p.overrides.State p.organizations.State

  abbrev pub org_billing_status : Uuid → State → Option Organization
  org_billing_status org w = p.organizations.find_first (λ o. o.id == org) w.organizations

  -- The fields of the organization and its plan.
  unfoldable pub plan_fields : Uuid → State → Entitlements
  plan_fields org w =
      let o = org_billing_status org w in
      let tier = tier_of p.pro_price p.enterprise_price o in
      record { key = "organizationId"; value = uuid org }
      ∷ record { key = "plan"; value = text (tier_name tier) }
      ∷ record { key = "subscriptionStatus"; value = status (billing_status_of o) }
      ∷ plan_entitlements tier

  -- Those of the overrides follow.
  unfoldable pub computed : Uuid → ℕ → State → Entitlements
  unfolding plan_fields
  computed org now w =
      plan_fields org w
      ++ patch p.json (Repository.find_active_by_org p.overrides org now w.overrides)

  unfoldable pub set_entitlements : Uuid → Entitlements → ℕ → State → State
  set_entitlements org e now w = record w {
    cache = or_unchanged (p.redis.setex org p.ttl e now w.cache) w.cache;
  }

  unfoldable pub get_entitlements : Uuid → ℕ → State → Entitlements × State
  unfolding computed set_entitlements
  get_entitlements org now w = elim (or_null (p.redis.get org now w.cache)) [
    | some e ↦ (e, w)
    | none ↦ (computed org now w, set_entitlements org (computed org now w) now w)
  ]

  unfoldable pub check_feature : Uuid → String → ℕ → State → Bool × State
  unfolding get_entitlements
  check_feature org key now w =
      let (e, w') = get_entitlements org now w in (is_enabled (value_at key e), w')

  unfoldable pub check_limit : Uuid → LimitKey → ℕ → ℕ → State → LimitCheck × State
  unfolding get_entitlements
  check_limit org key current now w =
      let (e, w') = get_entitlements org now w in
      let limit = plan_limit (tier_named (value_at "plan" e)) key in
      (record { allowed = ltb current limit; limit = limit; current = current }, w')

  unfoldable pub get_max_seats : Uuid → ℕ → State → Option Value × State
  unfolding get_entitlements
  get_max_seats org now w = let (e, w') = get_entitlements org now w in (value_at "maxSeats" e, w')

  unfoldable pub invalidate_entitlements : Uuid → State → State
  invalidate_entitlements org w = record w {
    cache = or_unchanged (p.redis.del org w.cache) w.cache;
  }

  -- None: the JSON text of a row does not parse, which throws.
  abbrev pub parsed : List Override → Option (List (Override × Setting))
  parsed [] = some []
  parsed (o ∷ os) = elim (p.json.parse o.value) [
    | none ↦ none
    | some v ↦ elim (parsed os) [ none ↦ none | some rest ↦ some ((o, v) ∷ rest) ]
  ]

  unfoldable pub list_overrides : Uuid → State → Option (List (Override × Setting))
  list_overrides org w = parsed (Repository.find_all_by_org p.overrides org w.overrides)

  -- `id` is the one that the database draws for a new row.
  unfoldable pub set_override :
      Uuid → Uuid → String → Setting → String → Option ℕ → String → State → State
  unfolding invalidate_entitlements
  set_override id org key value reason expires_at created_by w =
      invalidate_entitlements org (record w {
        overrides =
            Repository.upsert p.overrides
              (record {
                id = id;
                org_id = org;
                key = key;
                value = p.json.stringify value;
                reason = reason;
                expires_at = expires_at;
                created_by = created_by;
              })
              w.overrides;
      })

  unfoldable pub delete_override : Uuid → String → Method State (Unit {0})
  unfolding invalidate_entitlements
  delete_override org key w = elim (Repository.delete p.overrides org key w.overrides) [
    | none ↦ throw (not_found "No entitlement override found") w
    | some overrides ↦ return tt (invalidate_entitlements org (record w { overrides = overrides }))
  ]
