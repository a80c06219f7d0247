-- ===== src/Features/Model.antt =====
-- The entitlements of libs/feature-flags/src/interfaces/entitlements.interface.ts, the plans of
-- feature-flags.service.ts and the overrides of prisma/. The object that is sent and cached is the list of
-- its fields, of which the last with a key counts: an override may have any key. Times are in seconds.
use saas_backend_blueprint.Prelude.{
  ℕ, ◌*◌, String, str_eq, Bool, true, false, ◌&&◌, ◌==◌, List, [], ◌∷◌, Option, none, some,
  find_last,
}
use saas_backend_blueprint.Members.Model.{Uuid}
use saas_backend_blueprint.Billing.Model.{BillingStatus}

pub data PlanTier : Type 0 where
  free pro enterprise : PlanTier

-- `boolean | number`; a number is a natural number.
pub data Setting : Type 0 where
  flag : Bool → Setting
  amount : ℕ → Setting

-- A value of the object.
pub data Value : Type 0 where
  setting : Setting → Value
  text : String → Value
  uuid : Uuid → Value
  status : BillingStatus → Value

pub record Field : Type 0 where
  pub key : String
  pub value : Value

abbrev pub Entitlements : Type 0
Entitlements = List Field

abbrev pub value_in : Option Field → Option Value
value_in none = none
value_in (some f) = some f.value

-- `entitlements[key]`
abbrev pub value_at : String → Entitlements → Option Value
value_at key e = value_in (find_last (λ f. str_eq f.key key) e)

abbrev pub tier_name : PlanTier → String
tier_name free = "FREE"
tier_name pro = "PRO"
tier_name enterprise = "ENTERPRISE"

abbrev features : (analytics reports api sso support : Bool) (seats storage : ℕ) → Entitlements
features analytics reports api sso support seats storage =
    record { key = "advancedAnalytics"; value = setting (flag analytics) }
    ∷ record { key = "customReports"; value = setting (flag reports) }
    ∷ record { key = "apiAccess"; value = setting (flag api) }
    ∷ record { key = "ssoEnabled"; value = setting (flag sso) }
    ∷ record { key = "prioritySupport"; value = setting (flag support) }
    ∷ record { key = "maxSeats"; value = setting (amount seats) }
    ∷ record { key = "storageLimitBytes"; value = setting (amount storage) }
    ∷ []

abbrev pub plan_entitlements : PlanTier → Entitlements
plan_entitlements free = features false false false false false 3 (100 * 1024 * 1024)
plan_entitlements pro = features true true true false false 10 (5 * 1024 * 1024 * 1024)
plan_entitlements enterprise = features true true true true true 999999 (50 * 1024 * 1024 * 1024)

pub data LimitKey : Type 0 where
  max_teams max_players max_coaches : LimitKey

abbrev pub plan_limit : PlanTier → LimitKey → ℕ
plan_limit free max_teams = 2
plan_limit free max_players = 20
plan_limit free max_coaches = 2
plan_limit pro max_teams = 10
plan_limit pro max_players = 200
plan_limit pro max_coaches = 10
plan_limit enterprise _ = 999999

-- A row of the overrides; `value` is JSON text.
pub record Override : Type 0 where
  pub id : Uuid
  pub org_id : Uuid
  pub key : String
  pub value : String
  pub reason : String
  pub expires_at : Option ℕ
  pub created_by : String

abbrev pub is_override : Uuid → String → Override → Bool
is_override org key o = o.org_id == org && str_eq o.key key

-- `@@unique([orgId, key])`
abbrev pub override_clash : Override → Override → Bool
override_clash a b = is_override a.org_id a.key b
