-- ===== src/Features/Tests.antt =====
-- Runs of the entitlements of a concrete organization.
use Prim.Native.String.{[] as no_text, ◌∷◌ as char_before}
use saas_backend_blueprint.Prelude.{
  ℕ, zero, suc, ap, ◌∙◌, String, ◌≡◌, refl, [], ◌∷◌, true, false, none, some, ok,
}
use saas_backend_blueprint.Platform.Table.{list_table}
use saas_backend_blueprint.Platform.InMemory.{memory_redis}
use saas_backend_blueprint.Members.Model.{Uuid}
use saas_backend_blueprint.Billing.Model.{Organization, clash, active}
use saas_backend_blueprint.Features.Model.{
  Setting, flag, amount, setting, Entitlements, value_at, override_clash,
}
use saas_backend_blueprint.Features.Repository
use saas_backend_blueprint.Features.Service
use saas_backend_blueprint.Features.Service.{Json, Parts, State, same_org}
use saas_backend_blueprint.Features.Guard
use saas_backend_blueprint.Features.Overrides.{
  set_override-get_entitlements, delete_override-get_entitlements, set_override-can_activate,
}

-- A number is written as a text of its length, past the two texts of the flags.
abbrev marks : ℕ → String
marks zero = ""
marks (suc n) = char_before "x" (marks n)

abbrev size : String → ℕ
size no_text = 0
size (char_before c s) = suc (size s)

size-marks : (n : ℕ) → size (marks n) ≡ n
size-marks zero = refl
size-marks (suc n) = ap suc (size-marks n)

abbrev written : Setting → ℕ
written (flag false) = 0
written (flag true) = 1
written (amount n) = suc (suc n)

abbrev read : ℕ → Setting
read zero = flag false
read (suc zero) = flag true
read (suc (suc n)) = amount n

read-written : (v : Setting) → read (written v) ≡ v
read-written (flag false) = refl
read-written (flag true) = refl
read-written (amount n) = refl

abbrev unary : Json
unary = record {
  parse = λ s. some (read (size s));
  stringify = λ v. marks (written v);
  parse-stringify = λ v. ap some (ap read (size-marks (written v)) ∙ read-written v);
}

abbrev parts : Parts
parts = record {
  redis = memory_redis Uuid Entitlements same_org;
  overrides = list_table override_clash;
  organizations = list_table clash;
  json = unary;
  pro_price = some "price_pro";
  enterprise_price = none;
  ttl = 600;
}

abbrev club : Organization
club = record {
  id = 100;
  stripe_customer_id = some "cus_1";
  subscription_id = some "sub_1";
  billing_status = active;
  plan_id = some "price_pro";
  subscription_period_start = none;
  subscription_period_end = none;
  cancel_at_period_end = false;
}

-- Nothing is cached, and the seats of the club are limited.
abbrev world : State parts
world = record {
  cache = λ org. none;
  overrides =
      record {
        id = 1;
        org_id = 100;
        key = "maxSeats";
        value = "xxxxxxx";
        reason = "trial";
        expires_at = none;
        created_by = "admin";
      }
      ∷ [];
  organizations = club ∷ [];
}

set_override-get_entitlements_example :
    value_at "maxSeats"
      (Service.get_entitlements parts 100 50
        (Service.set_override parts 2 100 "maxSeats" (amount 25) "deal" (some 60) "admin" world)).0
    ≡ some (setting (amount 25))
set_override-get_entitlements_example =
    set_override-get_entitlements parts 2 100 "maxSeats" (amount 25) "deal" (some 60) "admin" 50
      world (λ e. cc) refl

delete_override-get_entitlements_example :
    value_at "maxSeats"
      (Service.get_entitlements parts 100 50
        (Service.delete_override parts 100 "maxSeats" world).1).0
    ≡ value_at "maxSeats" (Service.plan_fields parts 100 world)
unfolding Service.delete_override Repository.delete
delete_override-get_entitlements_example =
    delete_override-get_entitlements parts 100 "maxSeats" 50 world
      (Service.delete_override parts 100 "maxSeats" world).1 (λ e. cc) refl

set_override-can_activate_example :
    (Guard.can_activate parts
      (some "ssoEnabled")
      (some 100)
      50
      (Service.set_override parts 2 100 "ssoEnabled" (flag true) "trial" (some 60) "admin" world)).0
    ≡ ok true
set_override-can_activate_example =
    set_override-can_activate parts 2 100 "ssoEnabled" true "trial" (some 60) "admin" 50 world
      (λ e. cc) refl
