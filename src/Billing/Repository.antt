-- ===== src/Billing/Repository.antt =====
-- libs/billing/src/infrastructure/repositories/billing.repository.ts. A `data` clause is the change
-- that it makes to the row.
use saas_backend_blueprint.Prelude.{String, str_eq, Bool, false, ◌==◌, Option, none, some}
use saas_backend_blueprint.Platform.Table.{Table}
use saas_backend_blueprint.Members.Model.{Uuid}
use saas_backend_blueprint.Billing.Model.{Organization, clash}

abbrev pub has_org_id : Uuid → Organization → Bool
has_org_id id o = o.id == id

abbrev pub is_text : String → Option String → Bool
is_text t none = false
is_text t (some s) = str_eq s t

abbrev pub has_customer : String → Organization → Bool
has_customer customer o = is_text customer o.stripe_customer_id

module _ (table : Table Organization clash) where
  unfoldable pub find_org_by_id : Uuid → table.State → Option Organization
  find_org_by_id id orgs = table.find_first (has_org_id id) orgs

  unfoldable pub find_org_by_stripe_customer_id : String → table.State → Option Organization
  find_org_by_stripe_customer_id customer orgs = table.find_first (has_customer customer) orgs

  unfoldable pub update_org_billing_data :
      Uuid → (Organization → Organization) → table.State → Option table.State
  update_org_billing_data id data_ orgs = table.update_unique (has_org_id id) data_ orgs
