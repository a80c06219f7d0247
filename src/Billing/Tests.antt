-- ===== src/Billing/Tests.antt =====
-- Webhooks at a concrete organization.
use saas_backend_blueprint.Prelude.{
  String, ◌≡◌, refl, [], ◌∷◌, none, some, ok, find, false, true, arith,
}
use saas_backend_blueprint.Platform.Table.{Table, list_table}
use saas_backend_blueprint.Platform.EventBus.{EventBus, local}
use saas_backend_blueprint.Billing.Model.{
  Entry, Subscription, SyncContext, Organization, clash, active, past_due, is_canceled,
}
use saas_backend_blueprint.Billing.Repository
use saas_backend_blueprint.Billing.Repository.{has_org_id}
use saas_backend_blueprint.Billing.Subscription.{State}
use saas_backend_blueprint.Billing.Subscription
use saas_backend_blueprint.Billing.Webhooks.{
  Event, subscription_updated, invoice_paid, StandsFor, rows, handle,
}
use saas_backend_blueprint.Billing.Effects.{
  IsAnnounced, handle-others, handle-StandsFor, handle-announcements,
}

abbrev table : Table Organization clash
table = list_table clash

abbrev event_suffix : String → String
event_suffix s = "updated"

abbrev bus : EventBus Entry
bus = local

abbrev payer : Organization
payer = record {
  id = 1;
  stripe_customer_id = some "cus_1";
  subscription_id = some "sub_1";
  billing_status = past_due;
  plan_id = some "price_1";
  subscription_period_start = none;
  subscription_period_end = none;
  cancel_at_period_end = false;
}

abbrev free_org : Organization
free_org = record {
  id = 2;
  stripe_customer_id = none;
  subscription_id = none;
  billing_status = active;
  plan_id = none;
  subscription_period_start = none;
  subscription_period_end = none;
  cancel_at_period_end = false;
}

abbrev world : State table event_suffix bus
world = record {
  orgs = payer ∷ free_org ∷ [];
  snapshots = [];
  activity = [];
  audit = [];
  events = [];
  bus = tt;
}

abbrev ended : Subscription
ended = record {
  id = "sub_1";
  customer = "cus_1";
  status = is_canceled;
  price_item = none;
  cancel_at_period_end = true;
}

abbrev context : SyncContext
context = record {
  event_type = "customer.subscription.deleted";
  stripe_event_id = "evt_1";
  previous_plan_id = none;
}

abbrev cancellation : Event
cancellation = subscription_updated ended context

handle-others_example :
    find
      (has_org_id 2)
      (rows table event_suffix bus (handle table event_suffix bus 9 cancellation world).1)
    ≡ some free_org
handle-others_example =
    handle-others table event_suffix bus 9 cancellation world 2 (λ e. ground (arith, e))

handles : (handle table event_suffix bus 9 cancellation world).0 ≡ ok tt
unfolding handle Subscription.handle_subscription_updated Subscription.sync_from_stripe_subscription
    Repository.find_org_by_stripe_customer_id Repository.update_org_billing_data
handles = refl

handle-StandsFor_example :
    (q : Organization) × (find
        (has_org_id 1)
        (rows table event_suffix bus (handle table event_suffix bus 9 cancellation world).1)
      ≡ some q)
    × StandsFor cancellation q.billing_status
handle-StandsFor_example =
    handle-StandsFor table event_suffix bus 9 cancellation world payer refl handles

handle-announcements_example :
    IsAnnounced table event_suffix bus cancellation payer world
      (handle table event_suffix bus 9 cancellation world)
handle-announcements_example =
    handle-announcements table event_suffix bus 9 cancellation world payer refl

-- An invoice of a customer that no organization has.
abbrev stray : Event
stray = invoice_paid (record { id = "in_1"; customer = some "cus_9" })
