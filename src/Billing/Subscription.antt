-- ===== src/Billing/Subscription.antt =====
-- libs/billing/src/application/services/subscription.service.ts: the handlers of Stripe's webhooks.
mod Transitions
unfoldable pub use Transitions.*
use saas_backend_blueprint.Prelude.{
  ℕ, ◌*◌, String, str_eq, str_append, Bool, true, false, not, ◌&&◌, ◌||◌, List, ◌∷◌, Option, none,
  some, failure, Method, ◌>>=◌, ◌>>◌, return, throw, modify, if◌then◌else◌,
}
use saas_backend_blueprint.Platform.Table.{Table}
use saas_backend_blueprint.Platform.EventBus.{EventBus}
use saas_backend_blueprint.Members.Model.{Uuid}
use saas_backend_blueprint.Billing.Model.{
  BillingStatus, no_subscription, trialing, active, past_due, canceled, unpaid, incomplete,
  incomplete_expired, paused, StripeStatus, is_active, is_canceled, is_incomplete,
  is_incomplete_expired, is_past_due, is_trialing, is_unpaid, is_paused, unknown, Organization,
  clash, PriceItem, Subscription, Invoice, CheckoutSession, SyncContext, Snapshot, SyncResult,
  Entry,
}
use saas_backend_blueprint.Billing.Repository

pub record World (Orgs Bus : Type 0) : Type 0 where
  pub orgs : Orgs
  pub snapshots : List Snapshot
  pub activity : List Entry
  pub audit : List Entry
  pub events : List Entry
  pub bus : Bus

abbrev pub entry : String → Uuid → Entry
entry name org = record { name = name; org_id = org }

abbrev pub is_cancellation : StripeStatus → Bool
is_cancellation is_canceled = true
is_cancellation _ = false

-- `event_suffix` is `eventType.replace('customer.subscription.', '')`.
module _ (table : Table Organization clash) (event_suffix : String → String)
    (bus : EventBus Entry) where
  abbrev pub State : Type 0
  State = World table.State bus.State

  abbrev pub log_activity : String → Uuid → Method State (Unit {0})
  log_activity name org = modify (λ w. record w { activity = entry name org ∷ w.activity })

  abbrev pub record_event : String → Uuid → Method State (Unit {0})
  record_event name org = modify (λ w. record w { audit = entry name org ∷ w.audit })

  -- `eventBus.publish`, which may throw.
  abbrev pub published : Entry → Option bus.State → Method State (Unit {0})
  published e none w = throw (failure "event bus") w
  published e (some b) w = return tt (record w { events = e ∷ w.events; bus = b })

  abbrev pub publish : String → Uuid → Method State (Unit {0})
  publish name org w = published (entry name org) (bus.publish (entry name org) w.bus) w

  abbrev pub updated : Option table.State → Method State (Unit {0})
  updated none w = throw (failure "organization.update") w
  updated (some orgs) w = return tt (record w { orgs = orgs })

  -- `updateOrgAndSnapshotTx`: both writes or none
  abbrev pub updated_with : Option table.State → Snapshot → Method State (Unit {0})
  updated_with none snapshot w = throw (failure "organization.update") w
  updated_with (some orgs) snapshot w =
      return tt (record w { orgs = orgs; snapshots = snapshot ∷ w.snapshots })

  abbrev pub sync_org :
      Subscription → SyncContext → ℕ → Option Organization → Method State (Option SyncResult)
  sync_org s ctx now none w = return none w
  sync_org s ctx now (some org) w =
      let new_plan = plan_of s.price_item in
      let action =
        resolve_activity_action ctx org.plan_id org.billing_status new_plan
          (map_stripe_billing_status s.status) in
      (do
        updated_with (Repository.update_org_billing_data table org.id (synced s) w.orgs)
            (build_snapshot org.id s now)
        log_activity action org.id
        record_event (str_append "billing.subscription." (event_suffix ctx.event_type)) org.id
        return (
            some (record {
              org_id = org.id;
              previous_plan_id = org.plan_id;
              new_plan_id = new_plan;
              plan_change_direction = action;
            })))
        w

  unfoldable pub sync_from_stripe_subscription :
      Subscription → SyncContext → ℕ → Method State (Option SyncResult)
  sync_from_stripe_subscription s ctx now w =
      sync_org s ctx now (Repository.find_org_by_stripe_customer_id table s.customer w.orgs) w

  abbrev pub publish_created : Option SyncResult → Method State (Unit {0})
  publish_created none = return tt
  publish_created (some r) = publish "billing.subscription.created" r.org_id

  unfoldable pub handle_subscription_created :
      Subscription → SyncContext → ℕ → Method State (Unit {0})
  handle_subscription_created s ctx now = do
    r ← sync_from_stripe_subscription s ctx now
    publish_created r

  abbrev pub publish_updated : Bool → Option SyncResult → Method State (Unit {0})
  publish_updated is_canceled_ none = return tt
  publish_updated true (some r) = do
    publish "billing.subscription.cancelled" r.org_id
    publish "subscription.expired" r.org_id
  publish_updated false (some r) = publish "subscription.plan.changed" r.org_id

  unfoldable pub handle_subscription_updated :
      Subscription → SyncContext → ℕ → Method State (Unit {0})
  handle_subscription_updated s ctx now = do
    r ← sync_from_stripe_subscription s ctx now
    publish_updated (is_cancellation s.status) r

  -- A payment that succeeded or failed, of the organization found.
  abbrev pub paid : Option Organization → Method State (Unit {0})
  paid none w = return tt w
  paid (some org) w =
      (do
        updated (Repository.update_org_billing_data table org.id (with_status active) w.orgs)
        log_activity "invoice.payment_succeeded" org.id
        record_event "billing.invoice.payment_succeeded" org.id
        publish "billing.payment.succeeded" org.id
        publish "subscription.activated" org.id)
        w

  abbrev pub failed : Option Organization → Method State (Unit {0})
  failed none w = return tt w
  failed (some org) w =
      (do
        updated (Repository.update_org_billing_data table org.id (with_status past_due) w.orgs)
        log_activity "invoice.payment_failed" org.id
        record_event "billing.invoice.payment_failed" org.id
        publish "billing.payment.failed" org.id)
        w

  -- The organization of a customer id, none where it is absent or empty.
  abbrev pub org_of_customer : Option String → State → Option Organization
  org_of_customer none w = none
  org_of_customer (some c) w =
      if str_eq c "" then none else Repository.find_org_by_stripe_customer_id table c w.orgs

  unfoldable pub handle_invoice_paid : Invoice → Method State (Unit {0})
  handle_invoice_paid i w = paid (org_of_customer i.customer w) w

  unfoldable pub handle_invoice_failed : Invoice → Method State (Unit {0})
  handle_invoice_failed i w = failed (org_of_customer i.customer w) w

  -- The organization and the customer that a session names.
  abbrev pub org_of_session : CheckoutSession → State → Option (Organization × String)
  org_of_session s w = elim s.customer [
    | none ↦ none
    | some c ↦ if str_eq c "" then none else elim s.org_id [
      | none ↦ none
      | some org ↦ elim (Repository.find_org_by_id table org w.orgs) [
        | none ↦ none
        | some o ↦ some (o, c)
      ]
    ]
  ]

  abbrev pub complete : CheckoutSession → Option (Organization × String) → Method State (Unit {0})
  complete s none w = return tt w
  complete s (some (org, customer)) w =
      (do
        updated (
            Repository.update_org_billing_data table org.id (checked_out customer s.subscription)
              w.orgs)
        log_activity "billing.checkout.completed" org.id
        record_event "billing.checkout.completed" org.id
        publish "billing.checkout.completed" org.id)
        w

  unfoldable pub handle_checkout_completed : CheckoutSession → Method State (Unit {0})
  handle_checkout_completed s w = complete s (org_of_session s w) w
