-- ===== src/Billing/Webhooks.antt =====
-- What a webhook of Stripe does to the organizations.
use saas_backend_blueprint.Prelude.{
  ℕ, String, str_eq, ◌≡◌, ◌⊎◌, inl, inr, List, Option, none, some, ok, err, Result, Method, arith,
  find, update_where, Option-cases, if◌then◌else◌,
}
use saas_backend_blueprint.Platform.Table.{Table}
use saas_backend_blueprint.Platform.EventBus.{EventBus}
use saas_backend_blueprint.Billing.Model.{
  BillingStatus, no_subscription, trialing, active, past_due, canceled, unpaid, incomplete,
  incomplete_expired, paused, StripeStatus, is_active, is_canceled, is_incomplete,
  is_incomplete_expired, is_past_due, is_trialing, is_unpaid, is_paused, unknown, Organization,
  clash, Subscription, Invoice, CheckoutSession, SyncContext, Entry,
}
use saas_backend_blueprint.Billing.Repository
use saas_backend_blueprint.Billing.Repository.{has_org_id, has_customer}
use saas_backend_blueprint.Billing.Subscription
use saas_backend_blueprint.Billing.Subscription.{
  State, synced, checked_out, with_status, org_of_session,
}

pub data Event : Type 0 where
  subscription_created subscription_updated : Subscription → SyncContext → Event
  invoice_paid invoice_failed : Invoice → Event
  checkout_completed : CheckoutSession → Event

-- The status of Stripe that a billing status is kept for.
abbrev pub kept_for : BillingStatus → StripeStatus
kept_for no_subscription = unknown
kept_for trialing = is_trialing
kept_for active = is_active
kept_for past_due = is_past_due
kept_for canceled = is_canceled
kept_for unpaid = is_unpaid
kept_for incomplete = is_incomplete
kept_for incomplete_expired = is_incomplete_expired
kept_for paused = is_paused

-- The billing statuses that an event stands for.
abbrev pub StandsFor : Event → BillingStatus → Type 0
StandsFor (subscription_created s ctx) b = kept_for b ≡ s.status
StandsFor (subscription_updated s ctx) b = kept_for b ≡ s.status
StandsFor (invoice_paid i) b = b ≡ active
StandsFor (invoice_failed i) b = b ≡ past_due
StandsFor (checkout_completed s) b = b ≡ active

module _ (table : Table Organization clash) (event_suffix : String → String)
    (bus : EventBus Entry) where
  abbrev pub rows : State table event_suffix bus → List Organization
  rows w = table.rows w.orgs

  unfoldable pub handle : ℕ → Event → Method (State table event_suffix bus) (Unit {0})
  handle now (subscription_created s ctx) =
      Subscription.handle_subscription_created table event_suffix bus s ctx now
  handle now (subscription_updated s ctx) =
      Subscription.handle_subscription_updated table event_suffix bus s ctx now
  handle now (invoice_paid i) = Subscription.handle_invoice_paid table event_suffix bus i
  handle now (invoice_failed i) = Subscription.handle_invoice_failed table event_suffix bus i
  handle now (checkout_completed s) =
      Subscription.handle_checkout_completed table event_suffix bus s

  -- The organization that an event is about, by the table: that of the customer, or of the session.
  abbrev of_customer : Option String → List Organization → Option Organization
  of_customer none orgs = none
  of_customer (some c) orgs = if str_eq c "" then none else find (has_customer c) orgs

  abbrev of_session : CheckoutSession → List Organization → Option Organization
  of_session s orgs = elim s.customer [
    | none ↦ none
    | some c ↦
        if str_eq c ""
        then none
        else elim s.org_id [ none ↦ none | some org ↦ find (has_org_id org) orgs ]
  ]

  abbrev pub customer_of : CheckoutSession → String
  customer_of s = elim s.customer [ none ↦ "" | some c ↦ c ]

  abbrev pub target : Event → List Organization → Option Organization
  target (subscription_created s ctx) orgs = find (has_customer s.customer) orgs
  target (subscription_updated s ctx) orgs = find (has_customer s.customer) orgs
  target (invoice_paid i) orgs = of_customer i.customer orgs
  target (invoice_failed i) orgs = of_customer i.customer orgs
  target (checkout_completed s) orgs = of_session s orgs

  -- What an event makes of the organization.
  abbrev pub change : Event → Organization → Organization
  change (subscription_created s ctx) = synced s
  change (subscription_updated s ctx) = synced s
  change (invoice_paid i) = with_status active
  change (invoice_failed i) = with_status past_due
  change (checkout_completed s) = checked_out (customer_of s) s.subscription

  -- The rows after an event that is handled, and after an error: that of the update, or of the event bus
  -- after it.
  abbrev pub IsHandled :
      Event
      → State table event_suffix bus
      → Organization
      → Result (Unit {0}) × State table event_suffix bus
      → Type 0
  IsHandled e w o (ok u, after) = rows after ≡ update_where (has_org_id o.id) (change e) (rows w)
  IsHandled e w o (err x, after) =
      (rows after ≡ rows w) ⊎ (rows after ≡ update_where (has_org_id o.id) (change e) (rows w))

  pub handle-IsHandled :
      (now : ℕ) (e : Event) (w : State table event_suffix bus) (o : Organization)
      → target e (rows w) ≡ some o
      → IsHandled e w o (handle now e w)
  unfolding handle Subscription.handle_subscription_created
      Subscription.sync_from_stripe_subscription Subscription.handle_subscription_updated
      Subscription.handle_invoice_paid Subscription.handle_invoice_failed
      Subscription.handle_checkout_completed Repository.find_org_by_id
      Repository.find_org_by_stripe_customer_id Repository.update_org_billing_data
  handle-IsHandled now (subscription_created s ctx) w o t = ground (
    arith,
    t,
    table.find_first_law (has_customer s.customer) w.orgs,
    table.update_unique_law (has_org_id o.id) (synced s) w.orgs,
  )
  handle-IsHandled now (subscription_updated s ctx) w o t = ground (
    arith,
    t,
    table.find_first_law (has_customer s.customer) w.orgs,
    table.update_unique_law (has_org_id o.id) (synced s) w.orgs,
  )
  handle-IsHandled now (invoice_paid i) w o t = elim (Option-cases i.customer) [
    | inl e ↦ ground (arith, e)
    | inr (c, e) ↦ ground (
      arith,
      e,
      t,
      table.find_first_law (has_customer c) w.orgs,
      table.update_unique_law (has_org_id o.id) (with_status active) w.orgs,
    )
  ]
  handle-IsHandled now (invoice_failed i) w o t = elim (Option-cases i.customer) [
    | inl e ↦ ground (arith, e)
    | inr (c, e) ↦ ground (
      arith,
      e,
      t,
      table.find_first_law (has_customer c) w.orgs,
      table.update_unique_law (has_org_id o.id) (with_status past_due) w.orgs,
    )
  ]
  handle-IsHandled now (checkout_completed s) w o t = elim (Option-cases s.customer) [
    | inl e ↦ ground (arith, e)
    | inr (c, e) ↦ elim (Option-cases s.org_id) [
      | inl e' ↦ ground (arith, e, e')
      | inr (id, e') ↦ ground (
        arith,
        e,
        e',
        t,
        table.find_first_law (has_org_id id) w.orgs,
        table.update_unique_law (has_org_id o.id) (checked_out c s.subscription) w.orgs,
      )
    ]
  ]

  -- A webhook whose customer or session names no organization of the table changes nothing, publishes
  -- nothing and does not throw.
  pub handle-untargeted :
      (now : ℕ) (e : Event) (w : State table event_suffix bus)
      → target e (rows w) ≡ none
      → handle now e w ≡ (ok tt, w)
  unfolding handle Subscription.handle_subscription_created
      Subscription.sync_from_stripe_subscription Subscription.handle_subscription_updated
      Subscription.handle_invoice_paid Subscription.handle_invoice_failed
      Subscription.handle_checkout_completed Repository.find_org_by_id
      Repository.find_org_by_stripe_customer_id Repository.update_org_billing_data
  handle-untargeted now (subscription_created s ctx) w t =
      ground (arith, t, table.find_first_law (has_customer s.customer) w.orgs)
  handle-untargeted now (subscription_updated s ctx) w t =
      ground (arith, t, table.find_first_law (has_customer s.customer) w.orgs)
  handle-untargeted now (invoice_paid i) w t = elim (Option-cases i.customer) [
    | inl e ↦ ground (arith, e)
    | inr (c, e) ↦ ground (arith, e, t, table.find_first_law (has_customer c) w.orgs)
  ]
  handle-untargeted now (invoice_failed i) w t = elim (Option-cases i.customer) [
    | inl e ↦ ground (arith, e)
    | inr (c, e) ↦ ground (arith, e, t, table.find_first_law (has_customer c) w.orgs)
  ]
  handle-untargeted now (checkout_completed s) w t = elim (Option-cases s.customer) [
    | inl e ↦ ground (arith, e)
    | inr (c, e) ↦ elim (Option-cases s.org_id) [
      | inl e' ↦ ground (arith, e, e')
      | inr (id, e') ↦ ground (arith, e, e', t, table.find_first_law (has_org_id id) w.orgs)
    ]
  ]
