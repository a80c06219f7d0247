-- ===== src/Billing/Effects.antt =====
-- What a webhook of Stripe leaves: the row of its organization, those of the others, and the domain
-- events.
use mathlib.Core.Option
use saas_backend_blueprint.Prelude.{
  ℕ, String, ◌≡◌, refl, ◌≢◌, ◌⊎◌, inl, inr, Bool, List, [], ◌∷◌, ◌++◌, none, some, ok, err, Result,
  arith, find, find-update_where, Option-cases, Result-cases, if◌then◌else◌,
}
use saas_backend_blueprint.Platform.Table.{Table}
use saas_backend_blueprint.Platform.EventBus.{EventBus}
use saas_backend_blueprint.Members.Model.{Uuid}
use saas_backend_blueprint.Billing.Model.{
  StripeStatus, is_active, is_canceled, is_incomplete, is_incomplete_expired, is_past_due,
  is_trialing, is_unpaid, is_paused, unknown, Organization, clash, Entry,
}
use saas_backend_blueprint.Billing.Repository
use saas_backend_blueprint.Billing.Repository.{has_org_id, has_customer}
use saas_backend_blueprint.Billing.Subscription
use saas_backend_blueprint.Billing.Subscription.{State, synced, checked_out, entry, is_cancellation}
use saas_backend_blueprint.Billing.Webhooks.{
  Event, subscription_created, subscription_updated, invoice_paid, invoice_failed,
  checkout_completed, kept_for, StandsFor, rows, handle, target, change, handle-IsHandled,
  handle-untargeted,
}

-- An element that is found has a row of its id.
pub find-again :
    (p : Organization → Bool) (os : List Organization) {o : Organization}
    → find p os ≡ some o
    → find (has_org_id o.id) os ≢ none
find-again p [] h = λ e. cc
find-again p (q ∷ qs) {o} h = λ e. ground (arith, find-again p qs {o = o})

-- The domain events that an event is announced by, the last first.
abbrev pub announcements : Event → Uuid → List Entry
announcements (subscription_created s ctx) org = entry "billing.subscription.created" org ∷ []
announcements (subscription_updated s ctx) org =
    if is_cancellation s.status
    then entry "subscription.expired" org ∷ entry "billing.subscription.cancelled" org ∷ []
    else entry "subscription.plan.changed" org ∷ []
announcements (invoice_paid i) org =
    entry "subscription.activated" org ∷ entry "billing.payment.succeeded" org ∷ []
announcements (invoice_failed i) org = entry "billing.payment.failed" org ∷ []
announcements (checkout_completed s) org = entry "billing.checkout.completed" org ∷ []

pub map_stripe_billing_status-kept_for :
    (s : StripeStatus) → kept_for (Subscription.map_stripe_billing_status s) ≡ s
unfolding Subscription.map_stripe_billing_status
map_stripe_billing_status-kept_for is_active = refl
map_stripe_billing_status-kept_for is_canceled = refl
map_stripe_billing_status-kept_for is_incomplete = refl
map_stripe_billing_status-kept_for is_incomplete_expired = refl
map_stripe_billing_status-kept_for is_past_due = refl
map_stripe_billing_status-kept_for is_trialing = refl
map_stripe_billing_status-kept_for is_unpaid = refl
map_stripe_billing_status-kept_for is_paused = refl
map_stripe_billing_status-kept_for unknown = refl

-- The events but for the one that comes last.
abbrev pub but_last : List Entry → List Entry
but_last [] = []
but_last (e ∷ es) = es

module _ (table : Table Organization clash) (event_suffix : String → String)
    (bus : EventBus Entry) where
  abbrev pub IsAnnounced :
      Event
      → Organization
      → State table event_suffix bus
      → Result (Unit {0}) × State table event_suffix bus
      → Type 0
  IsAnnounced e o w (ok u, after) = after.events ≡ announcements e o.id ++ w.events
  IsAnnounced e o w (err x, after) =
      (after.events ≡ w.events) ⊎ (after.events ≡ but_last (announcements e o.id) ++ w.events)

  change-id : (e : Event) (o : Organization) → (change table event_suffix bus e o).id ≡ o.id
  unfolding synced checked_out
  change-id (subscription_created s ctx) o = refl
  change-id (subscription_updated s ctx) o = refl
  change-id (invoice_paid i) o = refl
  change-id (invoice_failed i) o = refl
  change-id (checkout_completed s) o = refl

  change-StandsFor :
      (e : Event) (o : Organization)
      → StandsFor e (change table event_suffix bus e o).billing_status
  unfolding synced checked_out
  change-StandsFor (subscription_created s ctx) o = map_stripe_billing_status-kept_for s.status
  change-StandsFor (subscription_updated s ctx) o = map_stripe_billing_status-kept_for s.status
  change-StandsFor (invoice_paid i) o = refl
  change-StandsFor (invoice_failed i) o = refl
  change-StandsFor (checkout_completed s) o = refl

  -- A webhook leaves every organization but the one that its customer or its session names as it was.
  pub handle-others :
      (now : ℕ) (e : Event) (w : State table event_suffix bus) (id : Uuid)
      → Option.map (λ o. o.id) (target table event_suffix bus e (rows table event_suffix bus w))
        ≢ some id
      → find (has_org_id id) (rows table event_suffix bus (handle table event_suffix bus now e w).1)
        ≡ find (has_org_id id) (rows table event_suffix bus w)
  handle-others now e w id ne =
      elim (Option-cases (target table event_suffix bus e (rows table event_suffix bus w))) [
        | inl t ↦ ground (arith, handle-untargeted table event_suffix bus now e w t)
        | inr (o, t) ↦
            let there =
              find-update_where (λ q. q.id) id o.id (change table event_suffix bus e)
                (rows table event_suffix bus w) (change-id e) in
            elim (Result-cases (handle table event_suffix bus now e w).0) [
              | inl (x, failed) ↦
                  ground
                    (arith, failed, t, handle-IsHandled table event_suffix bus now e w o t, there)
              | inr (u, done) ↦
                  ground
                    (arith, done, t, handle-IsHandled table event_suffix bus now e w o t, there)
            ]
      ]

  -- The organization that is found is in the table.
  target-known :
      (e : Event) (os : List Organization) {o : Organization}
      → target table event_suffix bus e os ≡ some o
      → find (has_org_id o.id) os ≢ none
  target-known (subscription_created s ctx) os {o} t =
      find-again (has_customer s.customer) os {o = o} t
  target-known (subscription_updated s ctx) os {o} t =
      find-again (has_customer s.customer) os {o = o} t
  target-known (invoice_paid i) os {o} t = elim (Option-cases i.customer) [
    | inl e ↦ absurd (ground (arith, e, t))
    | inr (c, e) ↦ find-again (has_customer c) os {o = o} (ground (arith, e, t))
  ]
  target-known (invoice_failed i) os {o} t = elim (Option-cases i.customer) [
    | inl e ↦ absurd (ground (arith, e, t))
    | inr (c, e) ↦ find-again (has_customer c) os {o = o} (ground (arith, e, t))
  ]
  target-known (checkout_completed s) os {o} t = elim (Option-cases s.customer) [
    | inl e ↦ absurd (ground (arith, e, t))
    | inr (c, e) ↦ elim (Option-cases s.org_id) [
      | inl e' ↦ absurd (ground (arith, e, e', t))
      | inr (id, e') ↦ find-again (has_org_id id) os {o = o} (ground (arith, e, e', t))
    ]
  ]

  -- A webhook that is handled without an error leaves its organization with a billing status that it
  -- stands for: the one that is kept for the status of the subscription, which no other is, ACTIVE after
  -- a payment or a checkout, PAST_DUE after a payment that failed.
  pub handle-StandsFor :
      (now : ℕ) (e : Event) (w : State table event_suffix bus) (o : Organization)
      → target table event_suffix bus e (rows table event_suffix bus w) ≡ some o
      → (handle table event_suffix bus now e w).0 ≡ ok tt
      → (q : Organization) × (find
            (has_org_id o.id)
            (rows table event_suffix bus (handle table event_suffix bus now e w).1)
          ≡ some q)
        × StandsFor e q.billing_status
  handle-StandsFor now e w o t done =
      elim (Option-cases (find (has_org_id o.id) (rows table event_suffix bus w))) [
        | inl missing ↦ absurd (target-known e (rows table event_suffix bus w) {o = o} t missing)
        | inr (q, found) ↦ (
          change table event_suffix bus e q,
          ground (
            arith,
            done,
            found,
            handle-IsHandled table event_suffix bus now e w o t,
            find-update_where (λ q. q.id) o.id o.id (change table event_suffix bus e)
                (rows table event_suffix bus w) (change-id e),
          ),
          change-StandsFor e q,
        )
      ]

  -- A webhook of an organization publishes its domain events, in their order and for that organization,
  -- where it is handled without an error. Where it throws, at the update or because the event bus does,
  -- the last of them is not published, so none or only the first of two.
  pub handle-announcements :
      (now : ℕ) (e : Event) (w : State table event_suffix bus) (o : Organization)
      → target table event_suffix bus e (rows table event_suffix bus w) ≡ some o
      → IsAnnounced e o w (handle table event_suffix bus now e w)
  unfolding handle Subscription.handle_subscription_created
      Subscription.sync_from_stripe_subscription Subscription.handle_subscription_updated
      Subscription.handle_invoice_paid Subscription.handle_invoice_failed
      Subscription.handle_checkout_completed Repository.find_org_by_id
      Repository.find_org_by_stripe_customer_id
  handle-announcements now (subscription_created s ctx) w o t =
      ground (arith, t, table.find_first_law (has_customer s.customer) w.orgs)
  handle-announcements now (subscription_updated s ctx) w o t =
      ground (arith, t, table.find_first_law (has_customer s.customer) w.orgs)
  handle-announcements now (invoice_paid i) w o t = elim (Option-cases i.customer) [
    | inl e ↦ ground (arith, e)
    | inr (c, e) ↦ ground (arith, e, t, table.find_first_law (has_customer c) w.orgs)
  ]
  handle-announcements now (invoice_failed i) w o t = elim (Option-cases i.customer) [
    | inl e ↦ ground (arith, e)
    | inr (c, e) ↦ ground (arith, e, t, table.find_first_law (has_customer c) w.orgs)
  ]
  handle-announcements now (checkout_completed s) w o t = elim (Option-cases s.customer) [
    | inl e ↦ ground (arith, e)
    | inr (c, e) ↦ elim (Option-cases s.org_id) [
      | inl e' ↦ ground (arith, e, e')
      | inr (id, e') ↦ ground (arith, e, e', t, table.find_first_law (has_org_id id) w.orgs)
    ]
  ]
