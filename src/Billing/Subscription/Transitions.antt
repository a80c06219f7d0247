-- ===== src/Billing/Subscription/Transitions.antt =====
-- libs/billing/src/application/services/subscription.service.ts: the pure part, what a subscription or a
-- checkout session makes of the billing fields, and how the change is named.
use saas_backend_blueprint.Prelude.{
  ℕ, ◌*◌, String, str_eq, Bool, true, false, not, ◌&&◌, ◌||◌, Option, none, some, if◌then◌else◌,
}
use saas_backend_blueprint.Members.Model.{Uuid}
use saas_backend_blueprint.Billing.Model.{
  BillingStatus, no_subscription, trialing, active, past_due, canceled, unpaid, incomplete,
  incomplete_expired, paused, StripeStatus, is_active, is_canceled, is_incomplete,
  is_incomplete_expired, is_past_due, is_trialing, is_unpaid, is_paused, unknown, Organization,
  PriceItem, Subscription, SyncContext, Snapshot,
}

unfoldable pub map_stripe_billing_status : StripeStatus → BillingStatus
map_stripe_billing_status is_active = active
map_stripe_billing_status is_canceled = canceled
map_stripe_billing_status is_incomplete = incomplete
map_stripe_billing_status is_incomplete_expired = incomplete_expired
map_stripe_billing_status is_past_due = past_due
map_stripe_billing_status is_trialing = trialing
map_stripe_billing_status is_unpaid = unpaid
map_stripe_billing_status is_paused = paused
map_stripe_billing_status unknown = no_subscription

abbrev pub was_canceled : BillingStatus → Bool
was_canceled canceled = true
was_canceled _ = false

-- `inactive.includes(status)`, `active.includes(status)`
abbrev pub was_inactive : BillingStatus → Bool
was_inactive canceled = true
was_inactive past_due = true
was_inactive unpaid = true
was_inactive _ = false

abbrev pub now_active : BillingStatus → Bool
now_active active = true
now_active trialing = true
now_active _ = false

-- `a && b && a !== b`, where the empty text is false
abbrev pub differ : Option String → Option String → Bool
differ (some a) (some b) = not (str_eq a "") && not (str_eq b "") && not (str_eq a b)
differ _ _ = false

-- `a ?? b`
abbrev pub or_else : Option String → Option String → Option String
or_else none b = b
or_else (some a) b = some a

unfoldable pub resolve_activity_action :
    SyncContext → Option String → BillingStatus → Option String → BillingStatus → String
resolve_activity_action ctx previous_plan previous_status new_plan new_status =
    if str_eq ctx.event_type "customer.subscription.created"
    then "subscription.created"
    else if str_eq ctx.event_type "customer.subscription.deleted" || was_canceled new_status
    then "subscription.cancelled"
    else if was_inactive previous_status && now_active new_status
    then "subscription.reactivated"
    else if differ (or_else ctx.previous_plan_id previous_plan) new_plan
    then "subscription.upgraded"
    else "subscription.updated"

-- `priceItem?.…`
abbrev pub plan_of : Option PriceItem → Option String
plan_of none = none
plan_of (some i) = i.price_id

abbrev pub seats_of : Option PriceItem → Option ℕ
seats_of none = none
seats_of (some i) = i.quantity

abbrev pub start_of : Option PriceItem → Option ℕ
start_of none = none
start_of (some i) = i.current_period_start

abbrev pub end_of : Option PriceItem → Option ℕ
end_of none = none
end_of (some i) = i.current_period_end

-- `t == null ? new Date() : new Date(t * 1000)`
abbrev pub date_or_now : Option ℕ → ℕ → ℕ
date_or_now none now = now
date_or_now (some t) now = t * 1000

-- `...(t != null && { field: new Date(t * 1000) })`
abbrev pub date_or_kept : Option ℕ → Option ℕ → Option ℕ
date_or_kept none old = old
date_or_kept (some t) old = some (t * 1000)

unfoldable pub build_snapshot : Uuid → Subscription → ℕ → Snapshot
build_snapshot org s now = record {
  org_id = org;
  stripe_subscription_id = s.id;
  plan_id = plan_of s.price_item;
  status = s.status;
  seats = seats_of s.price_item;
  seat_limit = none;
  period_start = date_or_now (start_of s.price_item) now;
  period_end = date_or_now (end_of s.price_item) now;
}

-- The organization with the `billingData` of a subscription.
unfoldable pub synced : Subscription → Organization → Organization
synced s o = record o {
  subscription_id = some s.id;
  billing_status = map_stripe_billing_status s.status;
  plan_id = plan_of s.price_item;
  subscription_period_start = date_or_kept (start_of s.price_item) o.subscription_period_start;
  subscription_period_end = date_or_kept (end_of s.price_item) o.subscription_period_end;
  cancel_at_period_end = s.cancel_at_period_end;
}

-- The customer of a session is kept for an organization that has none: `!foundOrg.stripeCustomerId`.
abbrev pub customer_or_kept : String → Option String → Option String
customer_or_kept customer none = some customer
customer_or_kept customer (some old) = if str_eq old "" then some customer else some old

-- `if (resolvedSubscriptionId)`
abbrev pub subscription_or_kept : Option String → Option String → Option String
subscription_or_kept none old = old
subscription_or_kept (some s) old = if str_eq s "" then old else some s

-- The organization with the `updateData` of a checkout session.
unfoldable pub checked_out : String → Option String → Organization → Organization
checked_out customer subscription o = record o {
  billing_status = active;
  stripe_customer_id = customer_or_kept customer o.stripe_customer_id;
  subscription_id = subscription_or_kept subscription o.subscription_id;
}

abbrev pub with_status : BillingStatus → Organization → Organization
with_status s o = record o { billing_status = s }
