-- ===== src/Billing/Model.antt =====
-- The billing fields of prisma/organization.prisma, the objects of Stripe that the webhooks carry, and
-- what libs/billing/src/application/services/subscription.service.ts keeps of them. Times of Stripe are
-- in seconds, those of the rows in milliseconds.
use saas_backend_blueprint.Prelude.{ℕ, String, str_eq, Bool, false, ◌==◌, ◌||◌, Option, some}
use saas_backend_blueprint.Members.Model.{Uuid}

pub data BillingStatus : Type 0 where
  no_subscription trialing active past_due canceled unpaid incomplete incomplete_expired paused :
      BillingStatus

-- `Stripe.Subscription.Status`; `unknown` is one that the mapping does not have.
pub data StripeStatus : Type 0 where
  is_active is_canceled is_incomplete is_incomplete_expired is_past_due is_trialing : StripeStatus
  is_unpaid is_paused unknown : StripeStatus

pub record Organization : Type 0 where
  pub id : Uuid
  pub stripe_customer_id : Option String
  pub subscription_id : Option String
  pub billing_status : BillingStatus
  pub plan_id : Option String
  pub subscription_period_start : Option ℕ
  pub subscription_period_end : Option ℕ
  pub cancel_at_period_end : Bool

abbrev pub same_text : Option String → Option String → Bool
same_text (some a) (some b) = str_eq a b
same_text _ _ = false

-- `@id`, `@unique` of stripeCustomerId and of subscriptionId
abbrev pub clash : Organization → Organization → Bool
clash o q =
    o.id == q.id
    || same_text o.stripe_customer_id q.stripe_customer_id
    || same_text o.subscription_id q.subscription_id

-- An item of a subscription, with its price and its current period.
pub record PriceItem : Type 0 where
  pub price_id : Option String
  pub quantity : Option ℕ
  pub current_period_start : Option ℕ
  pub current_period_end : Option ℕ

-- `price_item` is `items.data[0]`, `customer` the id of the customer.
pub record Subscription : Type 0 where
  pub id : String
  pub customer : String
  pub status : StripeStatus
  pub price_item : Option PriceItem
  pub cancel_at_period_end : Bool

pub record Invoice : Type 0 where
  pub id : String
  pub customer : Option String

-- `org_id` is that of the metadata.
pub record CheckoutSession : Type 0 where
  pub id : String
  pub customer : Option String
  pub org_id : Option Uuid
  pub subscription : Option String

pub record SyncContext : Type 0 where
  pub event_type : String
  pub stripe_event_id : String
  pub previous_plan_id : Option String

pub record Snapshot : Type 0 where
  pub org_id : Uuid
  pub stripe_subscription_id : String
  pub plan_id : Option String
  pub status : StripeStatus
  pub seats : Option ℕ
  pub seat_limit : Option ℕ
  pub period_start : ℕ
  pub period_end : ℕ

pub record SyncResult : Type 0 where
  pub org_id : Uuid
  pub previous_plan_id : Option String
  pub new_plan_id : Option String
  pub plan_change_direction : String

-- An entry of the activity log or of the legal audit, or a domain event: its name and organization.
pub record Entry : Type 0 where
  pub name : String
  pub org_id : Uuid
