-- ===== src/Billing.antt =====
-- libs/billing: how the webhooks of Stripe change the billing fields of an organization.
pub mod Model
pub mod Repository
pub mod Subscription
pub mod Webhooks
pub mod Effects
pub mod Recording
mod Tests
