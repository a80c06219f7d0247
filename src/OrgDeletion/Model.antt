-- ===== src/OrgDeletion/Model.antt =====
-- The fields of prisma/organization.prisma that the deletion reads or writes, and the events of
-- libs/org-deletion/src/interfaces/org-deletion-event.interface.ts. Times are in milliseconds.
use saas_backend_blueprint.Prelude.{ℕ, String, Bool, ◌==◌, ◌||◌, Option}
use saas_backend_blueprint.Members.Model.{Uuid}
use saas_backend_blueprint.Billing.Model.{same_text}
use saas_backend_blueprint.Organizations.{OrganizationStatus}

pub record Organization : Type 0 where
  pub id : Uuid
  pub name : String
  pub status : OrganizationStatus
  pub retention_period_days : Option ℕ
  pub stripe_customer_id : Option String
  pub subscription_id : Option String
  pub subscription_period_end : Option ℕ
  pub deletion_requested_at : Option ℕ
  pub deletion_scheduled_at : Option ℕ
  pub deletion_completed_at : Option ℕ

-- `@id`, `@unique` of stripeCustomerId and of subscriptionId
abbrev pub clash : Organization → Organization → Bool
clash o q =
    o.id == q.id
    || same_text o.stripe_customer_id q.stripe_customer_id
    || same_text o.subscription_id q.subscription_id

pub data DeletionTrigger : Type 0 where
  user_request subscription_expiry : DeletionTrigger

-- A domain event of the deletion; the times of those that the worker sends are left out.
pub data DeletionEvent : Type 0 where
  requested :
      Uuid
      → DeletionTrigger
      → (user : Option String) → (name : String) → (requested_at scheduled_at : ℕ) → DeletionEvent
  started : Uuid → DeletionTrigger → DeletionEvent
  completed : Uuid → DeletionTrigger → DeletionEvent
  failed : Uuid → DeletionTrigger → DeletionEvent

-- An entry of the legal audit or of the activity log: what was done to which organization, and why.
pub record Entry : Type 0 where
  pub action : String
  pub org_id : Uuid
  pub trigger : DeletionTrigger

-- A row of one of the tables whose rows belong to an organization.
pub record Child : Type 0 where
  pub id : Uuid
  pub org_id : Uuid

abbrev pub child_clash : Child → Child → Bool
child_clash a b = a.id == b.id

abbrev pub is_of : Uuid → Child → Bool
is_of org c = c.org_id == org
