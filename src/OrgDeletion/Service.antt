-- ===== src/OrgDeletion/Service.antt =====
-- libs/org-deletion/src/application/services/org-deletion.service.ts and org-deletion-scheduler.service.ts.
-- The event bus may throw.
use saas_backend_blueprint.Prelude.{
  ℕ, ◌+◌, ◌*◌, String, Bool, true, false, leb, List, [], ◌∷◌, where_, Option, none, some, Method,
  ◌>>=◌, ◌>>◌, bad_request, not_found, failure, return, throw, throw_if, modify, or_throw,
}
use saas_backend_blueprint.Platform.EventBus.{EventBus}
use saas_backend_blueprint.Members.Model.{Uuid}
use saas_backend_blueprint.Organizations.{OrganizationStatus, pending_deletion, deleted}
use saas_backend_blueprint.OrgDeletion.Model.{
  Organization, DeletionTrigger, subscription_expiry, DeletionEvent, requested, Entry,
}
use saas_backend_blueprint.OrgDeletion.Repository
use saas_backend_blueprint.OrgDeletion.Repository.{Tables, Rows}

pub record World (S Bus : Type 0) : Type 0 where
  pub stored : S
  pub published : List DeletionEvent
  pub activity : List Entry
  pub audit : List Entry
  pub bus : Bus

abbrev pub is_in_deletion : OrganizationStatus → Bool
is_in_deletion pending_deletion = true
is_in_deletion deleted = true
is_in_deletion _ = false

abbrev pub day : ℕ
day = 24 * 60 * 60 * 1000

-- `default_days` is the configured ORG_DELETION_RETENTION_DAYS.
abbrev pub retention_days : ℕ → Option ℕ → ℕ
retention_days default_days none = default_days
retention_days default_days (some days) = days

-- `now >= subscriptionPeriodEnd + retention`
abbrev pub is_past_retention : ℕ → ℕ → Organization → Bool
is_past_retention default_days now o = elim o.subscription_period_end [
  | none ↦ false
  | some t ↦ leb (t + retention_days default_days o.retention_period_days * day) now
]

module _ (t : Tables) (bus : EventBus DeletionEvent) where
  abbrev pub State : Type 0
  State = World (Rows t) bus.State

  abbrev pub stored_in : Option (Rows t) → Method State (Unit {0})
  stored_in none w = throw (failure "P2025") w
  stored_in (some s) w = return tt (record w { stored = s })

  abbrev pub published_in : DeletionEvent → Option bus.State → Method State (Unit {0})
  published_in e none w = throw (failure "event bus") w
  published_in e (some s) w = return tt (record w { published = e ∷ w.published; bus = s })

  abbrev pub publish : DeletionEvent → Method State (Unit {0})
  publish e w = published_in e (bus.publish e w.bus) w

  abbrev pub record_event : Entry → Method State (Unit {0})
  record_event e = modify (λ w. record w { audit = e ∷ w.audit })

  abbrev pub log_activity : Entry → Method State (Unit {0})
  log_activity e = modify (λ w. record w { activity = e ∷ w.activity })

  abbrev pub requested_entry : Uuid → DeletionTrigger → Entry
  requested_entry org trigger = record {
    action = "organization.deletion.requested";
    org_id = org;
    trigger = trigger;
  }

  unfoldable pub request_deletion :
      ℕ → Uuid → DeletionTrigger → Option String → ℕ → Method State (Unit {0})
  request_deletion default_days org trigger user now w =
      (do
        o ← or_throw (Repository.find_org_by_id t org w.stored) (not_found "Organization not found")
        throw_if (is_in_deletion o.status) (bad_request "Organization is already being deleted")
        stored_in (
            Repository.mark_pending_deletion t org now
              (now + retention_days default_days o.retention_period_days * day) w.stored)
        log_activity (requested_entry org trigger)
        record_event (requested_entry org trigger)
        publish (
            requested org trigger user o.name now
              (now + retention_days default_days o.retention_period_days * day)))
        w

  unfoldable pub find_orgs_eligible_for_deletion : ℕ → ℕ → State → List Organization
  find_orgs_eligible_for_deletion default_days now w =
      where_ (is_past_retention default_days now)
        (Repository.find_suspended_orgs_with_expired_subscriptions t now w.stored)

  -- The request of one organization that fails is logged, and the next goes on.
  unfoldable pub request_all : ℕ → ℕ → List Organization → State → State
  unfolding request_deletion
  request_all default_days now [] w = w
  request_all default_days now (o ∷ os) w =
      request_all default_days now os
        (request_deletion default_days o.id subscription_expiry none now w).1

  unfoldable pub check_expired_organizations : ℕ → ℕ → State → State
  unfolding request_all
  check_expired_organizations default_days now w =
      request_all default_days now (Repository.find_orgs_eligible_for_deletion t now w.stored) w
