-- ===== src/OrgDeletion/Repository.antt =====
-- libs/org-deletion/src/infrastructure/repositories/org-deletion.repository.ts over the organizations, the
-- users and the eight tables whose rows are deleted with an organization.
use saas_backend_blueprint.Prelude.{
  ℕ, String, Bool, false, ◌&&◌, leb, ltb, ◌==◌, List, Option, none, some,
}
use saas_backend_blueprint.Platform.Table.{Table}
use saas_backend_blueprint.Members.Model.{Uuid}
use saas_backend_blueprint.Organizations.{pending_deletion, deleted, is_suspended}
use saas_backend_blueprint.Users
use saas_backend_blueprint.Users.{User, user_clash}
use saas_backend_blueprint.OrgDeletion.Model.{Organization, clash, Child, child_clash, is_of}

pub record Tables : Type 1 where
  pub organizations : Table Organization clash
  pub users : Table User user_clash
  pub snapshots : Table Child child_clash
  pub events : Table Child child_clash
  pub files : Table Child child_clash
  pub notifications : Table Child child_clash
  pub exports : Table Child child_clash
  pub jobs : Table Child child_clash
  pub activity : Table Child child_clash
  pub memberships : Table Child child_clash

pub record Rows (t : Tables) : Type 0 where
  pub organizations : t.organizations.State
  pub users : t.users.State
  pub snapshots : t.snapshots.State
  pub events : t.events.State
  pub files : t.files.State
  pub notifications : t.notifications.State
  pub exports : t.exports.State
  pub jobs : t.jobs.State
  pub activity : t.activity.State
  pub memberships : t.memberships.State

abbrev pub has_org_id : Uuid → Organization → Bool
has_org_id id o = o.id == id

-- `{ lte: now }`, which null does not meet
abbrev pub is_reached : (ℕ → Bool) → Option ℕ → Bool
is_reached p none = false
is_reached p (some t) = p t

abbrev pub is_eligible : ℕ → Organization → Bool
is_eligible now o = is_suspended o.status && is_reached (λ t. leb t now) o.deletion_scheduled_at

abbrev pub has_expired : ℕ → Organization → Bool
has_expired now o = is_suspended o.status && is_reached (λ t. ltb t now) o.subscription_period_end

abbrev pub pending : ℕ → ℕ → Organization → Organization
pending requested scheduled o = record o {
  status = pending_deletion;
  deletion_requested_at = some requested;
  deletion_scheduled_at = some scheduled;
}

abbrev pub completed_at : ℕ → Organization → Organization
completed_at now o = record o { status = deleted; deletion_completed_at = some now }

module _ (t : Tables) where
  unfoldable pub find_org_by_id : Uuid → Rows t → Option Organization
  find_org_by_id org s = t.organizations.find_first (has_org_id org) s.organizations

  unfoldable pub find_orgs_eligible_for_deletion : ℕ → Rows t → List Organization
  find_orgs_eligible_for_deletion now s =
      t.organizations.find_many (is_eligible now) s.organizations

  unfoldable pub find_suspended_orgs_with_expired_subscriptions : ℕ → Rows t → List Organization
  find_suspended_orgs_with_expired_subscriptions now s =
      t.organizations.find_many (has_expired now) s.organizations

  abbrev pub updated : Rows t → Option t.organizations.State → Option (Rows t)
  updated s none = none
  updated s (some os) = some (record s { organizations = os })

  -- None is an error: there is no such organization.
  unfoldable pub mark_pending_deletion : Uuid → ℕ → ℕ → Rows t → Option (Rows t)
  mark_pending_deletion org requested scheduled s =
      updated s
        (t.organizations.update (has_org_id org) (pending requested scheduled) s.organizations)

  unfoldable pub mark_deleted : Uuid → ℕ → Rows t → Option (Rows t)
  mark_deleted org now s =
      updated s (t.organizations.update (has_org_id org) (completed_at now) s.organizations)

  unfoldable pub find_user_by_auth0_id : String → Rows t → Option User
  unfolding Users.find_by_auth0_id
  find_user_by_auth0_id auth0_id s = Users.find_by_auth0_id t.users auth0_id s.users

  -- One transaction.
  unfoldable pub delete_database_records : Uuid → Rows t → Rows t
  delete_database_records org s = record s {
    snapshots = t.snapshots.delete_many (is_of org) s.snapshots;
    events = t.events.delete_many (is_of org) s.events;
    files = t.files.delete_many (is_of org) s.files;
    notifications = t.notifications.delete_many (is_of org) s.notifications;
    exports = t.exports.delete_many (is_of org) s.exports;
    jobs = t.jobs.delete_many (is_of org) s.jobs;
    activity = t.activity.delete_many (is_of org) s.activity;
    memberships = t.memberships.delete_many (is_of org) s.memberships;
  }
