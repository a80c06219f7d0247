-- ===== src/Members/Trail.antt =====
-- What MembershipsService leaves in the activity log and in the legal audit.
use saas_backend_blueprint.Prelude.{
  String, ◌≡◌, refl, ◌⊎◌, inl, inr, ◌∷◌, some, arith, Option-cases, Result-cases,
}
use saas_backend_blueprint.Members.Model.{Uuid, Activity, AuditEvent}
use saas_backend_blueprint.Members.Repository
use saas_backend_blueprint.Members.Repository.{has_id}
use saas_backend_blueprint.Members.Logs.{
  created_activity, created_event, role_changed_activity, role_changed_event, deleted_activity,
  deleted_event,
}
use saas_backend_blueprint.Members.Service
use saas_backend_blueprint.Members.Service.{Providers, ServiceWorld}
use saas_backend_blueprint.Members.Calls.{Call, creates, updates, deletes, activates, step, IsFor}

-- What a call is logged as.
abbrev pub action_of : Call → String
action_of (creates id org dto actor trigger) = "membership.created"
action_of (updates id org role actor trigger) = "membership.role_changed"
action_of (deletes id org actor trigger) = "membership.deleted"
action_of (activates user) = ""

-- The membership that a call is about; none of an activation is logged.
abbrev pub membership_of : Call → Uuid
membership_of (creates id org dto actor trigger) = id
membership_of (updates id org role actor trigger) = id
membership_of (deletes id org actor trigger) = id
membership_of (activates user) = user

module _ (p : Providers) where
  -- One entry in each log, of the organization and of the same membership.
  pub record IsLogged (c : Call) (org : Uuid) (w w' : ServiceWorld p) : Type 0 where
    pub entry : Activity
    pub event : AuditEvent
    pub activity_grown : w'.activity ≡ entry ∷ w.activity
    pub audit_grown : w'.audit ≡ event ∷ w.audit
    pub of_org : entry.org_id ≡ org
    pub event_of_org : event.org_id ≡ org
    pub of_action : entry.action ≡ action_of c
    pub event_of_action : event.event_type ≡ action_of c
    pub of_membership : entry.entity_id ≡ membership_of c
    pub event_of_membership : event.membership_id ≡ some (membership_of c)
    pub same_user : entry.target_user_id ≡ some event.target_user_id

  logged :
      {c : Call} {org : Uuid} {w w' : ServiceWorld p} (entry : Activity) (event : AuditEvent)
      → w'.activity ≡ entry ∷ w.activity
      → w'.audit ≡ event ∷ w.audit
      → entry.org_id ≡ org
      → event.org_id ≡ org
      → entry.action ≡ action_of c
      → event.event_type ≡ action_of c
      → entry.entity_id ≡ membership_of c
      → event.membership_id ≡ some (membership_of c)
      → entry.target_user_id ≡ some event.target_user_id
      → IsLogged c org w w'
  logged entry event a b c d e f g h i = record {
    entry = entry;
    event = event;
    activity_grown = a;
    audit_grown = b;
    of_org = c;
    event_of_org = d;
    of_action = e;
    event_of_action = f;
    of_membership = g;
    event_of_membership = h;
    same_user = i;
  }

  -- A create, update or delete call made for an organization either changes nothing at all, or writes
  -- one activity entry and one audit event, both of that organization, of what the call does and of the
  -- membership that it names, and of the same user.
  pub step-IsLogged :
      (c : Call) (w : ServiceWorld p) (org : Uuid)
      → IsFor org c
      → (step p c w ≡ w) ⊎ IsLogged c org w (step p c w)
  unfolding step Service.create_membership Service.update_membership Service.delete_membership
      created_activity created_event role_changed_activity role_changed_event deleted_activity
      deleted_event
  step-IsLogged (creates id o dto actor trigger) w org e =
      elim (Result-cases (Service.create_membership p id o dto actor trigger w).0) [
        | inl (x, failed) ↦ inl (ground (arith, failed))
        | inr (a, done) ↦ inr (
            logged (created_activity id o dto actor) (created_event id o dto actor trigger)
              (ground (arith, done)) (ground (arith, done)) (ground arith) (ground arith) refl refl
              refl refl refl)
      ]
  step-IsLogged (updates id o role actor trigger) w org e =
      elim (Option-cases (Repository.find_by_id p.table id w.memberships)) [
        | inl gone ↦ inl (ground (arith, gone))
        | inr (m, found) ↦
            elim (Result-cases (Service.update_membership p id o role actor trigger w).0) [
              | inl (x, failed) ↦ inl (ground (arith, failed, found))
              | inr (a, done) ↦ inr (
                  logged (role_changed_activity o m role actor id)
                    (role_changed_event o m role actor trigger id) (ground (arith, done, found))
                    (ground (arith, done, found)) (ground arith) (ground arith) refl refl refl refl
                    refl)
            ]
      ]
  step-IsLogged (deletes id o actor trigger) w org e =
      elim (Option-cases (Repository.find_by_id p.table id w.memberships)) [
        | inl gone ↦ inl (ground (arith, gone))
        | inr (m, found) ↦
            elim (Result-cases (Service.delete_membership p id o actor trigger w).0) [
              | inl (x, failed) ↦ inl (ground (arith, failed, found))
              | inr (a, done) ↦ inr (
                  logged (deleted_activity o m actor id) (deleted_event o m actor trigger id)
                    (ground (arith, done, found)) (ground (arith, done, found)) (ground arith)
                    (ground arith) refl refl refl refl refl)
            ]
      ]
  step-IsLogged (activates user) w org e = absurd e
