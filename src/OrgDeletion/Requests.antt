-- ===== src/OrgDeletion/Requests.antt =====
-- When a deletion is requested: libs/org-deletion/src/application/services/org-deletion.service.ts and
-- org-deletion-scheduler.service.ts.
use saas_backend_blueprint.Prelude.{
  ℕ, ◌+◌, ◌*◌, ◌≡◌, refl, ap, ◌∙◌, ◌⊎◌, inl, inr, String, Bool, true, false, ◌&&◌, List, [], ◌∷◌,
  Option, none, some, any, find, where_, arith, Option-cases, Bool-cases, update_where, Result, ok,
  err, Exception,
}
use saas_backend_blueprint.Platform.EventBus.{EventBus}
use saas_backend_blueprint.Members.Model.{Uuid}
use saas_backend_blueprint.Organizations.{
  active, suspended, pending_deletion, deleted, is_suspended,
}
use saas_backend_blueprint.OrgDeletion.Model.{
  Organization, DeletionTrigger, DeletionEvent, requested,
}
use saas_backend_blueprint.OrgDeletion.Repository
use saas_backend_blueprint.OrgDeletion.Repository.{
  Tables, Rows, has_org_id, pending, is_eligible, is_reached,
}
use saas_backend_blueprint.OrgDeletion.Service
use saas_backend_blueprint.OrgDeletion.Service.{State, is_in_deletion, retention_days, day}

-- Whether a deletion can be requested, by the row of the organization.
abbrev pub is_requestable : Option Organization → Bool
is_requestable none = false
is_requestable (some o) = elim o.status [
  | active ↦ true
  | suspended ↦ true
  | pending_deletion ↦ false
  | deleted ↦ false
]

-- The end of the retention period, in milliseconds: a day has 86400000.
abbrev pub due_at : ℕ → ℕ → Option ℕ → ℕ
due_at default_days now none = now + default_days * 86400000
due_at default_days now (some days) = now + days * 86400000

-- A suspended organization with a date for its deletion.
abbrev pub is_awaited : Organization → Bool
is_awaited o = is_suspended o.status && is_reached (λ t. true) o.deletion_scheduled_at

any-is_awaited-pending :
    (org requested_at scheduled : ℕ) (os : List Organization)
    → any is_awaited os ≡ false
    → any is_awaited (update_where (has_org_id org) (pending requested_at scheduled) os) ≡ false
any-is_awaited-pending org requested_at scheduled [] h = refl
any-is_awaited-pending org requested_at scheduled (o ∷ os) h =
    ground (arith, h, any-is_awaited-pending org requested_at scheduled os)

where_-is_eligible :
    (now : ℕ) (os : List Organization)
    → any is_awaited os ≡ false
    → where_ (is_eligible now) os ≡ []
where_-is_eligible now [] h = refl
where_-is_eligible now (o ∷ os) h = ground (arith, h, where_-is_eligible now os)

module _ (t : Tables) (bus : EventBus DeletionEvent) where
  abbrev pub organizations : State t bus → List Organization
  organizations w = t.organizations.rows w.stored.organizations

  -- A request that is accepted: the row is pending deletion for the end of the retention period, and one
  -- event announces it, or the event bus throws and none does.
  pub record IsRequested (default_days : ℕ) (org : Uuid) (trigger : DeletionTrigger)
      (user : Option String) (now : ℕ) (w : State t bus) (r : Result (Unit {0}) × State t bus)
      : Type 0 where
    pub before : Organization
    pub row : Organization
    pub known : find (has_org_id org) (organizations w) ≡ some before
    pub stored : find (has_org_id org) (organizations r.1) ≡ some row
    pub status : row.status ≡ pending_deletion
    pub since : row.deletion_requested_at ≡ some now
    pub scheduled :
        row.deletion_scheduled_at ≡ some (due_at default_days now before.retention_period_days)
    pub announced :
        ((r.0 ≡ ok tt)
          × (r.1.published
              ≡ requested org trigger user before.name now
                  (due_at default_days now before.retention_period_days)
                ∷ w.published))
        ⊎ ((e : Exception) × (r.0 ≡ err e) × (r.1.published ≡ w.published))

-- What the deletion service is asked to do: requests and daily checks, each at its time.
pub data Act : Type 0 where
  requests : Uuid → DeletionTrigger → Option String → (now : ℕ) → Act
  checks : (now : ℕ) → Act

-- The acts but for the checks.
abbrev pub without_checks : List Act → List Act
without_checks [] = []
without_checks (requests org trigger user now ∷ acts) =
    requests org trigger user now ∷ without_checks acts
without_checks (checks now ∷ acts) = without_checks acts

module _ (t : Tables) (bus : EventBus DeletionEvent) (default_days : ℕ) where
  abbrev pub act : Act → State t bus → State t bus
  act (requests org trigger user now) w =
      (Service.request_deletion t bus default_days org trigger user now w).1
  act (checks now) w = Service.check_expired_organizations t bus default_days now w

  abbrev pub run : List Act → State t bus → State t bus
  run [] w = w
  run (a ∷ acts) w = run acts (act a w)

  abbrev pub awaits : State t bus → Bool
  awaits w = any is_awaited (t.organizations.rows w.stored.organizations)

  request_deletion-awaits :
      (org : Uuid) (trigger : DeletionTrigger) (user : Option String) (now : ℕ) (w : State t bus)
      → awaits w ≡ false
      → awaits (Service.request_deletion t bus default_days org trigger user now w).1 ≡ false
  unfolding Service.request_deletion Repository.find_org_by_id Repository.mark_pending_deletion
  request_deletion-awaits org trigger user now w h =
      elim (Option-cases (t.organizations.find_first (has_org_id org) w.stored.organizations)) [
        | inl gone ↦ ground (arith, gone, h)
        | inr (o, found) ↦ elim (Bool-cases (is_in_deletion o.status)) [
          | inl late ↦ ground (arith, found, late, h)
          | inr early ↦
              let scheduled = now + retention_days default_days o.retention_period_days * day in
              let f = pending now scheduled in
              elim (Option-cases
                (t.organizations.update (has_org_id org) f w.stored.organizations)) [
                  | inl g ↦ ground (arith, found, early, g, h)
                  | inr (s, g) ↦ ground (
                    arith,
                    found,
                    early,
                    g,
                    h,
                    t.organizations.update_law (has_org_id org) f w.stored.organizations,
                    any-is_awaited-pending org now scheduled
                        (t.organizations.rows w.stored.organizations) h,
                  )
                ]
        ]
      ]

  check_expired_organizations-idle :
      (now : ℕ) (w : State t bus)
      → awaits w ≡ false
      → Service.check_expired_organizations t bus default_days now w ≡ w
  unfolding Service.check_expired_organizations Repository.find_orgs_eligible_for_deletion
      Service.request_all
  check_expired_organizations-idle now w h =
      ap (λ os. Service.request_all t bus default_days now os w)
        (t.organizations.find_many_law (is_eligible now) w.stored.organizations
          ∙ where_-is_eligible now (t.organizations.rows w.stored.organizations) h)

  -- The daily check never requests a deletion: where no suspended organization has a date for its
  -- deletion, which no request gives one, the checks can be left out of every sequence of requests and
  -- checks.
  pub run-without_checks :
      (acts : List Act) (w : State t bus)
      → awaits w ≡ false
      → run acts w ≡ run (without_checks acts) w
  run-without_checks [] w h = refl
  run-without_checks (requests org trigger user now ∷ acts) w h =
      run-without_checks acts (Service.request_deletion t bus default_days org trigger user now w).1
        (request_deletion-awaits org trigger user now w h)
  run-without_checks (checks now ∷ acts) w h =
      ap (run acts) (check_expired_organizations-idle now w h) ∙ run-without_checks acts w h
