-- ===== src/OrgDeletion/Outcomes.antt =====
-- What the worker leaves: libs/org-deletion/src/application/services/org-deletion-worker.service.ts.
use saas_backend_blueprint.Prelude.{
  ℕ, ◌≡◌, ◌⊎◌, String, Bool, true, false, ◌∷◌, Option, none, Exception, some, find, ok, err,
}
use saas_backend_blueprint.Members.Model.{Uuid}
use saas_backend_blueprint.OrgDeletion.Model.{
  Organization, DeletionTrigger, started, completed, failed,
}
use saas_backend_blueprint.OrgDeletion.Repository
use saas_backend_blueprint.OrgDeletion.Repository.{Tables, Rows, has_org_id, completed_at}
use saas_backend_blueprint.OrgDeletion.Worker
use saas_backend_blueprint.OrgDeletion.Worker.{Outside, State, is_deleted}
use saas_backend_blueprint.OrgDeletion.Steps.{IsErased, DeletionResult}

module _ (t : Tables) (x : Outside) where
  -- What `execute_deletion` leaves of the state.
  abbrev pub executed : Uuid → DeletionTrigger → Option String → ℕ → State t x → DeletionResult t x
  executed org trigger user now w = Worker.execute_deletion t x org trigger user now w

  abbrev pub found : Uuid → State t x → Option Organization
  found org w = find (has_org_id org) (t.organizations.rows w.stored.organizations)

  abbrev pub is_gone : Option Organization → Bool
  is_gone none = true
  is_gone (some o) = is_deleted o.status

  -- The failure is published, or this throws too.
  abbrev pub IsFailure : Uuid → DeletionTrigger → State t x → DeletionResult t x → Type 0
  IsFailure org trigger w r =
      ((r.0 ≡ ok tt) × (r.1.published ≡ failed org trigger ∷ started org trigger ∷ w.published))
      ⊎ ((e : Exception) × (r.0 ≡ err e) × (r.1.published ≡ started org trigger ∷ w.published))

  -- The ways in which the worker ends.
  abbrev pub IsOutcome : Uuid → Uuid → DeletionTrigger → ℕ → State t x → DeletionResult t x → Type 0
  IsOutcome org other trigger now w r =
      ((e : Exception) × (r ≡ (err e, w)))
      ⊎ ((is_gone (found org w) ≡ true)
          × (r.0 ≡ ok tt)
          × (r.1.stored ≡ w.stored)
          × (r.1.published ≡ started org trigger ∷ w.published))
      ⊎ ((is_gone (found org w) ≡ false) × (r.1.stored ≡ w.stored) × IsFailure org trigger w r)
      ⊎ ((is_gone (found org w) ≡ false)
          × IsErased t x org other now w.stored r.1.stored
          × (((r.0 ≡ ok tt)
                × (r.1.published ≡ completed org trigger ∷ started org trigger ∷ w.published))
              ⊎ IsFailure org trigger w r))
