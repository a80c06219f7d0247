-- ===== src/Organizations/Service.antt =====
-- libs/organizations/src/application/services/organizations.service.ts. An update answers with
-- the organization that it found, renamed.
use saas_backend_blueprint.Prelude.{
  String, List, ◌∷◌, Option, none, some, Method, ◌>>=◌, ◌>>◌, bad_request, not_found, failure,
  return, throw, modify, or_throw,
}
use saas_backend_blueprint.Members.Model.{Uuid}
use saas_backend_blueprint.Organizations.Repository
use saas_backend_blueprint.Organizations.Repository.{Organization, Tables, Rows, new_organization}

-- An entry of the activity log and of the legal audit; the actor is none for the system.
pub record Entry : Type 0 where
  pub action : String
  pub org_id : Uuid
  pub actor : Option Uuid

pub record World (S : Type 0) : Type 0 where
  pub stored : S
  pub activity : List Entry
  pub audit : List Entry

module _ (t : Tables) where
  abbrev pub State : Type 0
  State = World (Rows t)

  abbrev pub log : String → Uuid → Option Uuid → Method State (Unit {0})
  log action org actor = modify (λ w.
      let e : Entry = record { action = action; org_id = org; actor = actor } in
      record w { activity = e ∷ w.activity; audit = e ∷ w.audit })

  abbrev pub stored_in : Option (Rows t) → String → Method State (Unit {0})
  stored_in none message w = throw (bad_request message) w
  stored_in (some s) message w = return tt (record w { stored = s })

  unfoldable pub create_organization : Uuid → Uuid → Uuid → String → Method State Organization
  create_organization org id user name w =
      (do
        stored_in (Repository.create_with_owner t org id name user w.stored)
            "Failed to create organization"
        log "organization.created" org (some user)
        return (new_organization org name))
        w

  unfoldable pub find_by_id : Uuid → Method State Organization
  find_by_id org w =
      or_throw (Repository.find_by_id t org w.stored) (not_found "Organization not found") w

  unfoldable pub find_by_user_id : Uuid → State → List Organization
  find_by_user_id user w = Repository.find_by_user_id t user w.stored

  abbrev pub written_in : Option (Rows t) → Method State (Unit {0})
  written_in none w = throw (failure "P2025") w
  written_in (some s) w = return tt (record w { stored = s })

  unfoldable pub update_organization :
      Uuid → Option String → Option Uuid → Method State Organization
  unfolding find_by_id
  update_organization org name user w =
      (do
        found ← find_by_id org
        written_in (Repository.update t org name w.stored)
        log "organization.updated" org user
        return (Repository.renamed name found))
        w

  unfoldable pub delete_organization : Uuid → Option Uuid → Method State (Unit {0})
  unfolding find_by_id
  delete_organization org user w =
      (do
        found ← find_by_id org
        modify (λ w'. record w' { stored = Repository.delete_jobs t org w'.stored })
        written_in (Repository.delete t org (Repository.delete_jobs t org w.stored))
        log "organization.deleted" org user)
        w
