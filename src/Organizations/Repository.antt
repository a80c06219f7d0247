-- ===== src/Organizations/Repository.antt =====
-- libs/organizations/src/infrastructure/repositories/organizations.repository.ts. The other fields of an
-- organization have their defaults or are null. What the database deletes with an organization, by its
-- foreign keys, is left out.
use saas_backend_blueprint.Prelude.{String, Bool, ◌==◌, List, [], ◌∷◌, Option, none, some}
use saas_backend_blueprint.Platform.Table.{Table}
use saas_backend_blueprint.Access.Roles.{owner}
use saas_backend_blueprint.Members.Model
use saas_backend_blueprint.Members.Model.{Uuid, Membership}
use saas_backend_blueprint.Jobs.Model.{Job, job_clash}
use saas_backend_blueprint.Organizations
use saas_backend_blueprint.Organizations.{OrganizationStatus}

pub record Organization : Type 0 where
  pub id : Uuid
  pub name : String
  pub status : OrganizationStatus

-- `@id`
abbrev pub org_clash : Organization → Organization → Bool
org_clash o q = o.id == q.id

abbrev pub has_org_id : Uuid → Organization → Bool
has_org_id id o = o.id == id

pub record Tables : Type 1 where
  pub organizations : Table Organization org_clash
  pub memberships : Table Membership Model.clash
  pub jobs : Table Job job_clash

pub record Rows (t : Tables) : Type 0 where
  pub organizations : t.organizations.State
  pub memberships : t.memberships.State
  pub jobs : t.jobs.State

abbrev pub new_organization : Uuid → String → Organization
new_organization id name = record { id = id; name = name; status = Organizations.active }

abbrev pub owner_of : Uuid → Uuid → Uuid → Membership
owner_of id user org = record {
  id = id;
  user_id = user;
  org_id = org;
  role = owner;
  status = Model.active;
}

abbrev pub renamed : Option String → Organization → Organization
renamed none o = o
renamed (some name) o = record o { name = name }

module _ (t : Tables) where
  -- One transaction: none undoes it. `org` is the id that is drawn, `id` that of the membership.
  unfoldable pub create_with_owner : Uuid → Uuid → String → Uuid → Rows t → Option (Rows t)
  create_with_owner org id name user s =
      elim (t.organizations.create (new_organization org name) s.organizations) [
        | none ↦ none
        | some os ↦ elim (t.memberships.create (owner_of id user org) s.memberships) [
          | none ↦ none
          | some ms ↦ some (record s { organizations = os; memberships = ms })
        ]
      ]

  unfoldable pub find_by_id : Uuid → Rows t → Option Organization
  find_by_id org s = t.organizations.find_first (has_org_id org) s.organizations

  -- `include: { organization: true }`
  abbrev pub organizations_of : List Membership → Rows t → List Organization
  organizations_of [] s = []
  organizations_of (m ∷ ms) s =
      elim (t.organizations.find_first (has_org_id m.org_id) s.organizations) [
        | none ↦ organizations_of ms s
        | some o ↦ o ∷ organizations_of ms s
      ]

  unfoldable pub find_by_user_id : Uuid → Rows t → List Organization
  find_by_user_id user s =
      organizations_of (t.memberships.find_many (λ m. m.user_id == user) s.memberships) s

  unfoldable pub update : Uuid → Option String → Rows t → Option (Rows t)
  update org name s =
      elim (t.organizations.update (has_org_id org) (renamed name) s.organizations) [
        | none ↦ none
        | some os ↦ some (record s { organizations = os })
      ]

  unfoldable pub delete_jobs : Uuid → Rows t → Rows t
  delete_jobs org s = record s { jobs = t.jobs.delete_many (λ j. j.org_id == org) s.jobs }

  unfoldable pub delete : Uuid → Rows t → Option (Rows t)
  delete org s = elim (t.organizations.delete (has_org_id org) s.organizations) [
    | none ↦ none
    | some os ↦ some (record s { organizations = os })
  ]
