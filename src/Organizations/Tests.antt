-- ===== src/Organizations/Tests.antt =====
-- The creation of a concrete organization.
use saas_backend_blueprint.Prelude.{◌≡◌, ◌⊎◌, [], some, ok, err, bad_request, find}
use saas_backend_blueprint.Platform.Table.{list_table}
use saas_backend_blueprint.Members.Model
use saas_backend_blueprint.Jobs.Model.{job_clash}
use saas_backend_blueprint.Organizations.Repository.{org_clash, Tables, new_organization, owner_of}
use saas_backend_blueprint.Organizations.Service
use saas_backend_blueprint.Organizations.Service.{State}
use saas_backend_blueprint.Organizations.Ownership.{is_member, created, create_organization-owner}

abbrev lists : Tables
lists = record {
  organizations = list_table org_clash;
  memberships = list_table Model.clash;
  jobs = list_table job_clash;
}

abbrev world : State lists
world = record {
  stored = record { organizations = []; memberships = []; jobs = [] };
  activity = [];
  audit = [];
}

create_organization-owner_example :
    (Service.create_organization lists 100 11 1 "club" world
      ≡ (err (bad_request "Failed to create organization"), world))
    ⊎ (((Service.find_by_id lists 100 (created lists 100 11 1 "club" world)).0
          ≡ ok (new_organization 100 "club"))
        × (find (is_member 1 100) ((created lists 100 11 1 "club" world).stored.memberships)
            ≡ some (owner_of 11 1 100)))
create_organization-owner_example = create_organization-owner lists 100 11 1 "club" world
