-- ===== src/OrgDeletion/Tests.antt =====
-- Runs of the deletion at two concrete organizations.
use saas_backend_blueprint.Prelude.{◌≡◌, refl, List, [], ◌∷◌, none, some, ok}
use saas_backend_blueprint.Platform.Table.{list_table}
use saas_backend_blueprint.Platform.EventBus.{local}
use saas_backend_blueprint.Organizations.{active}
use saas_backend_blueprint.Users.{user_clash}
use saas_backend_blueprint.OrgDeletion.Model.{
  Organization, clash, child_clash, user_request, started, completed,
}
use saas_backend_blueprint.OrgDeletion.Repository.{Tables, Rows}
use saas_backend_blueprint.OrgDeletion.Service
use saas_backend_blueprint.OrgDeletion.Worker
use saas_backend_blueprint.OrgDeletion.Worker.{Outside}
use saas_backend_blueprint.OrgDeletion.Requests.{
  organizations, requests, checks, without_checks, run, run-without_checks, Act,
}
use saas_backend_blueprint.OrgDeletion.Steps.{IsErased}
use saas_backend_blueprint.OrgDeletion.Outcomes.{executed}
use saas_backend_blueprint.OrgDeletion.Completion.{execute_deletion-completes}

abbrev lists : Tables
lists = record {
  organizations = list_table clash;
  users = list_table user_clash;
  snapshots = list_table child_clash;
  events = list_table child_clash;
  files = list_table child_clash;
  notifications = list_table child_clash;
  exports = list_table child_clash;
  jobs = list_table child_clash;
  activity = list_table child_clash;
  memberships = list_table child_clash;
}

-- The storage, the mail service, Stripe and the cache do what they are asked.
abbrev obliging : Outside
obliging = record {
  State = Unit {0};
  send_email = λ address org s. some s;
  delete_folder = λ org s. some s;
  terminate_subscription = λ subscription s. s;
  delete_customer = λ customer s. s;
  delete_by_pattern = λ org s. some s;
  publish = λ e s. some s;
}

abbrev club : Organization
club = record {
  id = 100;
  name = "club";
  status = active;
  retention_period_days = none;
  stripe_customer_id = some "cus_1";
  subscription_id = none;
  subscription_period_end = none;
  deletion_requested_at = none;
  deletion_scheduled_at = none;
  deletion_completed_at = none;
}

abbrev guild : Organization
guild = record club { id = 200; name = "guild"; stripe_customer_id = none }

abbrev rows : Rows lists
rows = record {
  organizations = club ∷ guild ∷ [];
  users = [];
  snapshots = [];
  events = record { id = 1; org_id = 100 } ∷ record { id = 2; org_id = 200 } ∷ [];
  files = record { id = 3; org_id = 100 } ∷ [];
  notifications = [];
  exports = [];
  jobs = [];
  activity = [];
  memberships = record { id = 4; org_id = 200 } ∷ [];
}

abbrev world : Service.World (Rows lists) (Unit {0})
world = record { stored = rows; published = []; activity = []; audit = []; bus = tt }

abbrev acts : List Act
acts = checks 1 ∷ requests 100 user_request none 2 ∷ checks 9000000000 ∷ []

run-without_checks_example :
    run lists local 30 acts world ≡ run lists local 30 (without_checks acts) world
run-without_checks_example = run-without_checks lists local 30 acts world refl

abbrev worker_world : Worker.World (Rows lists) (Unit {0})
worker_world = record { stored = rows; outside = tt; published = []; audit = [] }

execute_deletion-completes_example :
    let r = executed lists obliging 100 user_request none 7 worker_world in
    (r.0 ≡ ok tt)
    × (r.1.published ≡ completed 100 user_request ∷ started 100 user_request ∷ [])
    × IsErased lists obliging 100 200 7 rows r.1.stored
execute_deletion-completes_example =
    execute_deletion-completes lists obliging 100 200 user_request none 7 worker_world refl
      (record { folder = λ org s e. cc; pattern = λ org s e. cc; bus = λ e s h. cc }) refl
