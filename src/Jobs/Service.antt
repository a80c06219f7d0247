-- ===== src/Jobs/Service.antt =====
-- libs/jobs/src/application/services/job.service.ts.
use saas_backend_blueprint.Prelude.{
  ℕ, String, List, ◌∷◌, Option, none, some, Method, ◌>>◌, not_found, failure, return, throw,
  or_throw,
}
use saas_backend_blueprint.Platform.Table.{Table}
use saas_backend_blueprint.Members.Model.{Uuid}
use saas_backend_blueprint.Jobs.Model.{Job, job_clash}
use saas_backend_blueprint.Jobs.Repository

-- An entry of the activity log, whose actor is none for the system, or of the legal audit.
pub record Entry : Type 0 where
  pub action : String
  pub org_id : Uuid
  pub actor : Option String
  pub job_id : Uuid

pub record World (S : Type 0) : Type 0 where
  pub jobs : S
  pub activity : List Entry
  pub audit : List Entry

module _ (t : Table Job job_clash) where
  abbrev pub State : Type 0
  State = World t.State

  abbrev pub jobs_in : Option t.State → Method State (Unit {0})
  jobs_in none w = throw (failure "prisma.job") w
  jobs_in (some s) w = return tt (record w { jobs = s })

  -- Where the organization is given.
  abbrev pub log_activity : String → Option Uuid → Option String → Uuid → Method State (Unit {0})
  log_activity action none actor job w = return tt w
  log_activity action (some org) actor job w = return tt (record w {
    activity = record { action = action; org_id = org; actor = actor; job_id = job } ∷ w.activity;
  })

  abbrev pub record_event : String → Option Uuid → Option String → Uuid → Method State (Unit {0})
  record_event action none actor job w = return tt w
  record_event action (some org) actor job w = return tt (record w {
    audit = record { action = action; org_id = org; actor = actor; job_id = job } ∷ w.audit;
  })

  unfoldable pub create : Uuid → Uuid → String → String → Option String → Method State (Unit {0})
  create id org kind payload user w =
      (do
        jobs_in (Repository.create t id org kind payload user w.jobs)
        log_activity "job.created" (some org) user id
        record_event "job.created" (some org) user id)
        w

  unfoldable pub delete : Uuid → State → State
  delete id w = record w { jobs = Repository.delete t id w.jobs }

  unfoldable pub find_by_id_and_org : Uuid → Uuid → Method State Job
  find_by_id_and_org id org w =
      or_throw (Repository.find_by_id_and_org t id org w.jobs) (not_found "Job not found") w

  unfoldable pub mark_processing : Uuid → Option Uuid → Option String → ℕ → Method State (Unit {0})
  mark_processing id org user now w =
      (do
        jobs_in (Repository.mark_processing t id now w.jobs)
        log_activity "job.processing" org user id)
        w

  unfoldable pub mark_done :
      Uuid → String → Option Uuid → Option String → ℕ → Method State (Unit {0})
  mark_done id result org user now w =
      (do
        jobs_in (Repository.mark_done t id result now w.jobs)
        log_activity "job.completed" org user id
        record_event "job.completed" org user id)
        w

  unfoldable pub mark_failed :
      Uuid → String → Option Uuid → Option String → ℕ → Method State (Unit {0})
  mark_failed id error org user now w =
      (do
        jobs_in (Repository.mark_failed t id error now w.jobs)
        log_activity "job.failed" org user id
        record_event "job.failed" org user id)
        w
