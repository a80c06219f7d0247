-- ===== src/Jobs/Tests.antt =====
-- A run of the job service.
use mathlib.Core.Option
use saas_backend_blueprint.Prelude.{◌+◌, ◌≡◌, true, List, [], ◌∷◌, none, some, count}
use saas_backend_blueprint.Platform.Table.{list_table}
use saas_backend_blueprint.Jobs.Model.{job_clash}
use saas_backend_blueprint.Jobs.Repository.{new_job}
use saas_backend_blueprint.Jobs.Service.{State}
use saas_backend_blueprint.Jobs.History.{Mark, marked_all, is_attempt, run, job, run-job}

abbrev world : State (list_table job_clash)
world = record {
  jobs = new_job 1 100 "heavy_job" "{}" none ∷ new_job 2 200 "heavy_job" "{}" none ∷ [];
  activity = [];
  audit = [];
}

-- The first job is tried twice.
abbrev marks : List Mark
marks =
    record { job_id = 1; org_id = some 100; user_id = none; now = 5; outcome = none }
    ∷ record { job_id = 1; org_id = some 100; user_id = none; now = 7; outcome = none }
    ∷ record { job_id = 1; org_id = none; user_id = none; now = 9; outcome = some (true, "{}") }
    ∷ []

run-job_example :
    (job (list_table job_clash) 1 (run (list_table job_clash) marks world)
      ≡ Option.map (marked_all 1 marks) (job (list_table job_clash) 1 world))
    × (Option.map
          (λ j. j.attempts)
          (job (list_table job_clash) 1 (run (list_table job_clash) marks world))
        ≡ Option.map
            (λ j. j.attempts + count (is_attempt 1) marks)
            (job (list_table job_clash) 1 world))
run-job_example = run-job (list_table job_clash) 1 marks world
