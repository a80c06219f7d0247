-- ===== src/Jobs/Repository.antt =====
-- libs/jobs/src/infrastructure/repositories/job.repository.ts.
use saas_backend_blueprint.Prelude.{ℕ, suc, String, Option, none, some}
use saas_backend_blueprint.Platform.Table.{Table}
use saas_backend_blueprint.Members.Model.{Uuid}
use saas_backend_blueprint.Jobs.Model.{
  Job, job_clash, pending, processing, done, failed, has_job_id, is_job_of,
}

abbrev pub new_job : Uuid → Uuid → String → String → Option String → Job
new_job id org kind payload user = record {
  id = id;
  org_id = org;
  user_id = user;
  kind = kind;
  status = pending;
  payload = payload;
  result = none;
  error = none;
  attempts = 0;
  started_at = none;
  finished_at = none;
}

abbrev pub processing_from : ℕ → Job → Job
processing_from now j = record j {
  status = processing;
  attempts = suc j.attempts;
  started_at = some now;
}

abbrev pub done_with : String → ℕ → Job → Job
done_with result now j = record j { status = done; result = some result; finished_at = some now }

abbrev pub failed_with : String → ℕ → Job → Job
failed_with error now j = record j { status = failed; error = some error; finished_at = some now }

abbrev pub or_kept {ℓ} : {S : Type ℓ} → Option S → S → S
or_kept none s = s
or_kept (some t) s = t

module _ (t : Table Job job_clash) where
  -- None, of this and of the marks, is an error.
  unfoldable pub create : Uuid → Uuid → String → String → Option String → t.State → Option t.State
  create id org kind payload user s = t.create (new_job id org kind payload user) s

  -- The error for a job that is missing is caught.
  unfoldable pub delete : Uuid → t.State → t.State
  delete id s = or_kept (t.delete (has_job_id id) s) s

  unfoldable pub find_by_id_and_org : Uuid → Uuid → t.State → Option Job
  find_by_id_and_org id org s = t.find_first (is_job_of id org) s

  unfoldable pub mark_processing : Uuid → ℕ → t.State → Option t.State
  mark_processing id now s = t.update (has_job_id id) (processing_from now) s

  unfoldable pub mark_done : Uuid → String → ℕ → t.State → Option t.State
  mark_done id result now s = t.update (has_job_id id) (done_with result now) s

  unfoldable pub mark_failed : Uuid → String → ℕ → t.State → Option t.State
  mark_failed id error now s = t.update (has_job_id id) (failed_with error now) s
