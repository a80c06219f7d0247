-- ===== src/Jobs/Model.antt =====
-- The rows of prisma/job.prisma. The JSON of the payload and of the result is a text.
use saas_backend_blueprint.Prelude.{ℕ, String, Bool, ◌&&◌, ◌==◌, Option}
use saas_backend_blueprint.Members.Model.{Uuid}

pub data JobStatus : Type 0 where
  pending processing done failed : JobStatus

pub record Job : Type 0 where
  pub id : Uuid
  pub org_id : Uuid
  pub user_id : Option String
  pub kind : String
  pub status : JobStatus
  pub payload : String
  pub result : Option String
  pub error : Option String
  pub attempts : ℕ
  pub started_at : Option ℕ
  pub finished_at : Option ℕ

abbrev pub job_clash : Job → Job → Bool
job_clash a b = a.id == b.id

abbrev pub has_job_id : Uuid → Job → Bool
has_job_id id j = j.id == id

abbrev pub is_job_of : Uuid → Uuid → Job → Bool
is_job_of id org j = j.id == id && j.org_id == org
