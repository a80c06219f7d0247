-- ===== src/Storage/Tests.antt =====
-- Runs of StorageService at a concrete organization.
use saas_backend_blueprint.Prelude.{
  ◌≢◌, ℕ, ◌≡◌, refl, ◌↔◌, Bool, true, false, [], ◌∷◌, Option, none, some, ok, arith, find,
  if◌then◌else◌,
}
use saas_backend_blueprint.Platform.Table.{list_table}
use saas_backend_blueprint.Storage.Model.{
  FileRequest, StorageKey, File, clash, s3, azure, StorageProvider, pending, free, PlanQuota,
  UploadRequest, same_storage_key,
}
use saas_backend_blueprint.Storage.Repository.{has_id}
use saas_backend_blueprint.Storage.Service
use saas_backend_blueprint.Storage.Service.{get_provider, ObjectStore, Services, ServiceWorld}
use saas_backend_blueprint.Storage.Quota.{
  rows, IsWithin, IsOpened, answer, generate_upload_url-IsOpened, generate_upload_url-IsWithin,
}
use saas_backend_blueprint.Storage.Tenancy.{
  is_ok, is_available, generate_download_url-is_available, confirm_upload-delete_file-other,
}
use saas_backend_blueprint.Storage.Lifecycle.{Call, confirms_upload, IsAfter, step, step-IsAfter}

abbrev is_some : Option ℕ → Bool
is_some none = false
is_some (some n) = true

abbrev without : StorageKey → (StorageKey → Option ℕ) → StorageKey → Option ℕ
without k s j = if same_storage_key k j then none else s j

pub delete_lem : (k : StorageKey) (s : StorageKey → Option ℕ) → some (without k s k) ≡ some none
delete_lem k s = ground arith

abbrev store : ObjectStore
store = record {
  State = StorageKey → Option ℕ;
  size_of = λ k s. s k;
  generate_upload_url = λ k mime seconds. some "https://bucket/put";
  generate_download_url = λ k seconds. some "https://bucket/get";
  object_exists = λ k s. some (is_some (s k));
  get_object_size = λ k s. s k;
  delete_object = λ k s. some (without k s);
  get_object_size_law = λ k s n h. h;
  delete_object_law = λ k s. delete_lem k s;
}

-- Two files of 1 GB in all, each of up to half a GB.
abbrev plan : PlanQuota
plan = record {
  storage_limit_gb = some 1000;
  file_count_limit = some 2;
  max_file_size_gb = some 500;
}

abbrev services : Services
services = record {
  table = list_table clash;
  s3_provider = store;
  azure_provider = store;
  quotas = record { free_plan = plan; pro_plan = plan; enterprise_plan = plan };
  expiration_seconds = 3600;
  default_provider = s3;
}

abbrev file : File
file = record {
  id = 7;
  org_id = 1;
  uploaded_by = 5;
  storage_key = record { org_id = 1; file_id = 7 };
  provider = s3;
  filename = "a.pdf";
  size = none;
  mime_type = some "application/pdf";
  status = pending;
  expires_at = some 900;
  confirmed_at = none;
}

abbrev world : ServiceWorld services
world = record {
  files = file ∷ [];
  s3_objects = λ k. some 1000;
  azure_objects = λ k. none;
  activity = [];
  audit = [];
}

abbrev request : UploadRequest
request = record {
  org_id = 1;
  user_id = 5;
  filename = "b.pdf";
  mime_type = "application/pdf";
  size = 2000;
}

generate_upload_url-IsOpened_example :
    IsOpened services 8 100 request free none world
      (Service.generate_upload_url services 8 100 request free none world)
generate_upload_url-IsOpened_example =
    generate_upload_url-IsOpened services 8 100 request free none world

generate_upload_url-IsWithin_example :
    ((Service.generate_upload_url services 8 100 request free none world).0
      ≡ ok (answer services 8 100 request "https://bucket/put"))
    ↔ IsWithin services 1 2000 free none (file ∷ [])
generate_upload_url-IsWithin_example =
    generate_upload_url-IsWithin services 8 100 request free none world "https://bucket/put" refl
      refl

-- The object of the file has been uploaded, and the file is confirmed in time.
abbrev confirmation : Call
confirmation = confirms_upload 800 (record { file_id = 7; org_id = 1; user_id = 5 })

step-IsAfter_example :
    IsAfter file (find (has_id 7) (rows services (step services confirmation world)))
step-IsAfter_example = step-IsAfter services confirmation world 7 (refl, tt) refl

signs :
    (q : StorageProvider) (k : StorageKey) (seconds : ℕ)
    → (get_provider services q).generate_download_url k seconds ≢ none
signs s3 k seconds = λ e. cc
signs azure k seconds = λ e. cc

abbrev download : FileRequest
download = record { file_id = 7; org_id = 1; user_id = 5 }

generate_download_url-is_available_example :
    is_ok (Service.generate_download_url services 900 download (step services confirmation world)).0
    ≡ is_available download (rows services (step services confirmation world))
generate_download_url-is_available_example =
    generate_download_url-is_available services 900 download (step services confirmation world)
      signs

-- Organization 2 asks for the file of organization 1.
abbrev foreign : FileRequest
foreign = record { file_id = 7; org_id = 2; user_id = 6 }

confirm_upload-delete_file-other_example :
    (find (has_id 7) (rows services (Service.confirm_upload services 800 foreign world).1)
      ≡ some file)
    × (find (has_id 7) (rows services (Service.delete_file services foreign world).1) ≡ some file)
confirm_upload-delete_file-other_example =
    confirm_upload-delete_file-other services 800 foreign world 7 file (refl, tt) refl
      (λ e. omega arith)
