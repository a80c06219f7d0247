-- ===== src/Storage/Service.antt =====
-- libs/storage/src/application/services/storage.service.ts. The two object stores, the SDKs of S3
-- and Azure behind libs/storage/src/domain/entities/storage-provider.interface.ts, are parameters.
use saas_backend_blueprint.Prelude.{
  ℕ, ◌+◌, ◌*◌, String, ◌≡◌, Bool, true, false, ltb, List, ◌∷◌, Option, none, some, bad_request,
  forbidden, not_found, failure, Exception, Method, ◌>>=◌, ◌>>◌, return, throw, modify, or_throw,
  throw_if, not, if◌then◌else◌,
}
use mathlib.Core.Option
use saas_backend_blueprint.Platform.Table.{Table}
use saas_backend_blueprint.Members.Model.{Uuid}
use saas_backend_blueprint.Storage.Model.{
  StorageProvider, s3, azure, StorageKey, File, PlanType, Quotas, UploadRequest, FileRequest,
  FileEvent, clash, is_pending, is_completed, pending,
}
use saas_backend_blueprint.Storage.Repository
use saas_backend_blueprint.Storage.Policy

-- `IStorageProvider`; none is a call that rejects. `size_of` is the content of the store, which no
-- code reads.
pub record ObjectStore : Type 1 where
  pub State : Type 0
  pub size_of : StorageKey → State → Option ℕ
  pub generate_upload_url : StorageKey → String → ℕ → Option String
  pub generate_download_url : StorageKey → ℕ → Option String
  pub object_exists : StorageKey → State → Option Bool
  pub get_object_size : StorageKey → State → Option ℕ
  pub delete_object : StorageKey → State → Option State
  pub get_object_size_law :
      (k : StorageKey) (s : State) (n : ℕ) → get_object_size k s ≡ some n → size_of k s ≡ some n
  pub delete_object_law :
      (k : StorageKey) (s : State)
      → Option.map (size_of k) (delete_object k s) ≡ Option.map (λ _. none) (delete_object k s)

-- What the constructor is given; `expiration_seconds` and `default_provider` are configuration.
pub record Services : Type 1 where
  pub table : Table File clash
  pub s3_provider : ObjectStore
  pub azure_provider : ObjectStore
  pub quotas : Quotas
  pub expiration_seconds : ℕ
  pub default_provider : StorageProvider

pub record World (Files S3 Azure : Type 0) : Type 0 where
  pub files : Files
  pub s3_objects : S3
  pub azure_objects : Azure
  pub activity : List FileEvent
  pub audit : List FileEvent

pub record UploadUrl : Type 0 where
  pub file_id : Uuid
  pub upload_url : String
  pub storage_key : StorageKey
  pub expires_at : ℕ

pub record DownloadUrl : Type 0 where
  pub download_url : String
  pub expires_at : ℕ
  pub filename : String
  pub mime_type : Option String
  pub size : Option ℕ

abbrev pub generate_storage_key : Uuid → Uuid → StorageKey
generate_storage_key org file = record { org_id = org; file_id = file }

-- A query that fails throws Prisma's error.
abbrev pub stored_in : {F S A X : Type 0} → Option F → X → String → Method (World F S A) X
stored_in none x code w = throw (failure code) w
stored_in (some fs) x code w = return x (record w { files = fs })

-- `if (error) throw error;`
abbrev pub raise : {S : Type 0} → Option Exception → Method S (Unit {0})
raise none = return tt
raise (some e) = throw e

-- `file.expiresAt && file.expiresAt < new Date()`
abbrev pub is_past : Option ℕ → ℕ → Bool
is_past none now = false
is_past (some t) now = ltb t now

-- The row that `createFile` writes.
abbrev pub new_file : Uuid → UploadRequest → StorageProvider → ℕ → File
new_file id r provider expires = record {
  id = id;
  org_id = r.org_id;
  uploaded_by = r.user_id;
  storage_key = generate_storage_key r.org_id id;
  provider = provider;
  filename = r.filename;
  size = none;
  mime_type = some r.mime_type;
  status = pending;
  expires_at = some expires;
  confirmed_at = none;
}

abbrev pub activity_of : String → Uuid → Uuid → Uuid → String → FileEvent
activity_of action org user file filename = record {
  action = action;
  org_id = org;
  actor_id = some user;
  file_id = file;
  filename = filename;
}

abbrev pub event_of : String → Uuid → Uuid → String → FileEvent
event_of action org file filename = record {
  action = action;
  org_id = org;
  actor_id = none;
  file_id = file;
  filename = filename;
}

module _ (p : Services) where
  abbrev pub ServiceWorld : Type 0
  ServiceWorld = World p.table.State p.s3_provider.State p.azure_provider.State

  abbrev pub get_provider : StorageProvider → ObjectStore
  get_provider s3 = p.s3_provider
  get_provider azure = p.azure_provider

  -- The objects that a provider keeps.
  abbrev pub object_exists : StorageProvider → StorageKey → ServiceWorld → Option Bool
  object_exists s3 key w = p.s3_provider.object_exists key w.s3_objects
  object_exists azure key w = p.azure_provider.object_exists key w.azure_objects

  abbrev pub get_object_size : StorageProvider → StorageKey → ServiceWorld → Option ℕ
  get_object_size s3 key w = p.s3_provider.get_object_size key w.s3_objects
  get_object_size azure key w = p.azure_provider.get_object_size key w.azure_objects

  -- The state after a call that may have failed.
  abbrev or_kept : {S : Type 0} → Option S → S → S
  or_kept none s = s
  or_kept (some t) s = t

  -- `try { await provider.deleteObject(key); } catch { … }`
  abbrev pub try_delete_object : StorageProvider → StorageKey → ServiceWorld → ServiceWorld
  try_delete_object s3 key w = record w {
    s3_objects = or_kept (p.s3_provider.delete_object key w.s3_objects) w.s3_objects;
  }
  try_delete_object azure key w = record w {
    azure_objects = or_kept (p.azure_provider.delete_object key w.azure_objects) w.azure_objects;
  }

  abbrev pub log_activity : FileEvent → Method ServiceWorld (Unit {0})
  log_activity e = modify (λ w. record w { activity = e ∷ w.activity })

  abbrev pub record_event : FileEvent → Method ServiceWorld (Unit {0})
  record_event e = modify (λ w. record w { audit = e ∷ w.audit })

  unfoldable pub get_file : Uuid → Uuid → Method ServiceWorld File
  unfolding Repository.find_by_id_and_org
  get_file id org w =
      or_throw (Repository.find_by_id_and_org p.table id org w.files) (not_found "File not found") w

  -- `id` is the one that `randomUUID` draws, `now` the clock in milliseconds.
  unfoldable pub generate_upload_url :
      Uuid → ℕ → UploadRequest → PlanType → Option ℕ → Method ServiceWorld UploadUrl
  generate_upload_url id now r plan org_storage_limit w =
      let key = generate_storage_key r.org_id id in
      let expires = now + p.expiration_seconds * 1000 in
      let file = new_file id r p.default_provider expires in
      (do
        raise (
            Policy.validate_upload_request p.quotas p.table r.org_id r.mime_type r.size plan
              org_storage_limit w.files)
        url ←
            or_throw
              ((get_provider p.default_provider).generate_upload_url key r.mime_type
                p.expiration_seconds)
              (failure "generateUploadUrl")
        stored_in (Repository.create_file p.table file w.files) tt "P2002"
        log_activity (activity_of "file.upload.requested" r.org_id r.user_id id r.filename)
        record_event (event_of "file.upload.requested" r.org_id id r.filename)
        return (record { file_id = id; upload_url = url; storage_key = key; expires_at = expires }))
        w

  -- `if (…) { await markExpired(fileId); throw … }`
  abbrev pub expire_if : Bool → Uuid → Method ServiceWorld (Unit {0})
  expire_if false id w = return tt w
  expire_if true id w =
      (do
        stored_in (Repository.mark_expired p.table id w.files) tt "P2025"
        throw (bad_request "File upload session has expired"))
        w

  unfoldable pub confirm_upload : ℕ → FileRequest → Method ServiceWorld (Unit {0})
  unfolding get_file
  confirm_upload now r w =
      (do
        file ← get_file r.file_id r.org_id
        throw_if (not (is_pending file.status)) (bad_request "File is not in PENDING state")
        expire_if (is_past file.expires_at now) r.file_id
        exists ← or_throw (object_exists file.provider file.storage_key w) (failure "objectExists")
        throw_if (not exists) (bad_request "File has not been uploaded to storage")
        size ← or_throw (get_object_size file.provider file.storage_key w) (failure "getObjectSize")
        stored_in (Repository.confirm_upload p.table r.file_id size now w.files) tt "P2025"
        log_activity
            (activity_of "file.upload.confirmed" r.org_id r.user_id r.file_id file.filename)
        record_event (event_of "file.upload.confirmed" r.org_id r.file_id file.filename))
        w

  unfoldable pub generate_download_url : ℕ → FileRequest → Method ServiceWorld DownloadUrl
  unfolding get_file
  generate_download_url now r = do
    file ← get_file r.file_id r.org_id
    throw_if (not (is_completed file.status)) (forbidden "File is not available for download")
    url ←
        or_throw
          ((get_provider file.provider).generate_download_url file.storage_key p.expiration_seconds)
          (failure "generateDownloadUrl")
    log_activity (activity_of "file.download.requested" r.org_id r.user_id r.file_id file.filename)
    return (record {
      download_url = url;
      expires_at = now + p.expiration_seconds * 1000;
      filename = file.filename;
      mime_type = file.mime_type;
      size = file.size;
    })

  -- The object of a completed file is deleted; a failure of the store is only logged.
  abbrev pub without_object : File → ServiceWorld → ServiceWorld
  without_object file w =
      if is_completed file.status then try_delete_object file.provider file.storage_key w else w

  unfoldable pub delete_file : FileRequest → Method ServiceWorld (Unit {0})
  unfolding get_file
  delete_file r w =
      (do
        file ← get_file r.file_id r.org_id
        modify (without_object file)
        stored_in (Repository.delete_file p.table r.file_id w.files) tt "P2025"
        log_activity (activity_of "file.deleted" r.org_id r.user_id r.file_id file.filename)
        record_event (event_of "file.deleted" r.org_id r.file_id file.filename))
        w
