-- ===== src/Storage/Policy.antt =====
-- libs/storage/src/application/services/upload-policy.service.ts. Sizes are whole bytes, so the
-- maximum, a decimal number of GB, is rounded down; the messages keep their constant part.
use saas_backend_blueprint.Prelude.{
  ℕ, ◌+◌, ◌*◌, ◌/◌, String, Bool, not, ltb, leb, List, [], ◌∷◌, any, Option, none, some,
  bad_request, forbidden, Exception, str_eq, if◌then◌else◌,
}
use saas_backend_blueprint.Platform.Table.{Table}
use saas_backend_blueprint.Members.Model.{Uuid}
use saas_backend_blueprint.Storage.Model.{
  File, PlanType, free, pro, enterprise, PlanQuota, Quotas, UploadPolicy, StorageQuota, clash,
}
use saas_backend_blueprint.Storage.Repository

abbrev pub gigabyte : ℕ
gigabyte = 1073741824

-- `x ?? y`
abbrev pub or_default : Option ℕ → ℕ → ℕ
or_default none y = y
or_default (some x) y = x

-- The `switch` over the plan.
abbrev pub plan_of : Quotas → PlanType → PlanQuota
plan_of q free = q.free_plan
plan_of q pro = q.pro_plan
plan_of q enterprise = q.enterprise_plan

-- The maximum where none is configured: 0.1, 20 and 100 GB.
abbrev pub default_max_file_size_gb : PlanType → ℕ
default_max_file_size_gb free = 100
default_max_file_size_gb pro = 20000
default_max_file_size_gb enterprise = 100000

unfoldable pub max_file_size_bytes : Quotas → PlanType → ℕ
max_file_size_bytes q plan =
    or_default (plan_of q plan).max_file_size_gb (default_max_file_size_gb plan) * gigabyte / 1000

unfoldable pub get_upload_policy : Quotas → PlanType → UploadPolicy
get_upload_policy q plan = record {
  max_file_size_bytes = max_file_size_bytes q plan;
  allowed_mime_types = none;
  forbidden_mime_types = none;
}

-- The limit of the organization, else that of its plan, rounded to whole bytes; none is no limit.
abbrev pub storage_limit : Option ℕ → Option ℕ → Option ℕ
storage_limit (some bytes) _ = some bytes
storage_limit none (some gb) = some ((gb * gigabyte + 500) / 1000)
storage_limit none none = none

-- `types && types.length > 0 && !types.includes(mimeType)`
abbrev pub not_allowed : Option (List String) → String → Bool
not_allowed none mime = Bool.false
not_allowed (some []) mime = Bool.false
not_allowed (some (t ∷ ts)) mime = not (any (str_eq mime) (t ∷ ts))

-- `types && types.length > 0 && types.includes(mimeType)`
abbrev pub is_forbidden : Option (List String) → String → Bool
is_forbidden none mime = Bool.false
is_forbidden (some ts) mime = any (str_eq mime) ts

-- `limit !== null && n >= limit`
abbrev pub reaches : Option ℕ → ℕ → Bool
reaches none n = Bool.false
reaches (some limit) n = leb limit n

-- `limit !== null && n > limit`
abbrev pub exceeds : Option ℕ → ℕ → Bool
exceeds none n = Bool.false
exceeds (some limit) n = ltb limit n

module _ (quotas : Quotas) (table : Table File clash) where
  unfoldable pub get_storage_quota : Uuid → PlanType → Option ℕ → table.State → StorageQuota
  unfolding Repository.get_storage_usage
  get_storage_quota org plan org_storage_limit files =
      let usage = Repository.get_storage_usage table org files in
      record {
        storage_limit_bytes =
            storage_limit org_storage_limit (plan_of quotas plan).storage_limit_gb;
        storage_used_bytes = usage.total_bytes;
        file_count = usage.file_count;
        file_count_limit = (plan_of quotas plan).file_count_limit;
        max_file_size_bytes = max_file_size_bytes quotas plan;
      }

  -- none is that the request passes, else the exception that is thrown.
  unfoldable pub validate_upload_request :
      Uuid → String → ℕ → PlanType → Option ℕ → table.State → Option Exception
  unfolding get_upload_policy get_storage_quota
  validate_upload_request org mime size plan org_storage_limit files =
      let policy = get_upload_policy quotas plan in
      let quota = get_storage_quota org plan org_storage_limit files in
      if ltb policy.max_file_size_bytes size
      then some (bad_request "File size exceeds maximum allowed")
      else if not_allowed policy.allowed_mime_types mime
      then some (bad_request "MIME type is not allowed")
      else if is_forbidden policy.forbidden_mime_types mime
      then some (bad_request "MIME type is forbidden")
      else if reaches quota.file_count_limit quota.file_count
      then some (forbidden "File count limit reached")
      else if exceeds quota.storage_limit_bytes (quota.storage_used_bytes + size)
      then some (forbidden "Storage quota would be exceeded")
      else none
