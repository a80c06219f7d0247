-- ===== src/Storage/Quota.antt =====
-- The limits that an upload request is held to, and what an accepted one leaves.
use saas_backend_blueprint.Prelude.{
  ℕ, ◌+◌, ◌*◌, ◌≤◌, ◌<◌, String, ◌≡◌, ◌↔◌, false, List, [], ◌∷◌, ◌++◌, Option, none, some, ok, err,
  Result, arith, any, count, sum_of, Option-cases, inl, inr,
}
use saas_backend_blueprint.Members.Model.{Uuid}
use saas_backend_blueprint.Storage.Model.{File, PlanType, UploadRequest, clash}
use saas_backend_blueprint.Storage.Repository
use saas_backend_blueprint.Storage.Repository.{completed_of}
use saas_backend_blueprint.Storage.Policy
use saas_backend_blueprint.Storage.Policy.{
  max_file_size_bytes, plan_of, storage_limit, reaches, exceeds,
}
use saas_backend_blueprint.Storage.Service
use saas_backend_blueprint.Storage.Service.{
  Services, ServiceWorld, new_file, get_provider, UploadUrl, generate_storage_key,
}

-- No limit, or below it.
abbrev pub IsBelow : ℕ → Option ℕ → Type 0
IsBelow n none = Unit {0}
IsBelow n (some limit) = n < limit

abbrev pub IsUpTo : ℕ → Option ℕ → Type 0
IsUpTo n none = Unit {0}
IsUpTo n (some limit) = n ≤ limit

reaches-IsBelow : (limit : Option ℕ) (n : ℕ) → (reaches limit n ≡ false) ↔ IsBelow n limit
reaches-IsBelow none n = ground arith
reaches-IsBelow (some l) n = ground arith

exceeds-IsUpTo : (limit : Option ℕ) (n : ℕ) → (exceeds limit n ≡ false) ↔ IsUpTo n limit
exceeds-IsUpTo none n = ground arith
exceeds-IsUpTo (some l) n = ground arith

module _ (p : Services) where
  abbrev pub rows : ServiceWorld p → List File
  rows w = p.table.rows w.files

  -- The size is up to the plan's maximum, the organization has fewer completed files than the plan
  -- allows, and their sizes with the new one stay up to the organization's limit or the plan's.
  abbrev pub IsWithin : Uuid → ℕ → PlanType → Option ℕ → List File → Type 0
  IsWithin org size plan org_limit files =
      (size ≤ max_file_size_bytes p.quotas plan)
      × IsBelow (count (completed_of org) files) (plan_of p.quotas plan).file_count_limit
      × IsUpTo (sum_of (completed_of org) (λ f. f.size) files + size)
          (storage_limit org_limit (plan_of p.quotas plan).storage_limit_gb)

  abbrev pub opened_file : Uuid → ℕ → UploadRequest → File
  opened_file id now r = new_file id r p.default_provider (now + p.expiration_seconds * 1000)

  abbrev pub answer : Uuid → ℕ → UploadRequest → String → UploadUrl
  answer id now r url = record {
    file_id = id;
    upload_url = url;
    storage_key = generate_storage_key r.org_id id;
    expires_at = now + p.expiration_seconds * 1000;
  }

  abbrev pub IsOpened :
      Uuid
      → ℕ
      → UploadRequest
      → PlanType
      → Option ℕ
      → ServiceWorld p
      → Result UploadUrl × ServiceWorld p
      → Type 0
  IsOpened id now r plan org_limit w (ok u, after) =
      IsWithin r.org_id r.size plan org_limit (rows w)
      × (rows after ≡ rows w ++ opened_file id now r ∷ [])
  IsOpened id now r plan org_limit w (err e, after) = rows after ≡ rows w

  -- An upload request passes validation exactly when it is within the limits of the plan and of the
  -- organization.
  pub validate_upload_request-IsWithin :
      (org : Uuid) (mime : String) (size : ℕ) (plan : PlanType) (org_limit : Option ℕ)
      (w : ServiceWorld p)
      → (Policy.validate_upload_request p.quotas p.table org mime size plan org_limit w.files
          ≡ none)
        ↔ IsWithin org size plan org_limit (rows w)
  unfolding Policy.validate_upload_request Policy.get_upload_policy Policy.get_storage_quota
      Repository.get_storage_usage
  validate_upload_request-IsWithin org mime size plan org_limit w = ground (
    arith,
    p.table.sum_rows_law (completed_of org) (λ f. f.size) w.files,
    p.table.count_rows_law (completed_of org) w.files,
    reaches-IsBelow (plan_of p.quotas plan).file_count_limit (count (completed_of org) (rows w)),
    exceeds-IsUpTo (storage_limit org_limit (plan_of p.quotas plan).storage_limit_gb)
        (sum_of (completed_of org) (λ f. f.size) (rows w) + size),
  )

  -- A request that is answered was within the limits, and its file is the one row that is added; one
  -- that throws leaves the files as they were.
  pub generate_upload_url-IsOpened :
      (id : Uuid) (now : ℕ) (r : UploadRequest) (plan : PlanType) (org_limit : Option ℕ)
      (w : ServiceWorld p)
      → IsOpened id now r plan org_limit w (Service.generate_upload_url p id now r plan org_limit w)
  unfolding Service.generate_upload_url Repository.create_file
  generate_upload_url-IsOpened id now r plan org_limit w =
      elim (Option-cases (
        Policy.validate_upload_request p.quotas p.table r.org_id r.mime_type r.size plan org_limit
          w.files)) [
            | inr (e, h) ↦ ground (arith, h)
            | inl h ↦ ground (
              arith,
              h,
              validate_upload_request-IsWithin r.org_id r.mime_type r.size plan org_limit w,
              p.table.create_law (opened_file id now r) w.files,
            )
          ]

  -- Where the provider signs a URL and no file has the id or the storage key, a request is answered
  -- exactly when it is within the limits.
  pub generate_upload_url-IsWithin :
      (id : Uuid) (now : ℕ) (r : UploadRequest) (plan : PlanType) (org_limit : Option ℕ)
      (w : ServiceWorld p) (url : String)
      → (get_provider p p.default_provider).generate_upload_url
          (generate_storage_key r.org_id id)
          r.mime_type
          p.expiration_seconds
        ≡ some url
      → any (clash (opened_file id now r)) (rows w) ≡ false
      → ((Service.generate_upload_url p id now r plan org_limit w).0 ≡ ok (answer id now r url))
        ↔ IsWithin r.org_id r.size plan org_limit (rows w)
  unfolding Service.generate_upload_url Repository.create_file
  generate_upload_url-IsWithin id now r plan org_limit w url signed new =
      elim (Option-cases (
        Policy.validate_upload_request p.quotas p.table r.org_id r.mime_type r.size plan org_limit
          w.files)) [
            | inr (e, h) ↦ ground (
              arith,
              h,
              validate_upload_request-IsWithin r.org_id r.mime_type r.size plan org_limit w,
            )
            | inl h ↦ ground (
              arith,
              h,
              validate_upload_request-IsWithin r.org_id r.mime_type r.size plan org_limit w,
              p.table.create_law (opened_file id now r) w.files,
            )
          ]
