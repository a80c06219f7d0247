-- ===== src/Storage/Tenancy.antt =====
-- Which files a request for an organization reaches.
use saas_backend_blueprint.Prelude.{
  ℕ, ◌≡◌, ◌≢◌, inl, inr, Bool, true, false, List, none, some, Result, ok, err, arith, find,
  find_sound, find-update_where, Option-cases, Bool-cases, ◌==◌, ==→≡,
}
use saas_backend_blueprint.Members.Model.{Uuid}
use saas_backend_blueprint.Storage.Model.{
  StorageKey, StorageProvider, File, FileRequest, is_completed,
}
use saas_backend_blueprint.Storage.Repository
use saas_backend_blueprint.Storage.Repository.{has_id, has_id_and_org}
use saas_backend_blueprint.Storage.Service
use saas_backend_blueprint.Storage.Service.{Services, ServiceWorld, get_provider}
use saas_backend_blueprint.Storage.Lifecycle.{
  Keyed, find_by_id, find-delete_where_id, Settled, unchanged, changed, confirm_upload-Settled,
  rows,
}

abbrev pub is_ok : {A : Type 0} → Result A → Bool
is_ok (ok a) = true
is_ok (err x) = false

-- The file is of the organization, and completed.
abbrev pub is_available : FileRequest → List File → Bool
is_available r files = elim (find (has_id_and_org r.file_id r.org_id) files) [
  | none ↦ false
  | some f ↦ is_completed f.status
]

-- A file that is found by its id is not the one of another organization that is found by its own.
differ-org :
    (id other org : Uuid) (fs : List File) {f g : File}
    → Keyed fs
    → find (has_id id) fs ≡ some f
    → find (has_id_and_org other org) fs ≡ some g
    → f.org_id ≢ org
    → (id == other) ≡ false
differ-org id other org fs {f} {g} k e e' ne = elim (Bool-cases (id == other)) [
  | inr differs ↦ differs
  | inl same ↦ absurd (
      ne (
        ground (
          arith,
          ==→≡ id other same,
          find_by_id other org fs {g = g} k e',
          e,
          find_sound (has_id_and_org other org) fs {a = g} e',
        )))
]

module _ (p : Services) where
  -- Where the providers sign every URL, a request for a download is answered exactly for a completed
  -- file of the organization that it is made for.
  pub generate_download_url-is_available :
      (now : ℕ) (r : FileRequest) (w : ServiceWorld p)
      → ((q : StorageProvider) (k : StorageKey) (seconds : ℕ)
          → (get_provider p q).generate_download_url k seconds ≢ none)
      → is_ok (Service.generate_download_url p now r w).0 ≡ is_available r (rows p w)
  unfolding Service.generate_download_url Service.get_file Repository.find_by_id_and_org
  generate_download_url-is_available now r w signs =
      elim (Option-cases (find (has_id_and_org r.file_id r.org_id) (rows p w))) [
        | inl e ↦
            ground (arith, e, p.table.find_first_law (has_id_and_org r.file_id r.org_id) w.files)
        | inr (f, e) ↦ ground (
          arith,
          e,
          signs f.provider f.storage_key p.expiration_seconds,
          p.table.find_first_law (has_id_and_org r.file_id r.org_id) w.files,
        )
      ]

  Settled-other :
      (now : ℕ) (r : FileRequest) (w : ServiceWorld p) (id : Uuid) {f : File} {after : List File}
      → Settled p now r w after
      → Keyed (rows p w)
      → find (has_id id) (rows p w) ≡ some f
      → f.org_id ≢ r.org_id
      → find (has_id id) after ≡ some f
  Settled-other now r w id {f} (unchanged same) k e ne = ground (arith, same, e)
  Settled-other now r w id {f} (changed change g keeps e' m same) k e ne = ground (
    arith,
    same,
    e,
    differ-org id r.file_id r.org_id (rows p w) {f = f} {g = g} k e e' ne,
    find-update_where (λ h. h.id) id r.file_id change (rows p w) keeps,
  )

  -- Where the ids of the files are unique, neither a confirmation nor a deletion for one organization
  -- touches the files of another.
  pub confirm_upload-delete_file-other :
      (now : ℕ) (r : FileRequest) (w : ServiceWorld p) (id : Uuid) (f : File)
      → Keyed (rows p w)
      → find (has_id id) (rows p w) ≡ some f
      → f.org_id ≢ r.org_id
      → (find (has_id id) (rows p (Service.confirm_upload p now r w).1) ≡ some f)
        × (find (has_id id) (rows p (Service.delete_file p r w).1) ≡ some f)
  unfolding Service.delete_file Service.get_file Repository.find_by_id_and_org
      Repository.delete_file
  confirm_upload-delete_file-other now r w id f k e ne =
      let found = p.table.find_first_law (has_id_and_org r.file_id r.org_id) w.files in
      (
        Settled-other now r w id {f = f} (confirm_upload-Settled p now r w k) k e ne,
        elim (Option-cases (find (has_id_and_org r.file_id r.org_id) (rows p w))) [
          | inl missing ↦ ground (arith, e, missing, found)
          | inr (g, e') ↦ ground (
            arith,
            e,
            e',
            found,
            differ-org id r.file_id r.org_id (rows p w) {f = f} {g = g} k e e' ne,
            p.table.delete_law (has_id r.file_id) w.files,
            find-delete_where_id id r.file_id (rows p w),
          )
        ],
      )
