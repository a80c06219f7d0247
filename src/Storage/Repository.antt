-- ===== src/Storage/Repository.antt =====
-- libs/storage/src/infrastructure/repositories/storage.repository.ts.
use saas_backend_blueprint.Prelude.{ℕ, Bool, ◌&&◌, ◌==◌, Option, some}
use saas_backend_blueprint.Platform.Table.{Table}
use saas_backend_blueprint.Members.Model.{Uuid}
use saas_backend_blueprint.Storage.Model.{
  File, StorageUsage, clash, is_completed, completed, expired,
}

abbrev pub has_id : Uuid → File → Bool
has_id id f = f.id == id

abbrev pub has_id_and_org : Uuid → Uuid → File → Bool
has_id_and_org id org f = f.id == id && f.org_id == org

abbrev pub completed_of : Uuid → File → Bool
completed_of org f = f.org_id == org && is_completed f.status

-- The `data` of the updates.
abbrev pub confirmed_file : ℕ → ℕ → File → File
confirmed_file size now f = record f {
  status = completed;
  confirmed_at = some now;
  size = some size;
}

abbrev pub expired_file : File → File
expired_file f = record f { status = expired }

module _ (table : Table File clash) where
  unfoldable pub create_file : File → table.State → Option table.State
  create_file f files = table.create f files

  unfoldable pub find_by_id_and_org : Uuid → Uuid → table.State → Option File
  find_by_id_and_org id org files = table.find_first (has_id_and_org id org) files

  unfoldable pub confirm_upload : Uuid → ℕ → ℕ → table.State → Option table.State
  confirm_upload id size now files = table.update (has_id id) (confirmed_file size now) files

  unfoldable pub mark_expired : Uuid → table.State → Option table.State
  mark_expired id files = table.update (has_id id) expired_file files

  unfoldable pub delete_file : Uuid → table.State → Option table.State
  delete_file id files = table.delete (has_id id) files

  unfoldable pub get_storage_usage : Uuid → table.State → StorageUsage
  get_storage_usage org files = record {
    total_bytes = table.sum_rows (completed_of org) (λ f. f.size) files;
    file_count = table.count_rows (completed_of org) files;
  }
