-- ===== src/Storage/Lifecycle.antt =====
-- The life of a file: how the calls of StorageService change its status.
use saas_backend_blueprint.Prelude.{
  ℕ, ◌≡◌, refl, true, false, List, [], ◌∷◌, Option, none, some, arith, any, Result-cases, find,
  update_where, delete_where, Option-cases, inl, inr, find-append, find-update_where, Bool-cases,
  ==→≡, ◌==◌, subst, sym, if◌then◌else◌,
}
use saas_backend_blueprint.Members.Model.{Uuid}
use saas_backend_blueprint.Storage.Model.{
  File, FileStatus, pending, completed, expired, aborted, is_pending, PlanType, UploadRequest,
  FileRequest,
}
use saas_backend_blueprint.Storage.Quota.{generate_upload_url-IsOpened, opened_file}
use saas_backend_blueprint.Storage.Repository
use saas_backend_blueprint.Storage.Repository.{has_id, has_id_and_org, confirmed_file, expired_file}
use saas_backend_blueprint.Storage.Service
use saas_backend_blueprint.Storage.Service.{Services, ServiceWorld, is_past}

-- A file is confirmed or expires once, from PENDING, and COMPLETED and EXPIRED are final.
pub data Moves : FileStatus → FileStatus → Type 0 where
  stays : {s : FileStatus} → Moves s s
  confirms : Moves pending completed
  expires : Moves pending expired

pub data Call : Type 0 where
  uploads : Uuid → ℕ → UploadRequest → PlanType → Option ℕ → Call
  confirms_upload : ℕ → FileRequest → Call
  downloads : ℕ → FileRequest → Call
  deletes : FileRequest → Call

-- Where a file of the table is afterwards: gone, or the same file of the same organization, moved.
abbrev pub IsAfter : File → Option File → Type 0
IsAfter f none = Unit {0}
IsAfter f (some g) =
    (g.org_id ≡ f.org_id) × (g.storage_key ≡ f.storage_key) × Moves f.status g.status

-- No two rows have one id.
abbrev pub Keyed : List File → Type 0
Keyed [] = Unit {0}
Keyed (f ∷ fs) = (any (has_id f.id) fs ≡ false) × Keyed fs

any-find :
    (id org : Uuid) (fs : List File) {g : File}
    → find (has_id_and_org id org) fs ≡ some g
    → any (has_id id) fs ≡ true
any-find id org [] h = cc
any-find id org (f ∷ fs) {g} h = ground (arith, any-find id org fs {g = g})

pub find_by_id :
    (id org : Uuid) (fs : List File) {g : File}
    → Keyed fs
    → find (has_id_and_org id org) fs ≡ some g
    → find (has_id id) fs ≡ some g
find_by_id id org [] k h = cc
find_by_id id org (f ∷ fs) {g} (new, k) h =
    ground (arith, any-find id org fs {g = g}, find_by_id id org fs {g = g} k)

pub find-delete_where_id :
    (id other : Uuid) (fs : List File)
    → find (has_id id) (delete_where (has_id other) fs)
      ≡ (if id == other then none else find (has_id id) fs)
find-delete_where_id id other [] = ground arith
find-delete_where_id id other (f ∷ fs) = ground (arith, find-delete_where_id id other fs)

-- A file that is found again unchanged.
same-IsAfter : {o : Option File} (f : File) → o ≡ some f → IsAfter f o
same-IsAfter f e = subst (IsAfter f) (sym e) (refl, refl, stays)

-- A file that is found again after the change of one of its organization.
changed-IsAfter :
    (id other org : Uuid) (change : File → File) (fs : List File) {f g : File}
    → ((h : File) → (change h).id ≡ h.id)
    → Keyed fs
    → find (has_id id) fs ≡ some f
    → find (has_id_and_org other org) fs ≡ some g
    → IsAfter g (some (change g))
    → IsAfter f (find (has_id id) (update_where (has_id other) change fs))
changed-IsAfter id other org change fs {f} {g} keeps k e e' m = elim (Bool-cases (id == other)) [
  | inl same ↦
      let e'' : f ≡ g = ground (arith, ==→≡ id other same, find_by_id other org fs {g = g} k e') in
      let found : find (has_id id) (update_where (has_id other) change fs) ≡ some (change g) =
        ground (arith, find-update_where (λ f. f.id) id other change fs keeps, e'', e, same) in
      subst (IsAfter f) (sym found) (subst (λ (h : File). IsAfter h (some (change g))) (sym e'') m)
  | inr differs ↦
      same-IsAfter f
        (ground (arith, find-update_where (λ f. f.id) id other change fs keeps, differs, e))
]

deleted-IsAfter :
    (id other : Uuid) (fs : List File) {f : File}
    → find (has_id id) fs ≡ some f
    → IsAfter f (find (has_id id) (delete_where (has_id other) fs))
deleted-IsAfter id other fs {f} e = elim (Bool-cases (id == other)) [
  | inl same ↦
      let gone : find (has_id id) (delete_where (has_id other) fs) ≡ none =
        ground (arith, find-delete_where_id id other fs, same) in
      subst (IsAfter f) (sym gone) tt
  | inr differs ↦ same-IsAfter f (ground (arith, find-delete_where_id id other fs, differs, e))
]

module _ (p : Services) where
  abbrev pub rows : ServiceWorld p → List File
  rows w = p.table.rows w.files

  unfoldable pub step : Call → ServiceWorld p → ServiceWorld p
  step (uploads id now r plan limit) w = (Service.generate_upload_url p id now r plan limit w).1
  step (confirms_upload now r) w = (Service.confirm_upload p now r w).1
  step (downloads now r) w = (Service.generate_download_url p now r w).1
  step (deletes r) w = (Service.delete_file p r w).1

  -- What a confirmation does to the table.
  pub data Settled (now : ℕ) (r : FileRequest) (w : ServiceWorld p) (after : List File)
      : Type 0 where
    unchanged : after ≡ rows w → Settled now r w after
    changed :
        (change : File → File) (f : File)
        → ((g : File) → (change g).id ≡ g.id)
        → find (has_id_and_org r.file_id r.org_id) (rows w) ≡ some f
        → IsAfter f (some (change f))
        → after ≡ update_where (has_id r.file_id) change (rows w)
        → Settled now r w after

  pending_lem : (s : FileStatus) → is_pending s ≡ true → s ≡ pending
  pending_lem pending h = refl
  pending_lem completed h = cc
  pending_lem expired h = cc
  pending_lem aborted h = cc

  pub confirm_upload-Settled :
      (now : ℕ) (r : FileRequest) (w : ServiceWorld p)
      → Keyed (rows w)
      → Settled now r w (rows (Service.confirm_upload p now r w).1)
  unfolding Service.confirm_upload Service.get_file Repository.mark_expired
      Repository.find_by_id_and_org Repository.confirm_upload
  confirm_upload-Settled now r w k =
      let found = p.table.find_first_law (has_id_and_org r.file_id r.org_id) w.files in
      elim (Option-cases (find (has_id_and_org r.file_id r.org_id) (rows w))) [
        | inl e ↦ unchanged (ground (arith, e, found))
        | inr (f, e) ↦ elim (Bool-cases (is_pending f.status)) [
          | inr closed ↦ unchanged (ground (arith, e, found, closed))
          | inl is_open ↦
              let e' = find_by_id r.file_id r.org_id (rows w) {g = f} k e in
              elim (Bool-cases (is_past f.expires_at now)) [
                | inl past ↦
                    changed expired_file f (λ g. refl) e
                      (
                        refl,
                        refl,
                        subst (λ s. Moves s expired) (sym (pending_lem f.status is_open)) expires,
                      )
                      (ground (
                        arith,
                        e,
                        found,
                        is_open,
                        past,
                        e',
                        p.table.update_law (has_id r.file_id) expired_file w.files,
                      ))
                | inr in_time ↦
                    elim (Option-cases (Service.get_object_size p f.provider f.storage_key w)) [
                      | inl unsized ↦
                          unchanged (ground (arith, e, found, is_open, in_time, unsized))
                      | inr (n, sized) ↦
                          elim (Option-cases (Service.object_exists p f.provider f.storage_key w)) [
                            | inl fails ↦
                                unchanged (ground (arith, e, found, is_open, in_time, sized, fails))
                            | inr (false, gone) ↦
                                unchanged (ground (arith, e, found, is_open, in_time, sized, gone))
                            | inr (true, there) ↦
                                changed (confirmed_file n now) f (λ g. refl) e
                                  (
                                    refl,
                                    refl,
                                    subst (λ s. Moves s completed)
                                        (sym (pending_lem f.status is_open)) confirms,
                                  )
                                  (ground (
                                    arith,
                                    e,
                                    found,
                                    is_open,
                                    in_time,
                                    sized,
                                    there,
                                    e',
                                    p.table.update_law (has_id r.file_id) (confirmed_file n now)
                                        w.files,
                                  ))
                          ]
                    ]
              ]
        ]
      ]

  Settled-IsAfter :
      (now : ℕ) (r : FileRequest) (w : ServiceWorld p) (id : Uuid) {f : File} {after : List File}
      → Settled now r w after
      → Keyed (rows w)
      → find (has_id id) (rows w) ≡ some f
      → IsAfter f (find (has_id id) after)
  Settled-IsAfter now r w id {f} (unchanged same) k e = same-IsAfter f (ground (arith, same, e))
  Settled-IsAfter now r w id {f} (changed change g keeps e' m same) k e =
      subst (λ fs. IsAfter f (find (has_id id) fs)) (sym same)
        (changed-IsAfter id r.file_id r.org_id change (rows w) {g = g} keeps k e e' m)

  -- Where the ids of the files are unique, the life of a file under any upload, confirmation, download
  -- or deletion: afterwards it is gone,
  -- or is found with its organization and its storage key, in the state it had, or confirmed or
  -- expired from PENDING.
  pub step-IsAfter :
      (c : Call) (w : ServiceWorld p) (id : Uuid) {f : File}
      → Keyed (rows w)
      → find (has_id id) (rows w) ≡ some f
      → IsAfter f (find (has_id id) (rows (step c w)))
  unfolding step Service.generate_download_url Service.get_file Service.delete_file
      Repository.delete_file
  step-IsAfter (uploads new now r plan limit) w id {f} k e =
      elim (Result-cases (Service.generate_upload_url p new now r plan limit w).0) [
        | inl (x, h) ↦
            same-IsAfter f
              (ground (arith, e, h, generate_upload_url-IsOpened p new now r plan limit w))
        | inr (u, h) ↦ same-IsAfter f (
            ground (
              arith,
              e,
              h,
              generate_upload_url-IsOpened p new now r plan limit w,
              find-append (has_id id) (rows w) (opened_file p new now r ∷ []),
            ))
      ]
  step-IsAfter (confirms_upload now r) w id {f} k e =
      Settled-IsAfter now r w id {f = f} (confirm_upload-Settled now r w k) k e
  step-IsAfter (downloads now r) w id {f} k e = same-IsAfter f (ground (arith, e))
  step-IsAfter (deletes r) w id {f} k e =
      let found = p.table.find_first_law (has_id_and_org r.file_id r.org_id) w.files in
      elim (Option-cases (find (has_id_and_org r.file_id r.org_id) (rows w))) [
        | inl missing ↦ same-IsAfter f (ground (arith, e, missing, found))
        | inr (g, e') ↦
            let same : rows (step (deletes r) w) ≡ delete_where (has_id r.file_id) (rows w) =
              ground (
                arith,
                e',
                found,
                find_by_id r.file_id r.org_id (rows w) {g = g} k e',
                p.table.delete_law (has_id r.file_id) w.files,
              ) in
            subst (λ fs. IsAfter f (find (has_id id) fs)) (sym same)
              (deleted-IsAfter id r.file_id (rows w) e)
      ]
