-- ===== src/OrgDeletion/Erasure.antt =====
-- The rows that a deletion erases: `deleteDatabaseRecords` of
-- libs/org-deletion/src/infrastructure/repositories/org-deletion.repository.ts.
use saas_backend_blueprint.Prelude.{
  ◌≡◌, refl, false, ◌==◌, List, [], ◌∷◌, where_, delete_where, arith,
}
use saas_backend_blueprint.Members.Model.{Uuid}
use saas_backend_blueprint.OrgDeletion.Model.{Child, is_of}
use saas_backend_blueprint.OrgDeletion.Repository
use saas_backend_blueprint.OrgDeletion.Repository.{Tables, Rows, has_org_id, completed_at}

where_-delete_other :
    (org other : Uuid) (cs : List Child)
    → (other == org) ≡ false
    → where_ (is_of other) (delete_where (is_of org) cs) ≡ where_ (is_of other) cs
where_-delete_other org other [] h = refl
where_-delete_other org other (c ∷ cs) h = ground (arith, h, where_-delete_other org other cs)

where_-delete_same :
    (org : Uuid) (cs : List Child) → where_ (is_of org) (delete_where (is_of org) cs) ≡ []
where_-delete_same org [] = refl
where_-delete_same org (c ∷ cs) = ground (arith, where_-delete_same org cs)

module _ (t : Tables) where
  -- The rows of an organization, table by table.
  abbrev pub rows_of : Uuid → Rows t → List (List Child)
  rows_of org s =
      where_ (is_of org) (t.snapshots.rows s.snapshots)
      ∷ where_ (is_of org) (t.events.rows s.events)
      ∷ where_ (is_of org) (t.files.rows s.files)
      ∷ where_ (is_of org) (t.notifications.rows s.notifications)
      ∷ where_ (is_of org) (t.exports.rows s.exports)
      ∷ where_ (is_of org) (t.jobs.rows s.jobs)
      ∷ where_ (is_of org) (t.activity.rows s.activity)
      ∷ where_ (is_of org) (t.memberships.rows s.memberships)
      ∷ []

  abbrev pub nothing : List (List Child)
  nothing = [] ∷ [] ∷ [] ∷ [] ∷ [] ∷ [] ∷ [] ∷ [] ∷ []

  pub delete_database_records-own :
      (org : Uuid) (s : Rows t) → rows_of org (Repository.delete_database_records t org s) ≡ nothing
  unfolding Repository.delete_database_records
  delete_database_records-own org s = ground (
    arith,
    t.snapshots.delete_many_law (is_of org) s.snapshots,
    t.events.delete_many_law (is_of org) s.events,
    t.files.delete_many_law (is_of org) s.files,
    t.notifications.delete_many_law (is_of org) s.notifications,
    t.exports.delete_many_law (is_of org) s.exports,
    t.jobs.delete_many_law (is_of org) s.jobs,
    t.activity.delete_many_law (is_of org) s.activity,
    t.memberships.delete_many_law (is_of org) s.memberships,
    where_-delete_same org (t.snapshots.rows s.snapshots),
    where_-delete_same org (t.events.rows s.events),
    where_-delete_same org (t.files.rows s.files),
    where_-delete_same org (t.notifications.rows s.notifications),
    where_-delete_same org (t.exports.rows s.exports),
    where_-delete_same org (t.jobs.rows s.jobs),
    where_-delete_same org (t.activity.rows s.activity),
    where_-delete_same org (t.memberships.rows s.memberships),
  )

  pub delete_database_records-other :
      (org other : Uuid) (s : Rows t)
      → (other == org) ≡ false
      → rows_of other (Repository.delete_database_records t org s) ≡ rows_of other s
  unfolding Repository.delete_database_records
  delete_database_records-other org other s h = ground (
    arith,
    t.snapshots.delete_many_law (is_of org) s.snapshots,
    t.events.delete_many_law (is_of org) s.events,
    t.files.delete_many_law (is_of org) s.files,
    t.notifications.delete_many_law (is_of org) s.notifications,
    t.exports.delete_many_law (is_of org) s.exports,
    t.jobs.delete_many_law (is_of org) s.jobs,
    t.activity.delete_many_law (is_of org) s.activity,
    t.memberships.delete_many_law (is_of org) s.memberships,
    where_-delete_other org other (t.snapshots.rows s.snapshots) h,
    where_-delete_other org other (t.events.rows s.events) h,
    where_-delete_other org other (t.files.rows s.files) h,
    where_-delete_other org other (t.notifications.rows s.notifications) h,
    where_-delete_other org other (t.exports.rows s.exports) h,
    where_-delete_other org other (t.jobs.rows s.jobs) h,
    where_-delete_other org other (t.activity.rows s.activity) h,
    where_-delete_other org other (t.memberships.rows s.memberships) h,
  )
