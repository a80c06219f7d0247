-- ===== src/Members/Tenancy.antt =====
-- Tenant isolation of MembershipsService, and what a call leaves when it throws.
use saas_backend_blueprint.Prelude.{
  ◌≡◌, refl, ◌≢◌, inl, inr, List, [], ◌∷◌, arith, find, where_, Option-cases, ◌∙◌, where_-append,
  append-nil,
}
use saas_backend_blueprint.Members.Model.{Uuid, Membership, active}
use saas_backend_blueprint.Members.Repository
use saas_backend_blueprint.Members.Repository.{has_id, of_org, is_invited_user}
use saas_backend_blueprint.Members.Logs.{new_row}
use saas_backend_blueprint.Members.Service
use saas_backend_blueprint.Members.Service.{Providers, ServiceWorld}
use saas_backend_blueprint.Members.Calls.{
  Call, creates, updates, deletes, activates, step, run, IsFor, AllFor,
}
use saas_backend_blueprint.Members.Keyed.{
  Keyed, Keyed-append, Keyed-update_where, Keyed-delete_where, where_-update_where,
  where_-delete_where,
}

module _ (p : Providers) where
  abbrev pub rows : ServiceWorld p → List Membership
  rows w = p.table.rows w.memberships

  pub step-Keyed : (c : Call) (w : ServiceWorld p) → Keyed (rows w) → Keyed (rows (step p c w))
  unfolding step Service.create_membership Service.update_membership Service.delete_membership
      Service.activate_invited_memberships Repository.create Repository.update_role
      Repository.delete Repository.activate_by_user_id
  step-Keyed (creates id org dto actor trigger) w k = ground (
    arith,
    p.table.create_law (new_row id org dto) w.memberships,
    Keyed-append (new_row id org dto) (rows w),
  )
  step-Keyed (updates id org role actor trigger) w k = ground (
    arith,
    p.table.update_law (has_id id) (λ m. record m { role = role }) w.memberships,
    Keyed-update_where (has_id id) (λ m. record m { role = role }) (rows w) (λ m. refl) k,
  )
  step-Keyed (deletes id org actor trigger) w k = ground (
    arith,
    p.table.delete_law (has_id id) w.memberships,
    Keyed-delete_where (has_id id) (rows w) k,
  )
  step-Keyed (activates user) w k = ground (
    arith,
    p.table.update_many_law (is_invited_user user) (λ m. record m { status = active })
        w.memberships,
    Keyed-update_where (is_invited_user user) (λ m. record m { status = active }) (rows w)
        (λ m. refl) k,
  )

  -- A call for one organization leaves the memberships of every other organization as they were.
  pub step-other_org :
      (c : Call) (w : ServiceWorld p) (org other : Uuid)
      → Keyed (rows w)
      → IsFor org c
      → other ≢ org
      → where_ (of_org other) (rows (step p c w)) ≡ where_ (of_org other) (rows w)
  unfolding step Service.create_membership Service.update_membership Service.delete_membership
      Repository.create Repository.update_role Repository.delete Repository.find_by_id
  step-other_org (creates id o dto actor trigger) w org other k e ne = ground (
    arith,
    p.table.create_law (new_row id o dto) w.memberships,
    where_-append (of_org other) (rows w) (new_row id o dto ∷ []),
    append-nil (where_ (of_org other) (rows w)),
  )
  step-other_org (updates id o role actor trigger) w org other k e ne =
      let f : Membership → Membership = λ m. record m { role = role } in
      elim (Option-cases (find (has_id id) (rows w))) [
        | inl gone ↦ ground (
          arith,
          gone,
          p.table.find_first_law (has_id id) w.memberships,
          p.table.update_law (has_id id) f w.memberships,
        )
        | inr (m, found) ↦ ground (
          arith,
          found,
          p.table.find_first_law (has_id id) w.memberships,
          p.table.update_law (has_id id) f w.memberships,
          where_-update_where id org other ne f (rows w) (λ n. refl) k found,
        )
      ]
  step-other_org (deletes id o actor trigger) w org other k e ne =
      elim (Option-cases (find (has_id id) (rows w))) [
        | inl gone ↦ ground (
          arith,
          gone,
          p.table.find_first_law (has_id id) w.memberships,
          p.table.delete_law (has_id id) w.memberships,
        )
        | inr (m, found) ↦ ground (
          arith,
          found,
          p.table.find_first_law (has_id id) w.memberships,
          p.table.delete_law (has_id id) w.memberships,
          where_-delete_where id org other ne (rows w) k found,
        )
      ]
  step-other_org (activates user) w org other k e ne = absurd e

  -- Tenant isolation, where the ids of the memberships are unique: whatever sequence of create, update and delete calls is made for one
  -- organization, the memberships of every other organization stay as they were.
  pub run-other_org :
      (cs : List Call) (w : ServiceWorld p) (org other : Uuid)
      → Keyed (rows w)
      → AllFor org cs
      → other ≢ org
      → where_ (of_org other) (rows (run p cs w)) ≡ where_ (of_org other) (rows w)
  unfolding run
  run-other_org [] w org other k e ne = refl
  run-other_org (c ∷ cs) w org other k (e, es) ne =
      run-other_org cs (step p c w) org other (step-Keyed c w k) es ne
      ∙ step-other_org c w org other k e ne

  -- `Keyed` stands for what the primary key guarantees: every sequence of calls keeps it.
  pub run-Keyed : (cs : List Call) (w : ServiceWorld p) → Keyed (rows w) → Keyed (rows (run p cs w))
  unfolding run
  run-Keyed [] w k = k
  run-Keyed (c ∷ cs) w k = run-Keyed cs (step p c w) (step-Keyed c w k)
