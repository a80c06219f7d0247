-- ===== src/Access/Coherence/Writes.antt =====
-- What the writing methods of MembershipsService do to the coherence of the RBAC cache.
use saas_backend_blueprint.Prelude.{
  ℕ, String, ◌≡◌, refl, ◌≢◌, true, false, List, [], ◌∷◌, Option, none, some, arith, find,
  Bool-cases, Option-cases, inl, inr,
}
use saas_backend_blueprint.Access.Roles.{MembershipRole}
use saas_backend_blueprint.Access.Context.{ContextData}
use saas_backend_blueprint.Access.Cache
use saas_backend_blueprint.Access.Resolver
use saas_backend_blueprint.Access.Resolver.{Backend, BackendWorld, providers}
use saas_backend_blueprint.Access.Lookup.{
  find-append-ne, find-update_where-ne, find-delete_where-ne, Agrees-activate,
}
use saas_backend_blueprint.Members.Model.{Uuid, Membership, CreateMembership, active}
use saas_backend_blueprint.Members.Repository
use saas_backend_blueprint.Members.Repository.{has_id, is_of, is_invited_user}
use saas_backend_blueprint.Members.Logs.{new_row}
use saas_backend_blueprint.Members.Service
use saas_backend_blueprint.Members.Calls.{Call, creates, updates, deletes, activates, step, run}
use saas_backend_blueprint.Members.Keyed.{Keyed}
use saas_backend_blueprint.Members.Tenancy.{step-Keyed}
use saas_backend_blueprint.Access.Coherence.{
  Coherent, membership, permissions_of, resolve_permissions-present,
}

-- The cache notifier is provided, and Redis answers every `del`.
module _ (b : Backend) (notifies : b.notifies ≡ true)
    (reachable : (k : Cache.Key) (s : b.redis.State) → b.redis.del k s ≢ none) where
  create-Coherent :
      (id org : Uuid) (dto : CreateMembership) (actor : Option Uuid) (trigger : String) (now : ℕ)
      (w : BackendWorld b)
      → Coherent b now w
      → Coherent b now (Service.create_membership (providers b) id org dto actor trigger w).1
  unfolding Service.create_membership Repository.create Cache.invalidate
  create-Coherent id org dto actor trigger now w h u o later le =
      elim (Bool-cases (is_of u o (new_row id org dto))) [
        | inl same ↦ ground (
          arith,
          notifies,
          h u o later,
          reachable (dto.user_id, org) w.cache,
          b.table.create_law (new_row id org dto) w.memberships,
          b.redis.del_law (dto.user_id, org) (u, o) later w.cache,
        )
        | inr other ↦ ground (
          arith,
          notifies,
          h u o later,
          reachable (dto.user_id, org) w.cache,
          b.table.create_law (new_row id org dto) w.memberships,
          b.redis.del_law (dto.user_id, org) (u, o) later w.cache,
          find-append-ne u o (b.table.rows w.memberships) (new_row id org dto) other,
        )
      ]

  update-Coherent :
      (id org : Uuid) (role : MembershipRole) (actor : Option Uuid) (trigger : String) (now : ℕ)
      (w : BackendWorld b)
      → Keyed (b.table.rows w.memberships)
      → Coherent b now w
      → Coherent b now (Service.update_membership (providers b) id org role actor trigger w).1
  unfolding Service.update_membership Repository.update_role Repository.find_by_id Cache.invalidate
  update-Coherent id org role actor trigger now w k h u o later le =
      let f : Membership → Membership = λ m. record m { role = role } in
      elim (Option-cases (find (has_id id) (b.table.rows w.memberships))) [
        | inl gone ↦
            ground (arith, gone, h u o later, b.table.find_first_law (has_id id) w.memberships)
        | inr (m, found) ↦ elim (Bool-cases (is_of u o m)) [
          | inl same ↦ ground (
            arith,
            notifies,
            h u o later,
            found,
            reachable (m.user_id, m.org_id) w.cache,
            b.table.find_first_law (has_id id) w.memberships,
            b.table.update_law (has_id id) f w.memberships,
            b.redis.del_law (m.user_id, m.org_id) (u, o) later w.cache,
          )
          | inr other ↦ ground (
            arith,
            notifies,
            h u o later,
            found,
            reachable (m.user_id, m.org_id) w.cache,
            b.table.find_first_law (has_id id) w.memberships,
            b.table.update_law (has_id id) f w.memberships,
            b.redis.del_law (m.user_id, m.org_id) (u, o) later w.cache,
            find-update_where-ne u o id f (b.table.rows w.memberships) (λ n. (refl, refl)) k found
                other,
          )
        ]
      ]

  delete-Coherent :
      (id org : Uuid) (actor : Option Uuid) (trigger : String) (now : ℕ) (w : BackendWorld b)
      → Keyed (b.table.rows w.memberships)
      → Coherent b now w
      → Coherent b now (Service.delete_membership (providers b) id org actor trigger w).1
  unfolding Service.delete_membership Repository.delete Repository.find_by_id Cache.invalidate
  delete-Coherent id org actor trigger now w k h u o later le =
      elim (Option-cases (find (has_id id) (b.table.rows w.memberships))) [
        | inl gone ↦
            ground (arith, gone, h u o later, b.table.find_first_law (has_id id) w.memberships)
        | inr (m, found) ↦ elim (Bool-cases (is_of u o m)) [
          | inl same ↦ ground (
            arith,
            notifies,
            h u o later,
            found,
            reachable (m.user_id, m.org_id) w.cache,
            b.table.find_first_law (has_id id) w.memberships,
            b.table.delete_law (has_id id) w.memberships,
            b.redis.del_law (m.user_id, m.org_id) (u, o) later w.cache,
          )
          | inr other ↦ ground (
            arith,
            notifies,
            h u o later,
            found,
            reachable (m.user_id, m.org_id) w.cache,
            b.table.find_first_law (has_id id) w.memberships,
            b.table.delete_law (has_id id) w.memberships,
            b.redis.del_law (m.user_id, m.org_id) (u, o) later w.cache,
            find-delete_where-ne u o id (b.table.rows w.memberships) k found other,
          )
        ]
      ]

  activate-Coherent :
      (user : Uuid) (now : ℕ) (w : BackendWorld b)
      → Coherent b now w
      → Coherent b now (Service.activate_invited_memberships (providers b) user w).1
  unfolding Service.activate_invited_memberships Repository.activate_by_user_id
  activate-Coherent user now w h u o later le =
      rw
        (b.table.update_many_law (is_invited_user user) (λ m. record m { status = active })
          w.memberships)
        (Agrees-activate u o user (b.redis.stored w.cache later (u, o)) (b.table.rows w.memberships)
          (h u o later le))

  step-Coherent :
      (c : Call) (now : ℕ) (w : BackendWorld b)
      → Keyed (b.table.rows w.memberships)
      → Coherent b now w
      → Coherent b now (step (providers b) c w)
  unfolding step
  step-Coherent (creates id org dto actor trigger) now w k h =
      create-Coherent id org dto actor trigger now w h
  step-Coherent (updates id org role actor trigger) now w k h =
      update-Coherent id org role actor trigger now w k h
  step-Coherent (deletes id org actor trigger) now w k h =
      delete-Coherent id org actor trigger now w k h
  step-Coherent (activates user) now w k h = activate-Coherent user now w h

  -- Where the notifier is provided, Redis answers every `del` and the ids are unique, the cache stays coherent through
  -- every sequence of membership changes: an entry that lives carries the role and the permissions of
  -- the membership that the table has.
  pub run-Coherent :
      (cs : List Call) (now : ℕ) (w : BackendWorld b)
      → Keyed (b.table.rows w.memberships)
      → Coherent b now w
      → Coherent b now (run (providers b) cs w)
  unfolding run
  run-Coherent [] now w k h = h
  run-Coherent (c ∷ cs) now w k h =
      run-Coherent cs now (step (providers b) c w) (step-Keyed (providers b) c w k)
        (step-Coherent c now w k h)

  -- Under the same conditions the answer of the resolver after any sequence of membership changes is that of the role which
  -- the user then has.
  pub resolve_permissions-after_run :
      (cs : List Call) (user org now : ℕ) (w : BackendWorld b)
      → Keyed (b.table.rows w.memberships)
      → Coherent b now w
      → (Resolver.resolve_permissions b user org now (run (providers b) cs w)).0
        ≡ permissions_of b (membership b user org (run (providers b) cs w))
  resolve_permissions-after_run cs user org now w k h =
      resolve_permissions-present b user org now (run (providers b) cs w)
        (run-Coherent cs now w k h)

-- Without the notifier a role change leaves the old answer: whatever role a membership is given, the
-- resolver goes on answering from the entry that the cache holds, while Redis answers `get`.
pub update_membership-stale :
    (b : Backend) (id org : Uuid) (role : MembershipRole) (actor : Option Uuid) (trigger : String)
    (now : ℕ) (user : Uuid) (c : ContextData) (w : BackendWorld b)
    → b.notifies ≡ false
    → b.redis.get (user, org) now w.cache ≢ none
    → b.redis.stored w.cache now (user, org) ≡ some c
    → (Resolver.resolve_permissions b user org now
        (Service.update_membership (providers b) id org role actor trigger w).1).0
      ≡ c.permissions
unfolding Service.update_membership Resolver.resolve_permissions Cache.get
update_membership-stale b id org role actor trigger now user c w off answers cached =
    ground (arith, off, answers, cached, b.redis.get_law (user, org) now w.cache)
