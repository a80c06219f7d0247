-- ===== src/OrgDeletion/Steps.antt =====
-- How far a deletion gets: libs/org-deletion/src/application/services/org-deletion-worker.service.ts.
use saas_backend_blueprint.Prelude.{
  ℕ, ◌≡◌, refl, ◌⊎◌, inl, inr, String, false, ◌==◌, ◌∷◌, Option, none, Exception, failure, some,
  subst, Result, find, find-update_where, ok, err, arith, Option-cases,
}
use saas_backend_blueprint.Members.Model.{Uuid}
use saas_backend_blueprint.Organizations.{deleted}
use saas_backend_blueprint.OrgDeletion.Model.{Organization, DeletionTrigger, completed}
use saas_backend_blueprint.OrgDeletion.Repository
use saas_backend_blueprint.OrgDeletion.Repository.{Tables, Rows, has_org_id, completed_at}
use saas_backend_blueprint.OrgDeletion.Worker
use saas_backend_blueprint.OrgDeletion.Worker.{Outside, State, is_deleted}
use saas_backend_blueprint.OrgDeletion.Erasure.{
  rows_of, nothing, delete_database_records-own, delete_database_records-other,
}

module _ (t : Tables) (x : Outside) where
  -- The confirmation mail changes the outside alone, if at all.
  pub send_deletion_confirmation_email-outside :
      (user : Option String) (org : Uuid) (w : State t x)
      → Worker.send_deletion_confirmation_email t x user org w ≡ (
        ok tt,
        record w { outside = (Worker.send_deletion_confirmation_email t x user org w).1.outside },
      )
  unfolding Worker.send_deletion_confirmation_email
  send_deletion_confirmation_email-outside none org w = refl
  send_deletion_confirmation_email-outside (some user) org w =
      elim (Option-cases (Repository.find_user_by_auth0_id t user w.stored)) [
        | inl g ↦ ground (arith, g)
        | inr (u, g) ↦ ground (arith, g, Option-cases (x.send_email u.email org w.outside))
      ]

  -- The rows of the organization are gone from the eight tables, those of another are all there, and the
  -- organization is marked as deleted at this time.
  pub record IsErased (org other : Uuid) (now : ℕ) (s s' : Rows t) : Type 0 where
    pub row : Organization
    pub own : rows_of t org s' ≡ nothing t
    pub others : rows_of t other s' ≡ rows_of t other s
    pub marked : find (has_org_id org) (t.organizations.rows s'.organizations) ≡ some row
    pub status : row.status ≡ deleted
    pub time : row.deletion_completed_at ≡ some now

  abbrev pub DeletionResult : Type 0
  DeletionResult = Result (Unit {0}) × State t x

  -- What a deletion that found the organization ends in: it stops with the tables as they were, or all
  -- is erased, whether the completion can then be published or not.
  pub delete_organization-outcome :
      (o : Organization) (org other : Uuid) (trigger : DeletionTrigger) (user : Option String)
      (now : ℕ) (w : State t x)
      → (other == org) ≡ false
      → find (has_org_id org) (t.organizations.rows w.stored.organizations) ≡ some o
      → let r = Worker.delete_organization t x o org trigger user now w in
        ((e : Exception) × (r.0 ≡ err e)
          × (r.1.published ≡ w.published)
          × ((r.1.stored ≡ w.stored) ⊎ IsErased org other now w.stored r.1.stored))
        ⊎ ((r.0 ≡ ok tt)
            × (r.1.published ≡ completed org trigger ∷ w.published)
            × IsErased org other now w.stored r.1.stored)
  unfolding Worker.delete_organization Worker.delete_storage_files Worker.revoke_external_resources
      Worker.clear_redis_cache Worker.delete_database_records Worker.mark_organization_deleted
      Repository.mark_deleted Repository.delete_database_records
  delete_organization-outcome o org other trigger user now w apart found =
      let sent = send_deletion_confirmation_email-outside (Worker.given user) org w in
      let s1 = (Worker.send_deletion_confirmation_email t x (Worker.given user) org w).1.outside in
      elim (Option-cases (x.delete_folder org s1)) [
        | inl g ↦ inl (
          failure "outside",
          ground (arith, sent, g),
          ground (arith, sent, g),
          inl (ground (arith, sent, g)),
        )
        | inr (s2, g) ↦
            let s3 =
              Worker.without_customer t x (Worker.given o.stripe_customer_id)
                (Worker.terminated t x (Worker.given o.subscription_id) s2) in
            elim (Option-cases (x.delete_by_pattern org s3)) [
              | inl h ↦ inl (
                failure "outside",
                ground (arith, sent, g, h),
                ground (arith, sent, g, h),
                inl (ground (arith, sent, g, h)),
              )
              | inr (s4, h) ↦
                  let f = completed_at now in
                  let os = w.stored.organizations in
                  let written = t.organizations.update_law (has_org_id org) f os in
                  let there =
                    find-update_where (λ q. q.id) org org f (t.organizations.rows os) (λ q. refl) in
                  elim (Option-cases (t.organizations.update (has_org_id org) f os)) [
                    | inl k ↦ absurd (ground (arith, found, written, k))
                    | inr (s5, k) ↦
                        let end = record (Repository.delete_database_records t org w.stored) {
                          organizations = s5;
                        } in
                        let erased : IsErased org other now w.stored end = record {
                          row = f o;
                          own = delete_database_records-own t org w.stored;
                          others = delete_database_records-other t org other w.stored apart;
                          marked = ground (arith, k, found, written, there);
                          status = refl;
                          time = refl;
                        } in
                        let left : end
                            ≡ (Worker.delete_organization t x o org trigger user now w).1.stored =
                          ground (
                            arith,
                            sent,
                            g,
                            h,
                            k,
                            Option-cases (x.publish (completed org trigger) s4),
                          ) in
                        let ended = subst (IsErased org other now w.stored) left erased in
                        elim (Option-cases (x.publish (completed org trigger) s4)) [
                          | inl l ↦ inl (
                            failure "event bus",
                            ground (arith, sent, g, h, k, l),
                            ground (arith, sent, g, h, k, l),
                            inr ended,
                          )
                          | inr (s6, l) ↦ inr (
                            ground (arith, sent, g, h, k, l),
                            ground (arith, sent, g, h, k, l),
                            ended,
                          )
                        ]
                  ]
            ]
      ]
