-- ===== src/OrgDeletion/Completion.antt =====
-- That a deletion completes: libs/org-deletion/src/application/services/org-deletion-worker.service.ts.
use saas_backend_blueprint.Prelude.{
  ℕ, ◌≡◌, ◌≢◌, sym, ap, ◌∙◌, subst, inl, inr, String, false, ◌==◌, ◌∷◌, Option, none, some, find,
  ok, arith, Option-cases,
}
use saas_backend_blueprint.Members.Model.{Uuid}
use saas_backend_blueprint.OrgDeletion.Model.{
  Organization, DeletionTrigger, DeletionEvent, started, completed,
}
use saas_backend_blueprint.OrgDeletion.Repository
use saas_backend_blueprint.OrgDeletion.Repository.{Tables, Rows, has_org_id, completed_at}
use saas_backend_blueprint.OrgDeletion.Worker
use saas_backend_blueprint.OrgDeletion.Worker.{Outside, State, is_deleted}
use saas_backend_blueprint.OrgDeletion.Steps.{
  IsErased, delete_organization-outcome, send_deletion_confirmation_email-outside,
}
use saas_backend_blueprint.OrgDeletion.Outcomes.{executed, found, is_gone}

module _ (t : Tables) (x : Outside) where
  -- The storage, the cache and the event bus never fail.
  pub record IsObliging : Type 0 where
    pub folder : (org : Uuid) (s : x.State) → x.delete_folder org s ≢ none
    pub pattern : (org : Uuid) (s : x.State) → x.delete_by_pattern org s ≢ none
    pub bus : (e : DeletionEvent) (s : x.State) → x.publish e s ≢ none

  delete_organization-ok :
      (o : Organization) (org : Uuid) (trigger : DeletionTrigger) (user : Option String) (now : ℕ)
      (w : State t x)
      → IsObliging
      → find (has_org_id org) (t.organizations.rows w.stored.organizations) ≡ some o
      → (Worker.delete_organization t x o org trigger user now w).0 ≡ ok tt
  unfolding Worker.delete_organization Worker.delete_storage_files Worker.revoke_external_resources
      Worker.clear_redis_cache Worker.delete_database_records Worker.mark_organization_deleted
      Repository.mark_deleted Repository.delete_database_records
  delete_organization-ok o org trigger user now w obliging there =
      let sent = send_deletion_confirmation_email-outside t x (Worker.given user) org w in
      let s1 = (Worker.send_deletion_confirmation_email t x (Worker.given user) org w).1.outside in
      elim (Option-cases (x.delete_folder org s1)) [
        | inl g ↦ ground (arith, g, obliging.folder org s1)
        | inr (s2, g) ↦
            let s3 =
              Worker.without_customer t x (Worker.given o.stripe_customer_id)
                (Worker.terminated t x (Worker.given o.subscription_id) s2) in
            elim (Option-cases (x.delete_by_pattern org s3)) [
              | inl h ↦ ground (arith, h, obliging.pattern org s3)
              | inr (s4, h) ↦
                  let os = w.stored.organizations in
                  let written = t.organizations.update_law (has_org_id org) (completed_at now) os in
                  elim (Option-cases
                    (t.organizations.update (has_org_id org) (completed_at now) os)) [
                      | inl k ↦ ground (arith, there, written, k)
                      | inr (s5, k) ↦
                          ground (arith, sent, g, h, k, obliging.bus (completed org trigger) s4)
                    ]
            ]
      ]

  delete_or_failed-ok :
      (o : Organization) (org other : Uuid) (trigger : DeletionTrigger) (user : Option String)
      (now : ℕ) (w : State t x)
      → (other == org) ≡ false
      → IsObliging
      → found t x org w ≡ some o
      → is_deleted o.status ≡ false
      → let r = Worker.delete_or_failed t x org trigger user now w in
        (r.0 ≡ ok tt)
        × (r.1.published ≡ completed org trigger ∷ w.published)
        × IsErased t x org other now w.stored r.1.stored
  unfolding Repository.find_org_by_id
  delete_or_failed-ok o org other trigger user now w apart obliging f early =
      let law = t.organizations.find_first_law (has_org_id org) w.stored.organizations in
      let ran = delete_organization-ok o org trigger user now w obliging f in
      let d = Worker.delete_organization t x o org trigger user now w in
      let goes : (ok tt, d.1) ≡ Worker.delete_or_failed t x org trigger user now w =
        ground (arith, f, law, early, ran) in
      elim (delete_organization-outcome t x o org other trigger user now w apart f) [
        | inl (e, stops, told, left) ↦ absurd (ground (arith, ran, stops))
        | inr (done, told, erased) ↦ (
          ap (λ r. r.0) (sym goes),
          ap (λ r. r.1.published) (sym goes) ∙ told,
          subst (IsErased t x org other now w.stored) (ap (λ r. r.1.stored) goes) erased,
        )
      ]

  -- Where the storage, the cache and the event bus do not fail, every deletion of an organization that is
  -- there and not yet deleted completes: no exception is thrown, the completion is published, the
  -- organization's rows are gone from the eight tables and no other's, and it is marked as deleted at this
  -- time.
  pub execute_deletion-completes :
      (org other : Uuid) (trigger : DeletionTrigger) (user : Option String) (now : ℕ)
      (w : State t x)
      → (other == org) ≡ false
      → IsObliging
      → is_gone t x (found t x org w) ≡ false
      → let r = executed t x org trigger user now w in
        (r.0 ≡ ok tt)
        × (r.1.published ≡ completed org trigger ∷ started org trigger ∷ w.published)
        × IsErased t x org other now w.stored r.1.stored
  unfolding Worker.execute_deletion
  execute_deletion-completes org other trigger user now w apart obliging here =
      elim (Option-cases (x.publish (started org trigger) w.outside)) [
        | inl g ↦ absurd (obliging.bus (started org trigger) w.outside g)
        | inr (s, g) ↦ elim (Option-cases (found t x org w)) [
          | inl f ↦ absurd (ground (arith, f, here))
          | inr (o, f) ↦
              let w0 : State t x = record w {
                outside = s;
                published = started org trigger ∷ w.published;
              } in
              let goes : Worker.delete_or_failed t x org trigger user now w0
                  ≡ executed t x org trigger user now w =
                ground (arith, g) in
              subst
                (λ r.
                  (r.0 ≡ ok tt)
                  × (r.1.published ≡ completed org trigger ∷ started org trigger ∷ w.published)
                  × IsErased t x org other now w.stored r.1.stored)
                goes
                (delete_or_failed-ok o org other trigger user now w0 apart obliging f
                  (ground (arith, f, here)))
        ]
      ]
