-- ===== src/OrgDeletion/Worker.antt =====
-- libs/org-deletion/src/application/services/org-deletion-worker.service.ts. The storage, the mail
-- service, Stripe, the cache and the event bus are an interface, of which a call may throw (none) where
-- the code does not catch it.
use saas_backend_blueprint.Prelude.{
  ℕ, String, str_eq, Bool, true, false, List, ◌∷◌, Option, none, some, Method, Result, ok, err,
  ◌>>◌, failure, return, throw, modify, if◌then◌else◌,
}
use saas_backend_blueprint.Members.Model.{Uuid}
use saas_backend_blueprint.Organizations.{OrganizationStatus, deleted}
use saas_backend_blueprint.Users.{User}
use saas_backend_blueprint.OrgDeletion.Model.{
  Organization, DeletionTrigger, DeletionEvent, started, completed, failed, Entry,
}
use saas_backend_blueprint.OrgDeletion.Repository
use saas_backend_blueprint.OrgDeletion.Repository.{Tables, Rows}

pub record Outside : Type 1 where
  pub State : Type 0
  -- the confirmation mail, to an address about an organization
  pub send_email : String → Uuid → State → Option State
  -- `deleteFolder('org/<id>')`
  pub delete_folder : Uuid → State → Option State
  -- both catch the errors of Stripe
  pub terminate_subscription : String → State → State
  pub delete_customer : String → State → State
  -- `deleteByPattern('tenant:<id>:*')`
  pub delete_by_pattern : Uuid → State → Option State
  -- `eventBus.publish`
  pub publish : DeletionEvent → State → Option State

pub record World (S X : Type 0) : Type 0 where
  pub stored : S
  pub outside : X
  pub published : List DeletionEvent
  pub audit : List Entry

abbrev pub is_deleted : OrganizationStatus → Bool
is_deleted deleted = true
is_deleted _ = false

-- `x?`, which the empty text does not meet
abbrev pub given : Option String → Option String
given none = none
given (some a) = if str_eq a "" then none else some a

module _ (t : Tables) (x : Outside) where
  abbrev pub State : Type 0
  State = World (Rows t) x.State

  abbrev pub published_in : DeletionEvent → Option x.State → Method State (Unit {0})
  published_in e none w = throw (failure "event bus") w
  published_in e (some s) w = return tt (record w { outside = s; published = e ∷ w.published })

  abbrev pub publish : DeletionEvent → Method State (Unit {0})
  publish e w = published_in e (x.publish e w.outside) w

  abbrev pub record_event : String → Uuid → DeletionTrigger → Method State (Unit {0})
  record_event action org trigger = modify (λ w. record w {
    audit = record { action = action; org_id = org; trigger = trigger } ∷ w.audit;
  })

  abbrev pub outside_in : Option x.State → Method State (Unit {0})
  outside_in none w = throw (failure "outside") w
  outside_in (some s) w = return tt (record w { outside = s })

  abbrev pub outside_or_kept : Option x.State → State → State
  outside_or_kept none w = w
  outside_or_kept (some s) w = record w { outside = s }

  -- Errors are caught.
  abbrev pub email_to : Option User → Uuid → State → State
  email_to none org w = w
  email_to (some u) org w = outside_or_kept (x.send_email u.email org w.outside) w

  unfoldable pub send_deletion_confirmation_email : Option String → Uuid → Method State (Unit {0})
  send_deletion_confirmation_email none org w = return tt w
  send_deletion_confirmation_email (some user) org w =
      return tt (email_to (Repository.find_user_by_auth0_id t user w.stored) org w)

  unfoldable pub delete_storage_files : Uuid → Method State (Unit {0})
  delete_storage_files org w = outside_in (x.delete_folder org w.outside) w

  abbrev pub terminated : Option String → x.State → x.State
  terminated none s = s
  terminated (some subscription) s = x.terminate_subscription subscription s

  abbrev pub without_customer : Option String → x.State → x.State
  without_customer none s = s
  without_customer (some customer) s = x.delete_customer customer s

  -- Nothing is done where the organization has neither.
  unfoldable pub revoke_external_resources : Option String → Option String → Method State (Unit {0})
  revoke_external_resources customer subscription = modify (λ w. record w {
    outside = without_customer (given customer) (terminated (given subscription) w.outside);
  })

  unfoldable pub clear_redis_cache : Uuid → Method State (Unit {0})
  clear_redis_cache org w = outside_in (x.delete_by_pattern org w.outside) w

  unfoldable pub delete_database_records : Uuid → Method State (Unit {0})
  delete_database_records org =
      modify (λ w. record w { stored = Repository.delete_database_records t org w.stored })

  abbrev pub stored_in : Option (Rows t) → Method State (Unit {0})
  stored_in none w = throw (failure "P2025") w
  stored_in (some s) w = return tt (record w { stored = s })

  unfoldable pub mark_organization_deleted : Uuid → ℕ → Method State (Unit {0})
  mark_organization_deleted org now w = stored_in (Repository.mark_deleted t org now w.stored) w

  unfoldable pub delete_organization :
      Organization → Uuid → DeletionTrigger → Option String → ℕ → Method State (Unit {0})
  unfolding send_deletion_confirmation_email delete_storage_files revoke_external_resources
      clear_redis_cache delete_database_records mark_organization_deleted
  delete_organization o org trigger user now = do
    send_deletion_confirmation_email (given user) org
    delete_storage_files org
    revoke_external_resources o.stripe_customer_id o.subscription_id
    clear_redis_cache org
    delete_database_records org
    mark_organization_deleted org now
    publish (completed org trigger)
    record_event "organization.deleted" org trigger

  -- The `try` block: what is gone already is left alone.
  abbrev pub delete_found :
      Option Organization → Uuid → DeletionTrigger → Option String → ℕ → Method State (Unit {0})
  delete_found none org trigger user now w = return tt w
  delete_found (some o) org trigger user now w =
      if is_deleted o.status then return tt w else delete_organization o org trigger user now w

  -- The `catch` block.
  abbrev pub or_failed :
      Uuid → DeletionTrigger → Result (Unit {0}) × State → Result (Unit {0}) × State
  or_failed org trigger (ok u, w) = return u w
  or_failed org trigger (err e, w) =
      (do publish (failed org trigger); record_event "organization.deletion.failed" org trigger) w

  -- The `try` statement.
  abbrev pub delete_or_failed : Uuid → DeletionTrigger → Option String → ℕ → Method State (Unit {0})
  delete_or_failed org trigger user now w =
      or_failed org trigger
        (delete_found (Repository.find_org_by_id t org w.stored) org trigger user now w)

  unfoldable pub execute_deletion :
      Uuid → DeletionTrigger → Option String → ℕ → Method State (Unit {0})
  unfolding delete_organization
  execute_deletion org trigger user now = do
    publish (started org trigger)
    delete_or_failed org trigger user now
