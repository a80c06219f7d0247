-- ===== src/Members/Remove.antt =====
-- libs/memberships/src/application/services/remove-member.service.ts.
-- The database deletes a user's memberships with the user (`onDelete: Cascade`).
pub mod Laws
use saas_backend_blueprint.Prelude.{
  ℕ, String, Bool, List, [], ◌∷◌, Option, none, some, failure, Method, ◌>>=◌, ◌>>◌, return, throw,
  modify, if◌then◌else◌,
}
use saas_backend_blueprint.Members.Model.{Uuid, Membership, Activity, AuditEvent}
use saas_backend_blueprint.Members.Repository
use saas_backend_blueprint.Members.Repository.{of_user}
use saas_backend_blueprint.Members.Service
use saas_backend_blueprint.Members.Service.{in_org}
use saas_backend_blueprint.Members.Accounts.{Parts, AccountsState, in_members, log_both, is_pending}
use saas_backend_blueprint.Users
use saas_backend_blueprint.Users.{User}

abbrev pub user_activity : Uuid → Option Uuid → String → Uuid → Activity
user_activity org actor action user = record {
  org_id = org;
  actor_id = actor;
  action = action;
  entity_id = user;
  target_user_id = none;
  roles = [];
}

abbrev pub user_event : Uuid → Option Uuid → String → Uuid → String → AuditEvent
user_event org actor action user trigger = record {
  event_type = action;
  org_id = org;
  trigger_type = trigger;
  membership_id = none;
  target_user_id = user;
  roles = [];
  actor_user_id = actor;
}

module _ (p : Parts) where
  -- The Auth0 account is deleted first, a failure of which is only logged; a user who never logged in
  -- has none.
  unfoldable pub delete_identity :
      User → Uuid → Option Uuid → String → AccountsState p → AccountsState p
  delete_identity u org actor trigger s =
      if is_pending u then s else elim (p.identity.delete_user u.auth0_id s.directory) [
        | none ↦ s
        | some directory ↦
            log_both p (user_activity org actor "user.auth0.deleted" u.id)
              (user_event org actor "user.auth0.deleted" u.id trigger)
              (record s { directory = directory })
      ]

  -- `usersService.deleteUser`, with the cascade
  unfoldable pub delete_account : Uuid → Method (AccountsState p) (Unit {0})
  delete_account user s = elim (Users.delete_user p.users user s.users) [
    | none ↦ throw (failure "P2025") s
    | some users ↦
        let w = s.members in
        return tt (record s {
          users = users;
          members = record w {
            memberships = p.providers.table.delete_many (of_user user) w.memberships;
          };
        })
  ]

  abbrev pub forget :
      Option User → Uuid → Uuid → Option Uuid → String → Method (AccountsState p) (Unit {0})
  forget none user org actor trigger s = return tt s
  forget (some u) user org actor trigger s =
      (do
        modify (delete_identity u org actor trigger)
        delete_account user
        modify (
            log_both p (user_activity org actor "user.deleted" user)
              (user_event org actor "user.deleted" user trigger)))
        s

  -- `remaining.length > 0` keeps the account.
  abbrev pub clean_up :
      List Membership → Uuid → Uuid → Option Uuid → String → Method (AccountsState p) (Unit {0})
  clean_up (m ∷ ms) user org actor trigger s = return tt s
  clean_up [] user org actor trigger s =
      forget (Users.find_by_id p.users user s.users) user org actor trigger s

  abbrev pub clean_up_user :
      Uuid → Uuid → Option Uuid → String → Method (AccountsState p) (Unit {0})
  clean_up_user user org actor trigger s =
      clean_up (Repository.find_by_user p.providers.table user s.members.memberships) user org actor
        trigger s

  unfoldable pub remove : Uuid → Uuid → Option Uuid → String → Method (AccountsState p) (Unit {0})
  unfolding delete_identity delete_account
  remove id org actor trigger s =
      (do
        m ← in_org (Repository.find_by_id p.providers.table id s.members.memberships) org
        in_members p (Service.delete_membership p.providers id org actor trigger)
        clean_up_user m.user_id org actor trigger)
        s
