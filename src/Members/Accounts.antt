-- ===== src/Members/Accounts.antt =====
-- The state that the invitation and the removal of a member work on: the memberships, the users, and
-- the identity provider (Auth0), which is an interface of the program, and of which nothing is assumed.
use saas_backend_blueprint.Prelude.{String, Bool, List, ◌∷◌, Option, Result, Method, starts_with}
use saas_backend_blueprint.Platform.Table.{Table}
use saas_backend_blueprint.Platform.EventBus.{EventBus}
use saas_backend_blueprint.Access.Roles.{MembershipRole}
use saas_backend_blueprint.Members.Model.{Uuid, Activity, AuditEvent}
use saas_backend_blueprint.Members.Service.{Providers, ServiceWorld}
use saas_backend_blueprint.Users.{User, user_clash}

-- libs/common `PENDING_USER_PREFIX`
abbrev pub pending_user_prefix : String
pending_user_prefix = "pending:"

abbrev pub is_pending : User → Bool
is_pending u = starts_with pending_user_prefix u.auth0_id

-- `IIdentityProvider`; none is a call that throws.
pub record IdentityProvider : Type 1 where
  pub Directory : Type 0
  pub delete_user : String → Directory → Option Directory
  pub send_invite_link : String → String → Directory → Option Directory

-- The payload of the event USER_INVITED; the dates are left out.
pub record UserInvited : Type 0 where
  pub tenant_id : Uuid
  pub user_id : Uuid
  pub invitee_email : String
  pub inviter_name : String
  pub organization_name : String
  pub role : MembershipRole
  pub invite_url : String

pub record Accounts (M U D B : Type 0) : Type 0 where
  pub members : M
  pub users : U
  pub directory : D
  pub events : List UserInvited
  pub bus : B

pub record Parts : Type 1 where
  pub providers : Providers
  pub users : Table User user_clash
  pub identity : IdentityProvider
  pub bus : EventBus UserInvited

module _ (p : Parts) where
  abbrev pub AccountsState : Type 0
  AccountsState = Accounts (ServiceWorld p.providers) p.users.State p.identity.Directory p.bus.State

  -- A method of MembershipsService is called.
  abbrev pub back_in :
      {A : Type 0} → AccountsState → Result A × ServiceWorld p.providers → Result A × AccountsState
  back_in s (r, w) = (r, record s { members = w })

  abbrev pub in_members :
      {A : Type 0} → Method (ServiceWorld p.providers) A → Method AccountsState A
  in_members m s = back_in s (m s.members)

  abbrev pub log_both : Activity → AuditEvent → AccountsState → AccountsState
  log_both a e s =
      let w = s.members in
      record s { members = record w { activity = a ∷ w.activity; audit = e ∷ w.audit } }
