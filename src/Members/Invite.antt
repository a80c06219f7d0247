-- ===== src/Members/Invite.antt =====
-- libs/memberships/src/application/services/invite-member.service.ts.
-- `to_lower_case` is JavaScript's, `org_name` the organization that `findById` finds, `base_url` the
-- configured FRONTEND_BASE_URL. The ids of a new user and of the membership are those that the database
-- draws, `uuid` the text of the random UUID.
pub mod Laws
use saas_backend_blueprint.Prelude.{
  ℕ, String, str_eq, str_append, starts_with, Bool, true, false, not, ◌&&◌, List, [], ◌∷◌, Option,
  none, some, conflict, not_found, failure, Method, ◌>>=◌, ◌>>◌, return, throw, throw_if, modify,
  or_throw, if◌then◌else◌,
}
use saas_backend_blueprint.Access.Roles.{MembershipRole}
use saas_backend_blueprint.Members.Model.{
  Uuid, Membership, MembershipStatus, active, invited, Activity, AuditEvent,
}
use saas_backend_blueprint.Members.Service
use saas_backend_blueprint.Members.Accounts.{
  Parts, AccountsState, in_members, log_both, is_pending, pending_user_prefix, UserInvited,
}
use saas_backend_blueprint.Members.Remove.{user_activity, user_event}
use saas_backend_blueprint.Users
use saas_backend_blueprint.Users.{User, new_user}

abbrev pub is_some {ℓ} : {A : Type ℓ} → Option A → Bool
is_some none = false
is_some (some a) = true

-- `[firstName, lastName].filter(Boolean).join(' ') || email`; the inviter's id where there is no user
abbrev pub text_of : Option String → String
text_of none = ""
text_of (some s) = s

abbrev pub joined : String → String → String
joined first last =
    if str_eq first ""
    then last
    else if str_eq last ""
    then first
    else str_append first (str_append " " last)

abbrev pub display_name : Option User → String → String
display_name none id = id
display_name (some u) id =
    let name = joined (text_of u.first_name) (text_of u.last_name) in
    if str_eq name "" then u.email else name

abbrev pub is_social : User → Bool
is_social u = not (is_pending u) && not (starts_with "auth0|" u.auth0_id)

pub record Settings : Type 0 where
  pub to_lower_case : String → String
  pub org_name : Uuid → Option String
  pub base_url : String
  -- the text of an id
  pub show : Uuid → String

pub record Invitation : Type 0 where
  pub email : String
  pub role : MembershipRole
  pub org_id : Uuid
  pub inviter_id : Uuid
  pub trigger : String
  -- what is drawn on the way
  pub user_id : Uuid
  pub uuid : String
  pub membership_id : Uuid

abbrev pub invited_status : User → MembershipStatus
invited_status u = if is_pending u then invited else active

module _ (p : Parts) (c : Settings) where
  -- The user with the address, or a new one with a placeholder for the Auth0 id.
  unfoldable pub resolve_invitee : Invitation → Method (AccountsState p) User
  resolve_invitee i s =
      let email = c.to_lower_case i.email in
      let u = new_user i.user_id (str_append pending_user_prefix i.uuid) email in
      elim (Users.find_by_email p.users email s.users) [
        | some found ↦ return found s
        | none ↦ elim (Users.create_user p.users u s.users) [
          | none ↦ throw (failure "P2002") s
          | some users ↦ return u (
              log_both p
                (user_activity i.org_id (some i.inviter_id) "user.created.pending" i.user_id)
                (user_event i.org_id (some i.inviter_id) "user.created.pending" i.user_id i.trigger)
                (record s { users = users }))
        ]
      ]

  -- The magic link, unless the user is on a social connection; a failure is only logged.
  unfoldable pub send_link : User → Invitation → AccountsState p → AccountsState p
  send_link u i s =
      if is_social u
      then s
      else elim (p.identity.send_invite_link (c.to_lower_case i.email)
          (str_append c.base_url "/auth/callback") s.directory) [
            | none ↦ s
            | some directory ↦ record s { directory = directory }
          ]

  abbrev pub event : Invitation → String → AccountsState p → UserInvited
  event i name s = record {
    tenant_id = i.org_id;
    user_id = i.inviter_id;
    invitee_email = c.to_lower_case i.email;
    inviter_name =
        display_name (Users.find_by_id p.users i.inviter_id s.users) (c.show i.inviter_id);
    organization_name = name;
    role = i.role;
    invite_url = str_append c.base_url "/auth/callback";
  }

  -- `eventBus.publish`, which may throw: what was done before stays.
  abbrev pub published :
      Invitation → String → Option p.bus.State → Method (AccountsState p) (Unit {0})
  published i name none s = throw (failure "event bus") s
  published i name (some b) s = return tt (record s { events = event i name s ∷ s.events; bus = b })

  abbrev pub publish_invited : Invitation → String → Method (AccountsState p) (Unit {0})
  publish_invited i name s = published i name (p.bus.publish (event i name s) s.bus) s

  -- The guard against a second membership, the membership, the link and the event.
  unfoldable pub admit : Invitation → String → User → Method (AccountsState p) (Unit {0})
  unfolding send_link
  admit i name u s =
      (do
        throw_if (is_some (Service.find_by_user_and_org p.providers u.id i.org_id s.members))
            (conflict "already a member of this organization")
        in_members p (
            Service.create_membership p.providers i.membership_id i.org_id
              (record { user_id = u.id; role = i.role; status = some (invited_status u) })
              (some i.inviter_id) i.trigger)
        modify (send_link u i)
        publish_invited i name)
        s

  unfoldable pub invite : Invitation → Method (AccountsState p) (Unit {0})
  unfolding resolve_invitee admit
  invite i s =
      (do
        name ← or_throw (c.org_name i.org_id) (not_found "Organization not found")
        u ← resolve_invitee i
        admit i name u)
        s
