-- ===== src/Members/Invite/Laws.antt =====
-- What an invitation leaves.
use saas_backend_blueprint.Prelude.{
  String, str_eq, str_append, eq_iff, Option-cases, ◌≡◌, refl, inl, inr, Bool, List, [], ◌∷◌, none,
  some, ok, arith, find, find-append,
}
use saas_backend_blueprint.Members.Model.{Membership}
use saas_backend_blueprint.Members.Repository
use saas_backend_blueprint.Members.Repository.{is_of}
use saas_backend_blueprint.Members.Service
use saas_backend_blueprint.Members.Accounts.{
  Parts, AccountsState, UserInvited, log_both, pending_user_prefix,
}
use saas_backend_blueprint.Members.Remove.{user_activity, user_event}
use saas_backend_blueprint.Members.Invite
use saas_backend_blueprint.Members.Invite.{Settings, Invitation, invited_status, is_some}
use saas_backend_blueprint.Users
use saas_backend_blueprint.Users.{User, new_user}

module _ (p : Parts) (c : Settings) where
  abbrev row_of : Invitation → User → Membership
  row_of i u = record {
    id = i.membership_id;
    user_id = u.id;
    org_id = i.org_id;
    role = i.role;
    status = invited_status u;
  }

  abbrev has_email : String → User → Bool
  has_email email u = str_eq u.email email

  abbrev pub members_of : AccountsState p → List Membership
  members_of s = p.providers.table.rows s.members.memberships

  admit-ok :
      (i : Invitation) (name : String) (u : User) (s s' : AccountsState p)
      → Invite.admit p c i name u s ≡ (ok tt, s')
      → (find (is_of u.id i.org_id) (members_of s) ≡ none)
        × (find (is_of u.id i.org_id) (members_of s') ≡ some (row_of i u))
        × (s'.users ≡ s.users)
        × (s'.events ≡ Invite.event p c i name s ∷ s.events)
  unfolding Invite.admit Service.find_by_user_and_org Repository.find_by_user_and_org
      Service.create_membership Repository.create
  admit-ok i name u s s' e = ground (
    arith,
    p.providers.table.find_first_law (is_of u.id i.org_id) s.members.memberships,
    p.providers.table.create_law (row_of i u) s.members.memberships,
    find-append (is_of u.id i.org_id) (members_of s) (row_of i u ∷ []),
  )

  -- What an invitation that succeeds has done: the address is that of a user, who had no membership in
  -- the organization and has one now, with the role given, INVITED for a user who never logged in and
  -- ACTIVE for any other, and one event was published, for that organization, address and role.
  pub record IsInvited (i : Invitation) (s s' : AccountsState p) : Type 0 where
    pub user : User
    pub event : UserInvited
    pub known : find (has_email (c.to_lower_case i.email)) (p.users.rows s'.users) ≡ some user
    pub not_before : find (is_of user.id i.org_id) (members_of s) ≡ none
    pub member : find (is_of user.id i.org_id) (members_of s') ≡ some (row_of i user)
    pub published : s'.events ≡ event ∷ s.events
    pub to_org : event.tenant_id ≡ i.org_id
    pub to_address : event.invitee_email ≡ c.to_lower_case i.email
    pub with_role : event.role ≡ i.role

  IsInvited-of :
      (i : Invitation) (name : String) (u : User) (s t s' : AccountsState p)
      → find (has_email (c.to_lower_case i.email)) (p.users.rows t.users) ≡ some u
      → t.members.memberships ≡ s.members.memberships
      → t.events ≡ s.events
      → Invite.admit p c i name u t ≡ (ok tt, s')
      → IsInvited i s s'
  IsInvited-of i name u s t s' known same_rows same_events e =
      let (before, after, users, events) = admit-ok i name u t s' e in
      record {
        user = u;
        event = Invite.event p c i name t;
        known = rw users known;
        not_before = ground (arith, before, same_rows);
        member = after;
        published = ground (arith, events, same_events);
        to_org = refl;
        to_address = refl;
        with_role = refl;
      }

  abbrev newcomer : Invitation → User
  newcomer i = new_user i.user_id (str_append pending_user_prefix i.uuid) (c.to_lower_case i.email)

  abbrev with_newcomer : Invitation → p.users.State → AccountsState p → AccountsState p
  with_newcomer i users s =
      log_both p (user_activity i.org_id (some i.inviter_id) "user.created.pending" i.user_id)
        (user_event i.org_id (some i.inviter_id) "user.created.pending" i.user_id i.trigger)
        (record s { users = users })

  newcomer_known :
      (i : Invitation) (s : AccountsState p) (users : p.users.State)
      → p.users.find_first (has_email (c.to_lower_case i.email)) s.users ≡ none
      → p.users.create (newcomer i) s.users ≡ some users
      → find (has_email (c.to_lower_case i.email)) (p.users.rows users) ≡ some (newcomer i)
  newcomer_known i s users unknown created = ground (
    arith,
    p.users.find_first_law (has_email (c.to_lower_case i.email)) s.users,
    p.users.create_law (newcomer i) s.users,
    find-append (has_email (c.to_lower_case i.email)) (p.users.rows s.users) (newcomer i ∷ []),
    eq_iff (c.to_lower_case i.email) (c.to_lower_case i.email),
  )

  -- An invitation that succeeds has given the person with the address a membership that they did not
  -- have, and published it once.
  pub invite-IsInvited :
      (i : Invitation) (s s' : AccountsState p)
      → Invite.invite p c i s ≡ (ok tt, s')
      → IsInvited i s s'
  unfolding Invite.invite Users.find_by_email Users.create_user
  invite-IsInvited i s s' e = elim (Option-cases (c.org_name i.org_id)) [
    | inl no_org ↦ absurd (ground (arith, no_org))
    | inr (name, named) ↦
        elim (Option-cases (p.users.find_first (has_email (c.to_lower_case i.email)) s.users)) [
          | inr (u, found) ↦
              IsInvited-of i name u s s s'
                (ground (
                  arith,
                  found,
                  p.users.find_first_law (has_email (c.to_lower_case i.email)) s.users,
                ))
                refl refl (ground (arith, named, found))
          | inl unknown ↦ elim (Option-cases (p.users.create (newcomer i) s.users)) [
            | inl taken ↦ absurd (ground (arith, named, unknown, taken))
            | inr (users, created) ↦
                IsInvited-of i name (newcomer i) s (with_newcomer i users s) s'
                  (newcomer_known i s users unknown created) refl refl
                  (ground (arith, named, unknown, created))
          ]
        ]
  ]
