-- ===== src/Members/Remove/Laws.antt =====
-- What a removal does to the account of the member.
use saas_backend_blueprint.Prelude.{
  String, Bool, [], ◌∷◌, refl, delete_where, ◌≡◌, ◌⊎◌, true, false, List, Option, none, some, ok,
  arith, any, find, find-delete_where, any-where_, any-delete_where,
}
use saas_backend_blueprint.Members.Model.{Uuid, Membership}
use saas_backend_blueprint.Members.Repository
use saas_backend_blueprint.Members.Repository.{has_id, of_user, of_org}
use saas_backend_blueprint.Members.Service
use saas_backend_blueprint.Members.Accounts.{Parts, AccountsState}
use saas_backend_blueprint.Members.Remove
use saas_backend_blueprint.Users
use saas_backend_blueprint.Users.{User, has_user_id}

find-delete_where-none :
    (q p : Membership → Bool) (ms : List Membership)
    → find q ms ≡ none
    → find q (delete_where p ms) ≡ none
find-delete_where-none q p [] h = refl
find-delete_where-none q p (m ∷ ms) h = ground (arith, h, find-delete_where-none q p ms)

module _ (p : Parts) where
  abbrev pub memberships : AccountsState p → List Membership
  memberships s = p.providers.table.rows s.members.memberships

  abbrev pub users : AccountsState p → List User
  users s = p.users.rows s.users

  -- The account is kept with the memberships that are left, or is gone.
  abbrev pub Settled : Uuid → AccountsState p → AccountsState p → Type 0
  Settled user s s' =
      ((any (of_user user) (memberships s') ≡ true)
        × (s'.users ≡ s.users)
        × (s'.directory ≡ s.directory))
      ⊎ ((any (of_user user) (memberships s') ≡ false)
          × (find (has_user_id user) (users s') ≡ none))

  clean_up_user-Settled :
      (user org : Uuid) (actor : Option Uuid) (trigger : String) (s s' : AccountsState p)
      → Remove.clean_up_user p user org actor trigger s ≡ (ok tt, s')
      → Settled user s s'
  unfolding Remove.remove Repository.find_by_user Users.find_by_id Users.delete_user
  clean_up_user-Settled user org actor trigger s s' e = ground (
    arith,
    p.providers.table.find_many_law (of_user user) s.members.memberships,
    any-where_ (of_user user) (memberships s),
    p.users.find_first_law (has_user_id user) s.users,
    p.users.delete_law (has_user_id user) s.users,
    find-delete_where (has_user_id user) (users s),
    any-delete_where (of_user user) (memberships s),
    p.providers.table.delete_many_law (of_user user) s.members.memberships,
  )

  -- A membership that is gone does not come back.
  clean_up_user-absent :
      (id user org : Uuid) (actor : Option Uuid) (trigger : String) (s s' : AccountsState p)
      → find (has_id id) (memberships s) ≡ none
      → Remove.clean_up_user p user org actor trigger s ≡ (ok tt, s')
      → find (has_id id) (memberships s') ≡ none
  unfolding Remove.remove Repository.find_by_user Users.find_by_id Users.delete_user
  clean_up_user-absent id user org actor trigger s s' gone e = ground (
    arith,
    gone,
    find-delete_where-none (has_id id) (of_user user) (memberships s) gone,
    p.providers.table.delete_many_law (of_user user) s.members.memberships,
  )

  -- After a removal that succeeds the membership is gone. Either the user has another one and the user's
  -- record and Auth0 account are as they were, or the user has none and no record is left.
  pub remove-Settled :
      (id org : Uuid) (actor : Option Uuid) (trigger : String) (s s' : AccountsState p)
      (m : Membership)
      → find (has_id id) (memberships s) ≡ some m
      → Remove.remove p id org actor trigger s ≡ (ok tt, s')
      → (find (has_id id) (memberships s') ≡ none) × Settled m.user_id s s'
  unfolding Remove.remove Repository.find_by_id Service.delete_membership Repository.delete
  remove-Settled id org actor trigger s s' m found e =
      let d = Service.delete_membership p.providers id org actor trigger s.members in
      let w = d.1 in
      let s1 : AccountsState p = record s { members = w } in
      let law = p.providers.table.find_first_law (has_id id) s.members.memberships in
      let gone : find (has_id id) (memberships s1) ≡ none = ground (
        arith,
        found,
        law,
        e,
        p.providers.table.delete_law (has_id id) s.members.memberships,
        find-delete_where (has_id id) (memberships s),
      ) in
      let cleaned : Remove.clean_up_user p m.user_id org actor trigger s1 ≡ (ok tt, s') =
        ground (arith, found, law, e) in
      (
        clean_up_user-absent id m.user_id org actor trigger s1 s' gone cleaned,
        clean_up_user-Settled m.user_id org actor trigger s1 s' cleaned,
      )
