-- ===== src/Access/Lookup.antt =====
-- What the writes of MembershipsService do to the membership that a user and an organization find.
use saas_backend_blueprint.Prelude.{
  ◌≡◌, refl, false, List, [], ◌∷◌, ◌++◌, Option, none, some, arith, find, update_where,
  delete_where, update_where-none, delete_where-none,
}
use saas_backend_blueprint.Access.Roles.{role_permissions}
use saas_backend_blueprint.Access.Context.{ContextData}
use saas_backend_blueprint.Members.Model.{Uuid, Membership, active}
use saas_backend_blueprint.Members.Repository.{has_id, is_of, is_invited_user}
use saas_backend_blueprint.Members.Keyed.{Keyed}

-- A cached context agrees with the membership found: it carries its role and permissions.
abbrev pub Agrees : Option ContextData → Option Membership → Type 0
Agrees none m = Unit {0}
Agrees (some c) none = ⊥
Agrees (some c) (some m) = (c.role ≡ m.role) × (c.permissions ≡ role_permissions m.role)

module _ (user org : Uuid) where
  pub find-append-ne :
      (ms : List Membership) (m : Membership)
      → is_of user org m ≡ false
      → find (is_of user org) (ms ++ m ∷ []) ≡ find (is_of user org) ms
  find-append-ne [] m h = ground arith
  find-append-ne (n ∷ ns) m h = ground (arith, find-append-ne ns m h)

  pub find-update_where-ne :
      (id : Uuid) (f : Membership → Membership) (ms : List Membership) {m : Membership}
      → ((n : Membership) → ((f n).user_id ≡ n.user_id) × ((f n).org_id ≡ n.org_id))
      → Keyed ms
      → find (has_id id) ms ≡ some m
      → is_of user org m ≡ false
      → find (is_of user org) (update_where (has_id id) f ms) ≡ find (is_of user org) ms
  find-update_where-ne id f [] h k e o = refl
  find-update_where-ne id f (n ∷ ns) {m} h (new, k) e o =
      ground
        (arith, h n, update_where-none (has_id id) f ns, find-update_where-ne id f ns {m = m} h k)

  pub find-delete_where-ne :
      (id : Uuid) (ms : List Membership) {m : Membership}
      → Keyed ms
      → find (has_id id) ms ≡ some m
      → is_of user org m ≡ false
      → find (is_of user org) (delete_where (has_id id) ms) ≡ find (is_of user org) ms
  find-delete_where-ne id [] k e o = refl
  find-delete_where-ne id (n ∷ ns) {m} (new, k) e o =
      ground (arith, delete_where-none (has_id id) ns, find-delete_where-ne id ns {m = m} k)

  -- An activation changes no role.
  pub Agrees-activate :
      (invitee : Uuid) (c : Option ContextData) (ms : List Membership)
      → Agrees c (find (is_of user org) ms)
      → Agrees c (
          find
            (is_of user org)
            (update_where (is_invited_user invitee) (λ m. record m { status = active }) ms))
  Agrees-activate invitee none ms h = tt
  Agrees-activate invitee (some c) [] h = h
  Agrees-activate invitee (some c) (n ∷ ns) h = ground (arith, Agrees-activate invitee (some c) ns)
