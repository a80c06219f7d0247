-- ===== src/Organizations/Ownership.antt =====
-- Who owns a new organization: libs/organizations/src/application/services/organizations.service.ts.
use saas_backend_blueprint.Prelude.{
  ◌≡◌, refl, ◌⊎◌, inl, inr, String, Bool, false, ◌&&◌, ◌==◌, List, [], ◌∷◌, none, some, any, find,
  find-append, ok, err, bad_request, arith, Option-cases,
}
use saas_backend_blueprint.Members.Model
use saas_backend_blueprint.Members.Model.{Uuid, Membership}
use saas_backend_blueprint.Organizations.Repository
use saas_backend_blueprint.Organizations.Repository.{
  Organization, org_clash, Tables, has_org_id, new_organization, owner_of,
}
use saas_backend_blueprint.Organizations.Service
use saas_backend_blueprint.Organizations.Service.{State}

-- The membership that a user has in an organization.
abbrev pub is_member : Uuid → Uuid → Membership → Bool
is_member user org m = m.user_id == user && m.org_id == org

find-org_clash :
    (o : Organization) (os : List Organization)
    → any (org_clash o) os ≡ false
    → find (has_org_id o.id) os ≡ none
find-org_clash o [] h = refl
find-org_clash o (q ∷ os) h = ground (arith, h, find-org_clash o os)

find-member_clash :
    (m : Membership) (ms : List Membership)
    → any (Model.clash m) ms ≡ false
    → find (is_member m.user_id m.org_id) ms ≡ none
find-member_clash m [] h = refl
find-member_clash m (q ∷ ms) h = ground (arith, h, find-member_clash m ms)

module _ (t : Tables) where
  abbrev pub created : Uuid → Uuid → Uuid → String → State t → State t
  created org id user name w = (Service.create_organization t org id user name w).1

  -- The creation of an organization either throws and leaves everything as it was, or the organization is
  -- found under its id and the user has a membership in it as its owner.
  pub create_organization-owner :
      (org id user : Uuid) (name : String) (w : State t)
      → (Service.create_organization t org id user name w
          ≡ (err (bad_request "Failed to create organization"), w))
        ⊎ (((Service.find_by_id t org (created org id user name w)).0
              ≡ ok (new_organization org name))
            × (find
                  (is_member user org)
                  (t.memberships.rows (created org id user name w).stored.memberships)
                ≡ some (owner_of id user org)))
  unfolding Service.create_organization Service.find_by_id Repository.create_with_owner
      Repository.find_by_id
  create_organization-owner org id user name w =
      let o = new_organization org name in
      let m = owner_of id user org in
      elim (Option-cases (t.organizations.create o w.stored.organizations)) [
        | inl f ↦ inl (ground (arith, f))
        | inr (os, f) ↦ elim (Option-cases (t.memberships.create m w.stored.memberships)) [
          | inl g ↦ inl (ground (arith, f, g))
          | inr (ms, g) ↦ inr (
            ground (
              arith,
              f,
              g,
              t.organizations.create_law o w.stored.organizations,
              t.organizations.find_first_law (has_org_id org) os,
              find-org_clash o (t.organizations.rows w.stored.organizations),
              find-append (has_org_id org) (t.organizations.rows w.stored.organizations) (o ∷ []),
            ),
            ground (
              arith,
              f,
              g,
              t.memberships.create_law m w.stored.memberships,
              find-member_clash m (t.memberships.rows w.stored.memberships),
              find-append (is_member user org) (t.memberships.rows w.stored.memberships) (m ∷ []),
            ),
          )
        ]
      ]
