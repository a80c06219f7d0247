-- ===== src/Members/Repository.antt =====
-- libs/memberships/src/infrastructure/repositories/memberships.repository.ts, over the table.
-- `create` is given the id that the database draws; a status left out is the column's default.
use saas_backend_blueprint.Prelude.{Bool, ◌&&◌, ◌||◌, ◌==◌, List, Option, none, some, ℕ}
use saas_backend_blueprint.Platform.Table.{Table}
use saas_backend_blueprint.Access.Roles.{MembershipRole}
use saas_backend_blueprint.Members.Model.{
  Uuid, Membership, MembershipStatus, active, is_active, is_invited, clash,
}

-- The `where` clauses.
abbrev pub takes_seat : Uuid → Membership → Bool
takes_seat org m = m.org_id == org && (is_active m.status || is_invited m.status)

abbrev pub has_id : Uuid → Membership → Bool
has_id id m = m.id == id

abbrev pub is_of : Uuid → Uuid → Membership → Bool
is_of user org m = m.user_id == user && m.org_id == org

abbrev pub of_user : Uuid → Membership → Bool
of_user user m = m.user_id == user

abbrev pub of_org : Uuid → Membership → Bool
of_org org m = m.org_id == org

abbrev pub is_invited_user : Uuid → Membership → Bool
is_invited_user user m = m.user_id == user && is_invited m.status

abbrev pub status_or_default : Option MembershipStatus → MembershipStatus
status_or_default none = active
status_or_default (some status) = status

module _ (t : Table Membership clash) where
  unfoldable pub count_active : Uuid → t.State → ℕ
  count_active org s = t.count_rows (takes_seat org) s

  -- The new row, and the table with it; none if a unique constraint failed.
  unfoldable pub create : Membership → t.State → Option t.State
  create m s = t.create m s

  unfoldable pub activate_by_user_id : Uuid → t.State → t.State
  activate_by_user_id user s =
      t.update_many (is_invited_user user) (λ m. record m { status = active }) s

  unfoldable pub find_by_org : Uuid → t.State → List Membership
  find_by_org org s = t.find_many (of_org org) s

  unfoldable pub find_by_user : Uuid → t.State → List Membership
  find_by_user user s = t.find_many (of_user user) s

  unfoldable pub find_by_id : Uuid → t.State → Option Membership
  find_by_id id s = t.find_first (has_id id) s

  unfoldable pub find_by_user_and_org : Uuid → Uuid → t.State → Option Membership
  find_by_user_and_org user org s = t.find_first (is_of user org) s

  unfoldable pub update_role : Uuid → MembershipRole → t.State → Option t.State
  update_role id role s = t.update (has_id id) (λ m. record m { role = role }) s

  unfoldable pub delete : Uuid → t.State → Option t.State
  delete id s = t.delete (has_id id) s
