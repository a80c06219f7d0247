-- ===== src/Access/Roles/Hierarchy.antt =====
-- The role hierarchy orders the roles, and agrees with the permissions that they carry.
use saas_backend_blueprint.Prelude.{String, ◌≡◌, ◌⊎◌, true, arith}
use saas_backend_blueprint.Access.Roles.{
  MembershipRole, owner, admin, member, read_only, is_role_higher_or_equal, role_permissions,
  includes,
}

-- A role that passes the hierarchical check for another has each of its permissions.
pub is_role_higher_or_equal-includes :
    (user required : MembershipRole) (p : String)
    → is_role_higher_or_equal user required ≡ true
    → includes (role_permissions required) p ≡ true
    → includes (role_permissions user) p ≡ true
unfolding is_role_higher_or_equal role_permissions
is_role_higher_or_equal-includes owner owner p h k = k
is_role_higher_or_equal-includes owner admin p h k = ground arith
is_role_higher_or_equal-includes owner member p h k = ground arith
is_role_higher_or_equal-includes owner read_only p h k = ground arith
is_role_higher_or_equal-includes admin admin p h k = k
is_role_higher_or_equal-includes admin member p h k = ground arith
is_role_higher_or_equal-includes admin read_only p h k = ground arith
is_role_higher_or_equal-includes member member p h k = k
is_role_higher_or_equal-includes member read_only p h k = ground arith
is_role_higher_or_equal-includes read_only read_only p h k = k
is_role_higher_or_equal-includes _ _ p h k = cc

-- The check is a linear order on the roles: reflexive, antisymmetric, transitive and total.
pub is_role_higher_or_equal-order :
    (a b c : MembershipRole)
    → (is_role_higher_or_equal a a ≡ true)
      × ((is_role_higher_or_equal a b ≡ true) → (is_role_higher_or_equal b a ≡ true) → a ≡ b)
      × ((is_role_higher_or_equal a b ≡ true)
          → (is_role_higher_or_equal b c ≡ true)
          → (is_role_higher_or_equal a c ≡ true))
      × ((is_role_higher_or_equal a b ≡ true) ⊎ (is_role_higher_or_equal b a ≡ true))
unfolding is_role_higher_or_equal
is_role_higher_or_equal-order a b c = ground arith
