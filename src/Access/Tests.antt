-- ===== src/Access/Tests.antt =====
-- Runs of the guards and of the permission resolver at a concrete organization.
use saas_backend_blueprint.Prelude.{◌≡◌, refl, ◌↔◌, true, false, List, [], ◌∷◌, none, some, ok}
use saas_backend_blueprint.Platform.Table.{list_table}
use saas_backend_blueprint.Platform.InMemory.{memory_redis}
use saas_backend_blueprint.Access.Roles.{admin, member, role_permissions}
use saas_backend_blueprint.Access.Context.{ContextData}
use saas_backend_blueprint.Access.Cache.{Key, same_key}
use saas_backend_blueprint.Access.Resolver
use saas_backend_blueprint.Access.Resolver.{Backend, BackendWorld, providers}
use saas_backend_blueprint.Access.Coherence.{
  Coherent, membership, permissions_of, resolve_permissions-Coherent,
}
use saas_backend_blueprint.Access.Coherence.Writes.{
  run-Coherent, resolve_permissions-after_run, update_membership-stale,
}
use saas_backend_blueprint.Access.Guard
use saas_backend_blueprint.Access.Guard.{PermissionsMetadata, Request, Guarded, GuardState}
use saas_backend_blueprint.Access.Guard.Laws.{opens, can_activate-opens}
use saas_backend_blueprint.Access.Incoming.{Claims, Incoming, absent, one, named_org, is_valid_uuid}
use saas_backend_blueprint.Access.OrgContext
use saas_backend_blueprint.Access.OrgContext.{Route, State}
use saas_backend_blueprint.Access.OrgContext.Laws.{admits, guards-admits}
use saas_backend_blueprint.Members.Model.{Membership, clash, active}
use saas_backend_blueprint.Members.Calls.{Call, updates, deletes, run}
use saas_backend_blueprint.Members.Service
use saas_backend_blueprint.Organizations
use saas_backend_blueprint.Users
use saas_backend_blueprint.Users.{User, user_clash}

abbrev backend : Backend
backend = record {
  table = list_table clash;
  redis = memory_redis Key ContextData same_key;
  seat_limit_provider = none;
  notifies = true;
}

abbrev ann : Membership
ann = record { id = 11; user_id = 1; org_id = 100; role = admin; status = active }

abbrev world : BackendWorld backend
world = record { memberships = ann ∷ []; cache = λ k. none; activity = []; audit = [] }

-- An empty cache is coherent.
abbrev cold : Coherent backend 0 world
cold = λ user org later le. tt

-- The resolver has been asked once, so the cache holds Ann's permissions.
abbrev warm_world : BackendWorld backend
warm_world = (Resolver.resolve_permissions backend 1 100 0 world).1

abbrev warm : Coherent backend 0 warm_world
warm = resolve_permissions-Coherent backend 1 100 0 world cold

-- Ann is made a member, and then removed.
abbrev calls : List Call
calls = updates 11 100 member none "user_action" ∷ deletes 11 100 none "user_action" ∷ []

run-Coherent_example : Coherent backend 0 (run (providers backend) calls world)
run-Coherent_example = run-Coherent backend refl (λ k s h. cc) calls 0 world (refl, tt) cold

resolve_permissions-after_run_example :
    (Resolver.resolve_permissions backend 1 100 0 (run (providers backend) calls world)).0
    ≡ permissions_of backend (membership backend 1 100 (run (providers backend) calls world))
resolve_permissions-after_run_example =
    resolve_permissions-after_run backend refl (λ k s h. cc) calls 1 100 0 world (refl, tt) cold

abbrev silent : Backend
silent = record backend { notifies = false }

abbrev context : ContextData
context = record {
  user_id = 1;
  org_id = 100;
  role = admin;
  status = active;
  permissions = role_permissions admin;
}

-- Ann's entry lives until second 600.
abbrev cached_world : BackendWorld silent
cached_world = record world { cache = λ k. some (context, 600) }

update_membership-stale_example :
    (Resolver.resolve_permissions silent 1 100 10
      (Service.update_membership
        (providers silent)
        11
        100
        member
        none
        "user_action"
        cached_world).1).0
    ≡ role_permissions admin
update_membership-stale_example =
    update_membership-stale silent 11 100 member none "user_action" 10 1 context cached_world refl
      (λ h. cc) refl

abbrev request : Request
request = record {
  db_user_id = some 1;
  org_id = some 100;
  membership = some (record { id = 11; role = admin; status = active });
  rbac_permissions = none;
  rbac_role = none;
  tenant_context = none;
}

abbrev required : PermissionsMetadata
required = record { permissions = "org.members.invite" ∷ []; mode = Guard.all_mode }

abbrev guarded : GuardState backend
guarded = record { request = request; backend = world }

can_activate-opens_example :
    ((Guard.can_activate backend (some required) none 0 guarded).0 ≡ ok true)
    ↔ (opens backend (some required) none guarded ≡ true)
can_activate-opens_example = can_activate-opens backend (some required) none 0 guarded cold

abbrev route : Route
route = record {
  backend = backend;
  users = list_table user_clash;
  org_status = λ org. some Organizations.active;
  uuid_of = λ s. 100;
  is_org_scoped = true;
  allow_suspended = false;
}

abbrev claims : Claims
claims = record { sub = "auth0|1"; email = none }

abbrev ann_user : User
ann_user = record {
  id = 1;
  auth0_id = "auth0|1";
  email = "ann@x.org";
  first_name = none;
  last_name = none;
}

abbrev incoming : Incoming
incoming = record {
  user = some claims;
  params_org_id = one "00000000-0000-4000-8000-000000000100";
  params_id = absent;
  query_org_id = absent;
  body_org_id = absent;
  header_org_id = absent;
}

abbrev blank : Request
blank = record request { db_user_id = none; org_id = none; membership = none }

abbrev entering : State route
entering = record { guarded = record { request = blank; backend = world }; users = ann_user ∷ [] }

knows_ann : Users.find_by_auth0_id route.users "auth0|1" entering.users ≡ some ann_user
unfolding Users.find_by_auth0_id
knows_ann = refl

names_org : named_org route.uuid_of route.is_org_scoped incoming ≡ ok (some 100)
unfolding named_org is_valid_uuid
names_org = refl

guards-admits_example :
    ((OrgContext.guards route incoming 5 (some required) none 0 entering).0 ≡ ok true)
    ↔ (admits route required 1 100 world ≡ true)
guards-admits_example =
    guards-admits route incoming 5 required 0 entering claims ann_user 100 refl knows_ann names_org
      cold
