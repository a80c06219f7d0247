-- ===== src/Members/Tests.antt =====
-- Runs of the membership services at two concrete organizations.
use saas_backend_blueprint.Prelude.{
  find, ℕ, ◌≤◌, ◌≡◌, refl, ◌↔◌, ◌⊎◌, List, [], ◌∷◌, none, some, ok, err, forbidden, arith, where_,
}
use saas_backend_blueprint.Platform.EventBus.{local}
use saas_backend_blueprint.Platform.Table.{list_table}
use saas_backend_blueprint.Access.Roles.{owner, member}
use saas_backend_blueprint.Members.Model.{
  Uuid, Membership, CreateMembership, clash, active, invited,
}
use saas_backend_blueprint.Members.Repository
use saas_backend_blueprint.Members.Repository.{of_org, has_id}
use saas_backend_blueprint.Members.Service
use saas_backend_blueprint.Members.Service.{Providers, ServiceWorld}
use saas_backend_blueprint.Members.Calls.{Call, creates, updates, deletes, step, run}
use saas_backend_blueprint.Members.Tenancy.{rows, run-other_org}
use saas_backend_blueprint.Members.Seats.{seats, run-seats, create_membership-full}
use saas_backend_blueprint.Members.Trail.{IsLogged, step-IsLogged}
use saas_backend_blueprint.Members.Accounts.{Parts, AccountsState}
use saas_backend_blueprint.Members.Remove
use saas_backend_blueprint.Members.Remove.Laws.{memberships, Settled, remove-Settled}
use saas_backend_blueprint.Members.Invite
use saas_backend_blueprint.Members.Invite.{Settings, Invitation}
use saas_backend_blueprint.Members.Invite.Laws.{IsInvited, invite-IsInvited}
use saas_backend_blueprint.Users
use saas_backend_blueprint.Users.{User, user_clash}

abbrev two_seats : Uuid → ℕ
two_seats org = 2

abbrev providers : Providers
providers = record {
  table = list_table clash;
  Cache = Unit {0};
  cache_notifier = none;
  seat_limit_provider = some two_seats;
}

abbrev ann : Membership
ann = record { id = 11; user_id = 1; org_id = 100; role = owner; status = active }

abbrev ben : Membership
ben = record { id = 12; user_id = 2; org_id = 200; role = member; status = active }

abbrev world : ServiceWorld providers
world = record { memberships = ann ∷ ben ∷ []; cache = tt; activity = []; audit = [] }

abbrev newcomer : CreateMembership
newcomer = record { user_id = 3; role = member; status = some invited }

-- Ben's membership is of another organization: the second call throws.
abbrev calls : List Call
calls =
    creates 13 100 newcomer (some 1) "user_action"
    ∷ deletes 12 100 (some 1) "user_action"
    ∷ updates 13 100 owner (some 1) "user_action"
    ∷ []

run-other_org_example :
    where_ (of_org 200) (rows providers (run providers calls world))
    ≡ where_ (of_org 200) (rows providers world)
run-other_org_example =
    run-other_org providers calls world 100 200 (refl, (refl, tt)) (refl, (refl, (refl, tt)))
      (λ e. omega arith)

run-seats_example : seats providers 100 (run providers calls world) ≤ two_seats 100
run-seats_example = run-seats providers two_seats refl calls world 100 (omega arith)

-- Every seat of the organization is taken.
abbrev full_world : ServiceWorld providers
full_world = run providers (creates 13 100 newcomer (some 1) "user_action" ∷ []) world

create_membership-full_example :
    (Service.create_membership providers 14 100 newcomer none "user_action" full_world
      ≡ (err (forbidden "Seat limit reached"), full_world))
    ↔ (two_seats 100 ≤ seats providers 100 full_world)
create_membership-full_example =
    create_membership-full providers two_seats refl 14 100 newcomer none "user_action" full_world

step-IsLogged_example :
    (step providers (deletes 11 100 none "system") world ≡ world)
    ⊎ IsLogged providers
        (deletes 11 100 none "system")
        100
        world
        (step providers (deletes 11 100 none "system") world)
step-IsLogged_example = step-IsLogged providers (deletes 11 100 none "system") world 100 refl

abbrev parts : Parts
parts = record {
  providers = providers;
  users = list_table user_clash;
  identity = record {
    Directory = Unit {0};
    delete_user = λ id d. some d;
    send_invite_link = λ email url d. some d;
  };
  bus = local;
}

abbrev ann_user : User
ann_user = record {
  id = 1;
  auth0_id = "auth0|1";
  email = "ann@x.org";
  first_name = some "Ann";
  last_name = none;
}

abbrev accounts : AccountsState parts
accounts = record { members = world; users = ann_user ∷ []; directory = tt; events = []; bus = tt }

abbrev removed : AccountsState parts
removed = (Remove.remove parts 11 100 none "user_action" accounts).1

removes : Remove.remove parts 11 100 none "user_action" accounts ≡ (ok tt, removed)
unfolding Remove.remove Service.delete_membership Repository.find_by_id Repository.delete
    Repository.find_by_user Users.find_by_id Users.delete_user
removes = refl

remove-Settled_example :
    (find (has_id 11) (memberships parts removed) ≡ none) × Settled parts 1 accounts removed
remove-Settled_example =
    remove-Settled parts 11 100 none "user_action" accounts removed ann refl removes

abbrev settings : Settings
settings = record {
  to_lower_case = λ s. s;
  org_name = λ org. some "X";
  base_url = "https://app";
  show = λ id. "1";
}

abbrev invitation : Invitation
invitation = record {
  email = "cat@x.org";
  role = member;
  org_id = 100;
  inviter_id = 1;
  trigger = "user_action";
  user_id = 3;
  uuid = "3";
  membership_id = 13;
}

abbrev invited_accounts : AccountsState parts
invited_accounts = (Invite.invite parts settings invitation accounts).1

invites : Invite.invite parts settings invitation accounts ≡ (ok tt, invited_accounts)
unfolding Invite.invite Users.find_by_email Users.create_user Service.find_by_user_and_org
    Service.create_membership Repository.count_active Repository.create
invites = refl

invite-IsInvited_example : IsInvited parts settings invitation accounts invited_accounts
invite-IsInvited_example =
    invite-IsInvited parts settings invitation accounts invited_accounts invites
