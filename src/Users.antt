-- ===== src/Users.antt =====
-- libs/users/src/infrastructure/repositories/user.repository.ts (which UsersService passes on), over the
-- table of prisma/user.prisma. The picture and the timestamps, which no service modelled here reads,
-- are left out; a new user's id is the one that the database draws.
use saas_backend_blueprint.Prelude.{String, str_eq, Bool, ◌||◌, ◌==◌, Option, none}
use saas_backend_blueprint.Platform.Table.{Table}
use saas_backend_blueprint.Members.Model.{Uuid}

pub record User : Type 0 where
  pub id : Uuid
  pub auth0_id : String
  pub email : String
  pub first_name : Option String
  pub last_name : Option String

-- `@id`, `@unique` of auth0Id and of email
abbrev pub user_clash : User → User → Bool
user_clash u v = u.id == v.id || str_eq u.auth0_id v.auth0_id || str_eq u.email v.email

abbrev pub has_user_id : Uuid → User → Bool
has_user_id id u = u.id == id

abbrev pub new_user : Uuid → String → String → User
new_user id auth0_id email = record {
  id = id;
  auth0_id = auth0_id;
  email = email;
  first_name = none;
  last_name = none;
}

module _ (t : Table User user_clash) where
  unfoldable pub find_by_auth0_id : String → t.State → Option User
  find_by_auth0_id auth0_id s = t.find_first (λ u. str_eq u.auth0_id auth0_id) s

  unfoldable pub find_by_id : Uuid → t.State → Option User
  find_by_id id s = t.find_first (has_user_id id) s

  unfoldable pub find_by_email : String → t.State → Option User
  find_by_email email s = t.find_first (λ u. str_eq u.email email) s

  unfoldable pub create_user : User → t.State → Option t.State
  create_user u s = t.create u s

  unfoldable pub delete_user : Uuid → t.State → Option t.State
  delete_user id s = t.delete (has_user_id id) s
