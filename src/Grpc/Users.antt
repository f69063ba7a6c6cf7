-- ===== src/Grpc/Users.antt =====
-- internal/pkg/grpc/user_server.go. The time at which a user was made is left out.
use chat_room.Prelude.{
  String, Bool, true, Option, none, some, List, [], ◌∷◌, if◌then◌else◌, Result, ok, err, str_eq,
}
use chat_room.Services.{User, IUserRepository}
use chat_room.Grpc.{Code, Status, required}

-- GetUserResponse
pub record UserInfo : Type 0 where
  pub user_id : String
  pub username : String
  pub hub_id : String

pub info_of : User → UserInfo
info_of u = record { user_id = u.id; username = u.user_name; hub_id = u.hub_id }

user_found : {E : Type 0} → Result E (Option User) → Result Status UserInfo
unfolding info_of
user_found (ok (some u)) = ok (info_of u)
user_found (ok none) = err (record { code = Code.not_found; message = "user not found" })
user_found (err e) = err (record { code = Code.not_found; message = "user not found" })

-- A user who is not found, or whom the repository fails to read, is left out.
pub kept : {E : Type 0} → Result E (Option User) → List UserInfo → List UserInfo
unfolding info_of
kept (ok (some u)) rest = info_of u ∷ rest
kept (ok none) rest = rest
kept (err e) rest = rest

module _ {D E : Type 0} (users : IUserRepository D E) where
  pub get_user : D → String → Result Status UserInfo
  unfolding user_found
  get_user d user_id =
      if str_eq user_id ""
      then err (required "user_id is required")
      else user_found (users.find_by_id d user_id)

  pub batch_get_users : D → List String → List UserInfo
  unfolding kept
  batch_get_users d [] = []
  batch_get_users d (id ∷ ids) = kept (users.find_by_id d id) (batch_get_users d ids)

-- It changes nothing.
pub update_user_status : String → Result Status Bool
update_user_status user_id =
    if str_eq user_id "" then err (required "user_id is required") else ok true
