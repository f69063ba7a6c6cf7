-- ===== src/Services/Auth/Samples.antt =====
-- A user, and her login.
use chat_room.Prelude.{◌*◌, ◌≡◌, refl, none, some, if◌then◌else◌, ok, err, str_eq}
use chat_room.Services.{User}
use chat_room.Services.Auth.{
  IUserRepository, Bcrypt, LoginRequest, LoginResponse, login, known, verified, tokened,
}
use chat_room.Jwt.{generate_token, second}
use chat_room.Jwt.Single.{manager, single, is_ann, same_date}

abbrev pub ann : User
ann = record {
  id = "ann";
  user_name = "Ann";
  password_hash = "hash of secret";
  email = "a@b.c";
  avatar_url = "";
  status = "";
  hub_id = "hub_001";
}

abbrev pub users : IUserRepository (Unit {0}) (Unit {0})
users = record {
  create = λ d user. (err tt, d);
  find_by_id = λ d id. if str_eq id "ann" then ok (some ann) else ok none;
  find_by_username = λ d name. if str_eq name "Ann" then ok (some ann) else ok none;
}

abbrev pub bcrypt : Bcrypt (Unit {0})
bcrypt = record {
  generate_from_password = λ salt password. ok "hash of secret";
  compare_hash_and_password = λ hash password. str_eq password "secret";
}

abbrev pub request : LoginRequest
request = record { username = "Ann"; password = "secret" }

abbrev pub response : LoginResponse
response = record { token = "token"; user = ann }

pub logged_in : login users bcrypt single manager tt (5 * second) request ≡ ok response
unfolding login known verified tokened generate_token single is_ann same_date
logged_in = refl
