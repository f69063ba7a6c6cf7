-- ===== src/Services/Auth.antt =====
-- internal/service/auth.go. bcrypt is the parameter `Bcrypt`, and the UUID of a new user is an
-- argument. A nil user without an error, which gorm never answers, is not modelled.
pub mod Login
mod Examples
pub mod Samples
use chat_room.Prelude.{ℕ, String, Bool, true, false, Option, none, some, Result, ok, err, ◌>>=◌}
use chat_room.Services.{User}
use chat_room.Jwt
use chat_room.Jwt.{Library, TokenManager, Claims, generate_token, parse_token}

pub record RegisterRequest : Type 0 where
  pub username : String
  pub password : String
  pub email : String

pub record LoginRequest : Type 0 where
  pub username : String
  pub password : String

pub record LoginResponse : Type 0 where
  pub token : String
  pub user : User

-- The calls of the user repository.
pub record IUserRepository (D E : Type 0) : Type 0 where
  pub create : D → User → Result E (Unit {0}) × D
  pub find_by_id : D → String → Result E (Option User)
  pub find_by_username : D → String → Result E (Option User)

-- GenerateFromPassword, whose salt is drawn at random from `salt`, and CompareHashAndPassword.
pub record Bcrypt (B : Type 0) : Type 0 where
  pub generate_from_password : String → String → Result B String
  pub compare_hash_and_password : String → String → Bool

pub data Error (E B X : Type 0) : Type 0 where
  user_already_exists invalid_credentials invalid_token : Error E B X
  failed : E → Error E B X
  hash_failed : B → Error E B X
  token_failed : X → Error E B X

abbrev pub default_hub : String
default_hub = "hub_001"

module _ {E B X : Type 0} where
  -- The name must be free.
  free : Result E (Option User) → Result (Error E B X) (Unit {0})
  free (err e) = err (failed e)
  free (ok (some user)) = err user_already_exists
  free (ok none) = ok tt

  unfoldable pub known : Error E B X → Result E (Option User) → Result (Error E B X) User
  known e (err x) = err (failed x)
  known e (ok none) = err e
  known e (ok (some user)) = ok user

  hashed : Result B String → Result (Error E B X) String
  hashed (ok h) = ok h
  hashed (err e) = err (hash_failed e)

  unfoldable pub verified : Bool → Result (Error E B X) (Unit {0})
  verified true = ok tt
  verified false = err invalid_credentials

  unfoldable pub tokened : Result X String → Result (Error E B X) String
  tokened (ok t) = ok t
  tokened (err e) = err (token_failed e)

  claimed : Result Jwt.Error Claims → Result (Error E B X) Claims
  claimed (ok c) = ok c
  claimed (err e) = err invalid_token

  created : User → Result E (Unit {0}) → Result (Error E B X) User
  created user (ok u) = ok user
  created user (err e) = err (failed e)

module _ {D E B X : Type 0} (users : IUserRepository D E) (bcrypt : Bcrypt B) where
  -- The user that Register saves.
  new_user : D → String → String → RegisterRequest → Result (Error E B X) User
  unfolding free hashed
  new_user d uuid salt req = do
    u ← free (users.find_by_username d req.username)
    password_hash ← hashed (bcrypt.generate_from_password salt req.password)
    ok (record {
      id = uuid;
      user_name = req.username;
      password_hash = password_hash;
      email = req.email;
      avatar_url = "";
      status = "";
      hub_id = default_hub;
    })

  save_user : D → Result (Error E B X) User → Result (Error E B X) User × D
  unfolding created
  save_user d (err e) = (err e, d)
  save_user d (ok user) = let (r, d') = users.create d user in (created user r, d')

  pub register : D → String → String → RegisterRequest → Result (Error E B X) User × D
  unfolding new_user save_user
  register d uuid salt req = save_user d (new_user d uuid salt req)

module _ {D E B X : Type 0} (users : IUserRepository D E) (bcrypt : Bcrypt B) (lib : Library X)
    (tm : TokenManager) where
  unfoldable pub login : D → ℕ → LoginRequest → Result (Error E B X) LoginResponse
  unfolding known verified tokened
  login d now req = do
    user ← known invalid_credentials (users.find_by_username d req.username)
    u ← verified (bcrypt.compare_hash_and_password user.password_hash req.password)
    token ← tokened (generate_token lib tm now user.id user.user_name user.email)
    ok (record { token = token; user = user })

  pub validate_token : D → ℕ → String → Result (Error E B X) User
  unfolding claimed known
  validate_token d now token = do
    claims ← claimed (parse_token lib tm now token)
    known invalid_token (users.find_by_id d claims.user_id)
