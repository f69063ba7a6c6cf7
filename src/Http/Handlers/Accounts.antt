-- ===== src/Http/Handlers/Accounts.antt =====
-- internal/handler/auth.go
pub mod Once
use chat_room.Prelude.{String, Result, ok, err}
use chat_room.Services.{User}
use chat_room.Services.Auth
use chat_room.Services.Auth.{
  RegisterRequest, LoginRequest, LoginResponse, user_already_exists, invalid_credentials,
  invalid_token, failed, hash_failed, token_failed,
}
use chat_room.Http.{
  Context, Handler, Ended, error, user, session, unauthorized, internal_server_error,
}
use chat_room.Http.Handlers.{
  IAuthService, respond, bad_request, ok_status, created_status, conflict,
}

module _ {W E B X : Type 0} where
  registered : Context → Result (Auth.Error E B X) User × W → Ended W
  registered c (ok u, w) = respond w c created_status (user u)
  registered c (err user_already_exists, w) = respond w c conflict (error "username already exists")
  registered c (err invalid_credentials, w) =
      respond w c internal_server_error (error "Failed to register user")
  registered c (err invalid_token, w) =
      respond w c internal_server_error (error "Failed to register user")
  registered c (err (failed e), w) =
      respond w c internal_server_error (error "Failed to register user")
  registered c (err (hash_failed e), w) =
      respond w c internal_server_error (error "Failed to register user")
  registered c (err (token_failed e), w) =
      respond w c internal_server_error (error "Failed to register user")

  logged_in : Context → Result (Auth.Error E B X) LoginResponse × W → Ended W
  logged_in c (ok r, w) = respond w c ok_status (session r)
  logged_in c (err invalid_credentials, w) =
      respond w c unauthorized (error "invalid username or password")
  logged_in c (err user_already_exists, w) =
      respond w c internal_server_error (error "Failed to login")
  logged_in c (err invalid_token, w) = respond w c internal_server_error (error "Failed to login")
  logged_in c (err (failed e), w) = respond w c internal_server_error (error "Failed to login")
  logged_in c (err (hash_failed e), w) = respond w c internal_server_error (error "Failed to login")
  logged_in c (err (token_failed e), w) =
      respond w c internal_server_error (error "Failed to login")

module _ {W E B X : Type 0} (service : IAuthService W E B X) where
  unfoldable pub register : Result String RegisterRequest → Handler W
  unfolding registered
  register (err text) w c = respond w c bad_request (error text)
  register (ok req) w c = registered c (service.register w req)

  unfoldable pub login : Result String LoginRequest → Handler W
  unfolding logged_in
  login (err text) w c = respond w c bad_request (error text)
  login (ok req) w c = logged_in c (service.login w req)
