-- ===== src/Http/Handlers/Accounts/Once.antt =====
-- Registration and login answer once.
use chat_room.Prelude.{refl, String, Result, ok, err}
use chat_room.Services.{User}
use chat_room.Services.Auth
use chat_room.Services.Auth.{
  RegisterRequest, LoginRequest, LoginResponse, user_already_exists, invalid_credentials,
  invalid_token, failed, hash_failed, token_failed,
}
use chat_room.Http.{Context}
use chat_room.Http.Handlers.{IAuthService, AnswersOnce}
use chat_room.Http.Handlers.Accounts.{registered, logged_in, register, login}

module _ {W E B X : Type 0} (c : Context) where
  registered_once :
      (r : Result (Auth.Error E B X) User) (w : W) → AnswersOnce c (registered c (r, w))
  unfolding registered
  registered_once (ok u) w = (_, refl)
  registered_once (err user_already_exists) w = (_, refl)
  registered_once (err invalid_credentials) w = (_, refl)
  registered_once (err invalid_token) w = (_, refl)
  registered_once (err (failed e)) w = (_, refl)
  registered_once (err (hash_failed e)) w = (_, refl)
  registered_once (err (token_failed e)) w = (_, refl)

  logged_in_once :
      (r : Result (Auth.Error E B X) LoginResponse) (w : W) → AnswersOnce c (logged_in c (r, w))
  unfolding logged_in
  logged_in_once (ok u) w = (_, refl)
  logged_in_once (err user_already_exists) w = (_, refl)
  logged_in_once (err invalid_credentials) w = (_, refl)
  logged_in_once (err invalid_token) w = (_, refl)
  logged_in_once (err (failed e)) w = (_, refl)
  logged_in_once (err (hash_failed e)) w = (_, refl)
  logged_in_once (err (token_failed e)) w = (_, refl)

module _ {W E B X : Type 0} (service : IAuthService W E B X) (w : W) (c : Context) where
  pub register_once :
      (req : Result String RegisterRequest) → AnswersOnce c (register service req w c)
  unfolding register
  register_once (err text) = (_, refl)
  register_once (ok req) = registered_once c (service.register w req).0 (service.register w req).1

  pub login_once : (req : Result String LoginRequest) → AnswersOnce c (login service req w c)
  unfolding login
  login_once (err text) = (_, refl)
  login_once (ok req) = logged_in_once c (service.login w req).0 (service.login w req).1
