-- ===== src/Services/Auth/Examples.antt =====
-- Logins of one user.
use chat_room.Prelude.{◌*◌, ◌≡◌, refl, ltb, if◌then◌else◌, ok, err, arith}
use chat_room.Services.Auth.{validate_token, invalid_token}
use chat_room.Services.Auth.Login.{validate_token-login}
use chat_room.Jwt.{numeric_date, second}
use chat_room.Jwt.Single.{manager, single, single-Documented}
use chat_room.Services.Auth.Samples.{ann, users, bcrypt, request, response, logged_in}

validate_token-login_example :
    validate_token users bcrypt single manager tt (200 * second) "token"
    ≡ (if ltb (200 * second) (numeric_date (105 * second)) then ok ann else err invalid_token)
validate_token-login_example =
    validate_token-login users bcrypt single manager single-Documented tt tt (5 * second)
      (200 * second) request response logged_in (omega arith) refl
