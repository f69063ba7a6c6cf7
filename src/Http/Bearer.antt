-- ===== src/Http/Bearer.antt =====
-- Authentication by bearer token: JWTAuth of internal/api/middleware.go and AuthMiddleware of
-- middleware/auth/auth.go. What they log is not modelled.
pub mod Accepts
mod Examples
use Prim.Native.Char.{code}
use Prim.Native.String
use chat_room.Prelude.{
  ℕ, String, Bool, true, false, ◌&&◌, Option, none, some, ◌==◌, if◌then◌else◌, Result, ok, err,
  str_eq,
}
use chat_room.Jwt
use chat_room.Jwt.{
  Library, TokenManager, Claims, expired_token, token_not_yet_valid, invalid_token,
  beyond_refresh_window, not_yet_eligible, parse_token,
}
use chat_room.Http.{Context, Handler, Ended, returned, error, set_key, json, abort, unauthorized}

-- strings.SplitN(s, " ", 2), whose result has two parts where there is a space.
unfoldable pub split_at_space : String → Option (String × String)
split_at_space String.[] = none
split_at_space (String.◌∷◌ c s) = if code c == b' ' then some ("", s) else elim (split_at_space s) [
  | none ↦ none
  | some (left, right) ↦ some (String.◌∷◌ c left, right)
]

-- The second part, where the first is "Bearer".
bearer : Option (String × String) → Option String
bearer none = none
bearer (some (scheme, token)) = if str_eq scheme "Bearer" then some token else none

unfoldable pub bearer_token : String → Option String
unfolding split_at_space bearer
bearer_token header = bearer (split_at_space header)

refuse : {S : Type 0} → S → Context → String → Ended S
refuse s c text = returned s (abort (json c unauthorized (error text)))

-- The switch on the error of ParseToken.
refusal_text : Jwt.Error → String
refusal_text expired_token = "token has expired"
refusal_text token_not_yet_valid = "token not yet valid"
refusal_text invalid_token = "invalid token"
refusal_text beyond_refresh_window = "invalid token"
refusal_text not_yet_eligible = "invalid token"

module _ {S X : Type 0} (lib : Library X) (tm : TokenManager) (now : ℕ) (next : Handler S) where
  with_claims : S → Context → Result Jwt.Error Claims → Ended S
  unfolding refuse refusal_text
  with_claims s c (err e) = refuse s c (refusal_text e)
  with_claims s c (ok claims) =
      next s (set_key (set_key c "user_id" claims.user_id) "username" claims.user_name)

  with_bearer : S → Context → Option String → Ended S
  unfolding refuse with_claims
  with_bearer s c none = refuse s c "invalid authorization header format"
  with_bearer s c (some token) = with_claims s c (parse_token lib tm now token)

  pub jwt_auth : S → Context → Ended S
  unfolding refuse with_bearer
  jwt_auth s c =
      if str_eq (c.header "Authorization") ""
      then refuse s c "authorization header required"
      else with_bearer s c (bearer_token (c.header "Authorization"))

  -- A token in the query, where the header has none.
  pub token_of : Context → Option String → String
  token_of c none = c.query "token"
  token_of c (some token) = if str_eq token "" then c.query "token" else token

  checked : S → Context → Result Jwt.Error Claims → Ended S
  unfolding refuse
  checked s c (err e) = refuse s c "Token 无效或已过期"
  checked s c (ok claims) = next s (
      set_key (set_key (set_key c "user_id" claims.user_id) "username" claims.user_name) "email"
        claims.user_email)

  with_token : S → Context → String → Ended S
  unfolding refuse checked
  with_token s c token =
      if str_eq token ""
      then refuse s c "未提供认证 Token"
      else checked s c (parse_token lib tm now token)

  pub auth_middleware : S → Context → Ended S
  unfolding with_token token_of
  auth_middleware s c = with_token s c (token_of c (bearer_token (c.header "Authorization")))
