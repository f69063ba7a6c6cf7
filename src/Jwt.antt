-- ===== src/Jwt.antt =====
-- middleware/jwt/jwt.go. The JWT library is the parameter `Library`. Times are nanoseconds after
-- 1970, and durations nanoseconds, none of them negative; the dates in a token are whole seconds.
pub mod Tokens
pub mod Single
mod Examples
use chat_room.Prelude.{
  ℕ, ◌+◌, ◌-◌, ◌*◌, ◌/◌, String, Bool, true, false, Option, none, some, ltb, if◌then◌else◌, Result,
  ok, err,
}

-- Claims, with the registered claims that are set.
pub record Claims : Type 0 where
  pub user_id : String
  pub user_name : String
  pub user_email : String
  pub expires_at : Option ℕ
  pub issued_at : Option ℕ
  pub not_before : Option ℕ

-- How ParseWithClaims fails, as far as the source looks.
pub data Refusal : Type 0 where
  token_expired token_not_valid_yet refused : Refusal

-- SignedString with HS256, and ParseWithClaims with a key function that wants HMAC, with the check of
-- the claims at a time or without it (none), and with one that takes any method, without the check.
pub record Library (X : Type 0) : Type 0 where
  pub signed_string : Claims → String → Result X String
  pub parse_with_claims : String → Option ℕ → String → Result Refusal Claims
  pub parse_any_method : String → String → Result Refusal Claims

pub data Error : Type 0 where
  expired_token token_not_yet_valid invalid_token : Error
  beyond_refresh_window not_yet_eligible : Error

pub record TokenManager : Type 0 where
  pub secret : String
  pub expire_dur : ℕ
  pub refresh_dur : ℕ

abbrev pub second : ℕ
second = 1000000000

abbrev pub hour : ℕ
hour = 3600 * second

pub new_token_manager : String → ℕ → ℕ → TokenManager
new_token_manager secret expire_hours refresh_hours = record {
  secret = secret;
  expire_dur = expire_hours * hour;
  refresh_dur = refresh_hours * hour;
}

-- jwt.NewNumericDate
abbrev pub numeric_date : ℕ → ℕ
numeric_date t = t / second * second

abbrev pub new_claims : TokenManager → ℕ → String → String → String → Claims
new_claims tm now user_id username email = record {
  user_id = user_id;
  user_name = username;
  user_email = email;
  expires_at = some (numeric_date (now + tm.expire_dur));
  issued_at = some (numeric_date now);
  not_before = some (numeric_date now);
}

renamed : Refusal → Error
renamed token_expired = expired_token
renamed token_not_valid_yet = token_not_yet_valid
renamed refused = invalid_token

parsed : Result Refusal Claims → Result Error Claims
unfolding renamed
parsed (ok claims) = ok claims
parsed (err e) = err (renamed e)

-- What RefreshToken decides about a token that expires at a time.
pub refusal : ℕ → ℕ → ℕ → Option Error
refusal refresh_dur now expires_at =
    if ltb expires_at now
    then (if ltb refresh_dur (now - expires_at) then some beyond_refresh_window else none)
    else if ltb refresh_dur (expires_at - now)
    then some not_yet_eligible
    else none

module _ {X : Type 0} (lib : Library X) (tm : TokenManager) where
  unfoldable pub generate_token : ℕ → String → String → String → Result X String
  generate_token now user_id username email =
      lib.signed_string (new_claims tm now user_id username email) tm.secret

  unfoldable pub parse_token : ℕ → String → Result Error Claims
  unfolding parsed
  parse_token now token = parsed (lib.parse_with_claims tm.secret (some now) token)

  -- A new token for the claims, or the error of the decision.
  renew : ℕ → Claims → Option Error → Result Error (Result X String)
  unfolding generate_token
  renew now claims (some e) = err e
  renew now claims none = ok (generate_token now claims.user_id claims.user_name claims.user_email)

  refresh_claims : ℕ → Claims → Option ℕ → Result Error (Result X String)
  unfolding renew refusal
  refresh_claims now claims none = err invalid_token
  refresh_claims now claims (some expires_at) =
      renew now claims (refusal tm.refresh_dur now expires_at)

  refresh_parsed : ℕ → Result Refusal Claims → Result Error (Result X String)
  unfolding refresh_claims
  refresh_parsed now (err e) = err invalid_token
  refresh_parsed now (ok claims) = refresh_claims now claims claims.expires_at

  -- The inner result is that of signing the new token. The two readings of the clock are one here.
  pub refresh_token : ℕ → String → Result Error (Result X String)
  unfolding refresh_parsed
  refresh_token now token = refresh_parsed now (lib.parse_with_claims tm.secret none token)

user_id_of : Result Refusal Claims → Result Refusal String
user_id_of (ok claims) = ok claims.user_id
user_id_of (err e) = err e

pub get_user_id_from_token :
    {X : Type 0} → Library X → TokenManager → String → Result Refusal String
unfolding user_id_of
get_user_id_from_token lib tm token = user_id_of (lib.parse_any_method tm.secret token)
