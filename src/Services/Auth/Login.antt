-- ===== src/Services/Auth/Login.antt =====
-- Logging in, and what a token of a login is good for.
use chat_room.Prelude.{
  ℕ, ◌≡◌, ◌≤◌, ◌+◌, refl, String, Bool, Bool-cases, inl, inr, true, false, Option, none, some, ltb,
  if◌then◌else◌, Result, ok, err, >>=_ok,
}
use chat_room.Services.{User}
use mathlib.Core.Path.{subst}
use chat_room.Services.Auth.{
  IUserRepository, Bcrypt, LoginRequest, LoginResponse, Error, invalid_credentials, invalid_token,
  known, verified, tokened, claimed, login, validate_token,
}
use chat_room.Jwt.{Library, TokenManager, generate_token, numeric_date}
use chat_room.Jwt.Tokens.{Documented, parse_token-generate_token}

module _ {E B X : Type 0} where
  known_ok :
      (e : Error E B X) (r : Result E (Option User)) (u : User) → known e r ≡ ok u → r ≡ ok (some u)
  unfolding known
  known_ok e (err x) u h = cc
  known_ok e (ok none) u h = cc
  known_ok e (ok (some v)) u h = cc

  ok_inj :
      (a b : LoginResponse) → ◌≡◌ {A = Result (Error E B X) LoginResponse} (ok a) (ok b) → a ≡ b
  ok_inj a b h = cc

  tokened_ok : (r : Result X String) (t : String) → tokened {E = E} {B = B} r ≡ ok t → r ≡ ok t
  unfolding tokened
  tokened_ok (ok s) t h = cc
  tokened_ok (err e) t h = cc

  verified_ok : (b : Bool) (u : Unit {0}) → verified {E = E} {B = B} {X = X} b ≡ ok u → b ≡ true
  unfolding verified
  verified_ok true u h = refl
  verified_ok false u h = cc

module _ {D E B X : Type 0} (users : IUserRepository D E) (bcrypt : Bcrypt B) (lib : Library X)
    (tm : TokenManager) where
  -- A login that succeeds answers the user of that name, whose password it has compared, and a token
  -- that was generated for the user.
  pub login_ok :
      (d : D) (now : ℕ) (req : LoginRequest) (resp : LoginResponse)
      → login users bcrypt lib tm d now req ≡ ok resp
      → (users.find_by_username d req.username ≡ ok (some resp.user))
        × (bcrypt.compare_hash_and_password resp.user.password_hash req.password ≡ true)
        × (generate_token lib tm now resp.user.id resp.user.user_name resp.user.email
            ≡ ok resp.token)
  unfolding login
  login_ok d now req resp h =
      let (user, found, h1) =
        >>=_ok (known invalid_credentials (users.find_by_username d req.username)) _ resp h in
      let (u, checked, h2) =
        >>=_ok (verified (bcrypt.compare_hash_and_password user.password_hash req.password)) _ resp
          h1 in
      let (token, made, h3) =
        >>=_ok (tokened (generate_token lib tm now user.id user.user_name user.email)) _ resp h2 in
      let same = ok_inj (record { token = token; user = user }) resp h3 in
      subst
        (λ r.
          (users.find_by_username d req.username ≡ ok (some r.user))
          × (bcrypt.compare_hash_and_password r.user.password_hash req.password ≡ true)
          × (generate_token lib tm now r.user.id r.user.user_name r.user.email ≡ ok r.token))
        same
        (
          known_ok invalid_credentials (users.find_by_username d req.username) user found,
          verified_ok (bcrypt.compare_hash_and_password user.password_hash req.password) u checked,
          tokened_ok (generate_token lib tm now user.id user.user_name user.email) token made,
        )

  -- The token of a login is answered with the user of the login until it expires, and refused from
  -- then on, if the library is as documented and the user is found by its id at that time.
  pub validate_token-login :
      Documented lib
      → (d d' : D) (now later : ℕ) (req : LoginRequest) (resp : LoginResponse)
      → login users bcrypt lib tm d now req ≡ ok resp
      → now ≤ later
      → users.find_by_id d' resp.user.id ≡ ok (some resp.user)
      → validate_token users bcrypt lib tm d' later resp.token ≡ (
          if ltb later (numeric_date (now + tm.expire_dur))
          then ok resp.user
          else err invalid_token)
  unfolding validate_token claimed known
  validate_token-login doc d d' now later req resp h le found =
      let (by_name, checked, signed) = login_ok d now req resp h in
      let parsed =
        parse_token-generate_token lib tm doc now later resp.user.id resp.user.user_name
          resp.user.email resp.token signed le in
      elim (Bool-cases (ltb later (numeric_date (now + tm.expire_dur)))) [
        | inl live ↦ (let p = (rw live at parsed) in rw (live, p, found) refl)
        | inr over ↦ (let p = (rw over at parsed) in rw (over, p) refl)
      ]
