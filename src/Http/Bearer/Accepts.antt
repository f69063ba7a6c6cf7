-- ===== src/Http/Bearer/Accepts.antt =====
-- Whom the middleware lets through.
use Prim.Native.String.{◌++◌}
use Prim.Native.String.append
use chat_room.Prelude.{
  nonempty, ℕ, ◌+◌, ◌≡◌, ◌≢◌, ◌≤◌, ◌⊎◌, inl, inr, refl, String, Bool, Bool-cases, Option, true,
  false, none, some, ltb, if◌then◌else◌, Result, ok, err, str_eq, eq_iff,
}
use chat_room.Jwt
use chat_room.Jwt.{
  Library, TokenManager, Claims, expired_token, parse_token, generate_token, new_claims,
  numeric_date,
}
use chat_room.Jwt.Tokens.{Documented, parse_token-generate_token}
use chat_room.Http.{Context, Handler, Ended, returned, error, set_key, json, abort, unauthorized}
use chat_room.Http.Bearer.{
  refuse, refusal_text, bearer, split_at_space, bearer_token, with_claims, with_bearer, jwt_auth,
  token_of, checked, with_token, auth_middleware,
}

module _ {S X : Type 0} (lib : Library X) (tm : TokenManager) (now : ℕ) (next : Handler S) where
  -- The response 401, with the state as it was and nothing after it run.
  abbrev pub Refused : S → Context → Ended S → Type 0
  Refused s c r = (text : String) × (r ≡ returned s (abort (json c unauthorized (error text))))

  -- A token is accepted, and the handlers that follow are run with its user.
  abbrev pub Passed : S → Context → (Claims → Context) → String → Ended S → Type 0
  Passed s c with_user token r =
      (claims : Claims) × (parse_token lib tm now token ≡ ok claims)
      × (r ≡ next s (with_user claims))

  abbrev pub known_user : Context → Claims → Context
  known_user c claims = set_key (set_key c "user_id" claims.user_id) "username" claims.user_name

  with_claims-Passed :
      (s : S) (c : Context) (token : String) (r : Result Jwt.Error Claims)
      → parse_token lib tm now token ≡ r
      → Passed s c (known_user c) token (with_claims lib tm now next s c r)
        ⊎ Refused s c (with_claims lib tm now next s c r)
  unfolding with_claims refuse
  with_claims-Passed s c token (ok claims) e = inl (claims, e, refl)
  with_claims-Passed s c token (err x) e = inr (refusal_text x, refl)

  with_bearer-Passed :
      (s : S) (c : Context) (t : Option String)
      → ((token : String) × (t ≡ some token)
          × Passed s c (known_user c) token (with_bearer lib tm now next s c t))
        ⊎ Refused s c (with_bearer lib tm now next s c t)
  unfolding with_bearer refuse
  with_bearer-Passed s c none = inr ("invalid authorization header format", refl)
  with_bearer-Passed s c (some token) =
      elim (with_claims-Passed s c token (parse_token lib tm now token) refl) [
        | inl passed ↦ inl (token, refl, passed)
        | inr refused ↦ inr refused
      ]

  -- JWTAuth runs the handlers that follow only for a bearer token of the header that ParseToken
  -- accepts, with the user of its claims; any other request is answered 401, and changes nothing.
  pub jwt_auth-Passed :
      (s : S) (c : Context)
      → ((token : String) × (bearer_token (c.header "Authorization") ≡ some token)
          × Passed s c (known_user c) token (jwt_auth lib tm now next s c))
        ⊎ Refused s c (jwt_auth lib tm now next s c)
  unfolding jwt_auth refuse
  jwt_auth-Passed s c = elim (Bool-cases (str_eq (c.header "Authorization") "")) [
    | inl none_given ↦ rw none_given (inr ("authorization header required", refl))
    | inr given ↦ rw given (with_bearer-Passed s c (bearer_token (c.header "Authorization")))
  ]

  abbrev pub known_email : Context → Claims → Context
  known_email c claims = set_key (known_user c claims) "email" claims.user_email

  checked-Passed :
      (s : S) (c : Context) (token : String) (r : Result Jwt.Error Claims)
      → parse_token lib tm now token ≡ r
      → Passed s c (known_email c) token (checked lib tm now next s c r)
        ⊎ Refused s c (checked lib tm now next s c r)
  unfolding checked refuse
  checked-Passed s c token (ok claims) e = inl (claims, e, refl)
  checked-Passed s c token (err x) e = inr ("Token 无效或已过期", refl)

  -- AuthMiddleware runs the handlers that follow only for a token, of the header or of the query,
  -- that ParseToken accepts, with the user of its claims; any other request is answered 401, and
  -- changes nothing.
  pub auth_middleware-Passed :
      (s : S) (c : Context)
      → Passed s c
          (known_email c)
          (token_of lib tm now next c (bearer_token (c.header "Authorization")))
          (auth_middleware lib tm now next s c)
        ⊎ Refused s c (auth_middleware lib tm now next s c)
  unfolding auth_middleware with_token refuse
  auth_middleware-Passed s c =
      let token = token_of lib tm now next c (bearer_token (c.header "Authorization")) in
      elim (Bool-cases (str_eq token "")) [
        | inl empty ↦ rw empty (inr ("未提供认证 Token", refl))
        | inr given ↦ rw given (checked-Passed s c token (parse_token lib tm now token) refl)
      ]

bearer_token_lem : (token : String) → bearer_token ("Bearer " ++ token) ≡ some token
unfolding bearer_token split_at_space bearer
bearer_token_lem token =
    rw
      (
        append.cons, append.cons, append.cons, append.cons, append.cons, append.cons, append.cons,
        append.nil,
      )
      refl

given : (header token : String) → bearer_token header ≡ some token → str_eq header "" ≡ false
unfolding bearer_token split_at_space bearer
given header token h = elim (Bool-cases (str_eq header "")) [
  | inl e ↦ (let same = (eq_iff header "").0 e in let k = (rw same at h) in cc)
  | inr e ↦ e
]

-- A token in the header that is accepted.
pub auth_middleware-header :
    {S X : Type 0} (lib : Library X) (tm : TokenManager) (now : ℕ) (next : Handler S) (s : S)
    (c : Context) (token : String) (claims : Claims)
    → c.header "Authorization" ≡ "Bearer " ++ token
    → token ≢ ""
    → parse_token lib tm now token ≡ ok claims
    → auth_middleware lib tm now next s c ≡ next s (known_email lib tm now next c claims)
unfolding auth_middleware with_token token_of checked
auth_middleware-header lib tm now next s c token claims header ne parsed =
    rw
      (
        header,
        bearer_token_lem token,
        token_of,
        nonempty token ne,
        nonempty token ne,
        parsed,
        checked,
      )
      refl

module _ {S X : Type 0} (lib : Library X) (tm : TokenManager) (doc : Documented lib) where
  -- A request with a token that GenerateToken made earlier reaches the handlers as the user for whom
  -- it was made, until it expires, and is told from then on that it has expired.
  pub jwt_auth-generate_token :
      (made now : ℕ) (user_id username email token : String) (next : Handler S) (s : S)
      (c : Context)
      → generate_token lib tm made user_id username email ≡ ok token
      → made ≤ now
      → c.header "Authorization" ≡ "Bearer " ++ token
      → jwt_auth lib tm now next s c ≡ (
          if ltb now (numeric_date (made + tm.expire_dur))
          then next s (set_key (set_key c "user_id" user_id) "username" username)
          else returned s (abort (json c unauthorized (error "token has expired"))))
  unfolding jwt_auth with_bearer with_claims refuse refusal_text
  jwt_auth-generate_token made now user_id username email token next s c signed later header =
      let bearer : bearer_token (c.header "Authorization") ≡ some token =
        rw header (bearer_token_lem token) in
      let parsed =
        parse_token-generate_token lib tm doc made now user_id username email token signed later in
      rw (given (c.header "Authorization") token bearer, bearer, with_bearer, parsed)
        (answer (ltb now (numeric_date (made + tm.expire_dur))))
    where
      answer :
          (live : Bool)
          → with_claims lib tm now next s c
              (if live then ok (new_claims tm made user_id username email) else err expired_token)
            ≡ (if live
                then next s (set_key (set_key c "user_id" user_id) "username" username)
                else returned s (abort (json c unauthorized (error "token has expired"))))
      answer true = refl
      answer false = refl
