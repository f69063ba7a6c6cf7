-- ===== src/Http/Routes/Sessions.antt =====
-- Requests before and after a login.
use Prim.Native.String.{◌++◌}
use chat_room.Prelude.{
  nonempty, ℕ, ◌+◌, ◌≡◌, ◌≢◌, ◌≤◌, ◌<◌, refl, ◌∙◌, String, inl, inr, lt→ltb, ok,
}
use chat_room.Prelude.Dict.{insert, lookup-insert}
use chat_room.Services.Auth
use chat_room.Services.Auth.{LoginRequest, LoginResponse, Bcrypt}
use chat_room.Services.Auth.Login.{login_ok}
use chat_room.Jwt.{Library, TokenManager, numeric_date, new_claims}
use chat_room.Jwt.Tokens.{Documented, parse_token-generate_token}
use chat_room.Http.{Context, returned, session, json, set_key, get_string}
use chat_room.Http.Bearer.Accepts.{auth_middleware-header, auth_middleware-Passed}
use chat_room.Http.Handlers.Accounts
use chat_room.Http.Requests.{SendMessageRequest}
use chat_room.Http.Handlers.{IAuthService, IGuildService, IMessageService, AnswersOnce, ok_status}
use chat_room.Http.Handlers.Accounts.Once.{register_once, login_once}
use chat_room.Http.Handlers.Guilds.Once.{
  create_guild_once, join_guild_once, get_user_guilds_once, get_guild_members_once,
}
use chat_room.Http.Handlers.Messages
use chat_room.Http.Handlers.Messages.{sent}
use chat_room.Http.Handlers.Messages.Once.{send_message_once, get_messages_once}
use chat_room.Http.Routes.{
  Public, register, login, Protected, create_guild, join_guild, get_user_guilds, get_guild_members,
  send_message, get_messages, serve_public, handle, serve_protected, auth_service,
}

module _ {W E B X : Type 0} (accounts : IAuthService W E B X) (w : W) (c : Context) where
  serve_public_once : (route : Public) → AnswersOnce c (serve_public accounts route w c)
  unfolding serve_public
  serve_public_once (register req) = register_once accounts w c req
  serve_public_once (login req) = login_once accounts w c req

module _ {W E R X : Type 0} (guilds : IGuildService W E) (messages : IMessageService W E R)
    (lib : Library X) (tm : TokenManager) where
  handle_once :
      (w : W) (c : Context) (route : Protected) → AnswersOnce c (handle guilds messages route w c)
  unfolding handle
  handle_once w c (create_guild req) = create_guild_once guilds w c req
  handle_once w c (join_guild req) = join_guild_once guilds w c req
  handle_once w c get_user_guilds = get_user_guilds_once guilds w c
  handle_once w c get_guild_members = get_guild_members_once guilds w c
  handle_once w c (send_message req) = send_message_once messages w c req
  handle_once w c get_messages = get_messages_once messages w c

  -- Every request for a protected route gets exactly one response, with a token or without one,
  -- whatever the services answer, unless a service waits for ever; and no request panics.
  pub serve_protected-AnswersOnce :
      (now : ℕ) (route : Protected) (w : W) (c : Context)
      → AnswersOnce c (serve_protected guilds messages lib tm now route w c)
  unfolding serve_protected
  serve_protected-AnswersOnce now route w c =
      elim (auth_middleware-Passed lib tm now (handle guilds messages route) w c) [
        | inl (claims, parsed, e) ↦ rw e (handle_once w _ route)
        | inr (text, e) ↦ rw e (_, refl)
      ]

  module _ {D F B : Type 0} (users : Auth.IUserRepository D F) (bcrypt : Bcrypt B)
      (doc : Documented lib) where
    abbrev pub in_session : Context → LoginResponse → Context
    in_session c resp =
        set_key (set_key (set_key c "user_id" resp.user.id) "username" resp.user.user_name) "email"
          resp.user.email

    in_session_user :
        (c : Context) (resp : LoginResponse)
        → get_string (in_session c resp) "user_id" ≡ resp.user.id
    in_session_user c resp =
        rw
          (
            lookup-insert "email" "user_id" resp.user.email
                (insert "username" resp.user.user_name (insert "user_id" resp.user.id c.keys)),
            lookup-insert "username" "user_id" resp.user.user_name
                (insert "user_id" resp.user.id c.keys),
            lookup-insert "user_id" "user_id" resp.user.id c.keys,
          )
          refl

    -- A login that the service grants is answered 200 with its token, and a later request with that
    -- token in its header is handled as one of the user who logged in, until the token expires.
    pub login-serve_protected :
        (d : D) (req : LoginRequest) (resp : LoginResponse) (uuid salt : String) (now later : ℕ)
        (c c' : Context) (route : Protected) (w : W)
        → Auth.login users bcrypt lib tm d now req ≡ ok resp
        → now ≤ later
        → later < numeric_date (now + tm.expire_dur)
        → resp.token ≢ ""
        → c'.header "Authorization" ≡ "Bearer " ++ resp.token
        → (serve_public (auth_service users bcrypt lib tm uuid salt now) (login (ok req)) d c
            ≡ returned d (json c ok_status (session resp)))
          × (serve_protected guilds messages lib tm later route w c'
              ≡ handle guilds messages route w (in_session c' resp))
    unfolding serve_public auth_service serve_protected Accounts.login
    login-serve_protected d req resp uuid salt now later c c' route w granted le live ne header =
        let (by_name, verified, signed) = login_ok users bcrypt lib tm d now req resp granted in
        let parsed =
          parse_token-generate_token lib tm doc now later resp.user.id resp.user.user_name
            resp.user.email resp.token signed le in
        let valid = (rw (lt→ltb later (numeric_date (now + tm.expire_dur)) live) at parsed) in
        (
          rw granted refl,
          auth_middleware-header lib tm later (handle guilds messages route) w c' resp.token
              (new_claims tm now resp.user.id resp.user.user_name resp.user.email) header ne valid,
        )

    -- A message sent with the token of a login is sent as the user who logged in, whatever user the
    -- request names.
    pub login-send_message :
        (d : D) (req : LoginRequest) (resp : LoginResponse) (now later : ℕ) (c : Context)
        (msg : SendMessageRequest) (w : W)
        → Auth.login users bcrypt lib tm d now req ≡ ok resp
        → now ≤ later
        → later < numeric_date (now + tm.expire_dur)
        → resp.token ≢ ""
        → resp.user.id ≢ ""
        → c.header "Authorization" ≡ "Bearer " ++ resp.token
        → serve_protected guilds messages lib tm later (send_message (ok msg)) w c
          ≡ sent (in_session c resp) (messages.send_message w resp.user.id msg.guild_id msg.content)
    unfolding handle Messages.send_message
    login-send_message d req resp now later c msg w granted le live ne known header =
        (login-serve_protected d req resp "" "" now later c c (send_message (ok msg)) w granted le
          live ne header).1
        ∙ rw (in_session_user c resp, nonempty resp.user.id known) refl
