-- ===== src/Http/Routes.antt =====
-- internal/api/router.go: which handlers serve which route. That gin finds the route of a path, and
-- the values of ":id" and of the query, is not modelled.
pub mod Sessions
mod Examples
use chat_room.Prelude.{ℕ, String, Result}
use chat_room.Services.Auth
use chat_room.Services.Auth.{RegisterRequest, LoginRequest, Bcrypt}
use chat_room.Jwt.{Library, TokenManager}
use chat_room.Http.{Context, Handler, Ended}
use chat_room.Http.Bearer.{auth_middleware}
use chat_room.Http.Requests.{SendMessageRequest}
use chat_room.Http.Handlers.{IAuthService, IGuildService, IMessageService}
use chat_room.Http.Handlers.Accounts
use chat_room.Http.Handlers.Guilds
use chat_room.Http.Handlers.Messages

-- The routes that need no token, with what was bound from the body.
pub data Public : Type 0 where
  register : Result String RegisterRequest → Public
  login : Result String LoginRequest → Public

-- The routes behind AuthMiddleware.
pub data Protected : Type 0 where
  create_guild : Result String String → Protected
  join_guild : Result String String → Protected
  get_user_guilds get_guild_members : Protected
  send_message : Result String SendMessageRequest → Protected
  get_messages : Protected

module _ {W E B X : Type 0} (auth_service : IAuthService W E B X) where
  pub serve_public : Public → Handler W
  serve_public (register req) = Accounts.register auth_service req
  serve_public (login req) = Accounts.login auth_service req

module _ {W E R : Type 0} (guild_service : IGuildService W E)
    (message_service : IMessageService W E R) where
  pub handle : Protected → Handler W
  handle (create_guild req) = Guilds.create_guild guild_service req
  handle (join_guild req) = Guilds.join_guild guild_service req
  handle get_user_guilds = Guilds.get_user_guilds guild_service
  handle get_guild_members = Guilds.get_guild_members guild_service
  handle (send_message req) = Messages.send_message message_service req
  handle get_messages = Messages.get_messages message_service

  -- A request for a protected route, at a time.
  pub serve_protected : {X : Type 0} → Library X → TokenManager → ℕ → Protected → Handler W
  unfolding handle
  serve_protected lib tm now route = auth_middleware lib tm now (handle route)

-- AuthService of internal/service/auth.go behind its interface, with the id and the salt that a new
-- user gets, and the time.
pub auth_service :
    {D E B X : Type 0}
    → Auth.IUserRepository D E
    → Bcrypt B
    → Library X
    → TokenManager
    → String
    → String
    → ℕ
    → IAuthService D E B X
auth_service users bcrypt lib tm uuid salt now = record {
  register = λ d req. Auth.register users bcrypt d uuid salt req;
  login = λ d req. (Auth.login users bcrypt lib tm d now req, d);
}
