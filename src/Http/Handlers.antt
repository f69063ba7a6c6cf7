-- ===== src/Http/Handlers.antt =====
-- internal/handler: what the handlers ask of the services of internal/service, and the handlers. The
-- result of c.ShouldBindJSON, which gin computes, is an argument: a request, or the error's text.
pub mod Accounts
pub mod Guilds
pub mod Messages
use chat_room.Prelude.{ℕ, ◌≡◌, String, Bool, Option, List, [], ◌∷◌, ◌++◌, Result}
use chat_room.Prelude.Int.{ℤ}
use chat_room.Services.{User, GuildModel}
use chat_room.Services.Auth
use chat_room.Services.Auth.{RegisterRequest, LoginRequest, LoginResponse}
use chat_room.Services.Guild
use chat_room.Services.Message
use chat_room.Services.Message.{MessageModel, MessageWithUser}
use chat_room.Gateway.Connection.{Bytes}
use chat_room.Http.{Context, Body, Response, Ended, returned, panicked, hangs, json, error}

-- The services, over the state W of the program.
pub record IAuthService (W E B X : Type 0) : Type 0 where
  pub register : W → RegisterRequest → Result (Auth.Error E B X) User × W
  pub login : W → LoginRequest → Result (Auth.Error E B X) LoginResponse × W

pub record IGuildService (W E : Type 0) : Type 0 where
  pub create_guild : W → String → String → Result (Guild.Error E) GuildModel × W
  pub join_guild : W → String → String → Result (Guild.Error E) (Unit {0}) × W
  pub get_user_guilds : W → String → Result (Guild.Error E) (List GuildModel)
  pub get_guild_members : W → String → Result (Guild.Error E) (List User)

-- SendMessage gives none where it waits for ever for the clock.
pub record IMessageService (W E R : Type 0) : Type 0 where
  pub send_message :
      W → String → String → Bytes → Option (Result (Message.Error E R) MessageModel × W)
  pub get_messages_with_user : W → String → ℤ → ℤ → Result E (List MessageWithUser × Bool)

abbrev pub respond : {W : Type 0} → W → Context → ℕ → Body → Ended W
respond w c status body = returned w (json c status body)

abbrev pub bad_request : ℕ
bad_request = 400

abbrev pub ok_status : ℕ
ok_status = 200

abbrev pub created_status : ℕ
created_status = 201

abbrev pub not_found : ℕ
not_found = 404

abbrev pub conflict : ℕ
conflict = 409

abbrev pub forbidden : ℕ
forbidden = 403

-- One response more than before, unless a service waits for ever, and no panic.
abbrev pub AnswersOnce : {W : Type 0} → Context → Ended W → Type 0
AnswersOnce c (returned w c') = (r : Response) × (c'.responses ≡ c.responses ++ r ∷ [])
AnswersOnce c (panicked w c') = ⊥
AnswersOnce c hangs = Unit {0}
