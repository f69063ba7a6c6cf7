-- ===== src/Http/Routes/Examples.antt =====
-- A login, and requests with its token.
use chat_room.Prelude.{◌*◌, ◌≡◌, refl, false, some, [], ◌∷◌, ◌≢◌, eq_iff, ok, err, arith}
use chat_room.Services.Auth.Samples.{users, bcrypt, request, response, logged_in}
use chat_room.Services.Guild
use chat_room.Services.Message
use chat_room.Jwt.{second}
use chat_room.Jwt.Single.{manager, single, single-Documented}
use chat_room.Http.{returned, session, json}
use chat_room.Http.Sample
use chat_room.Http.Requests.{SendMessageRequest}
use chat_room.Http.Handlers.{IGuildService, IMessageService, AnswersOnce, ok_status}
use chat_room.Http.Handlers.Messages.{sent}
use chat_room.Http.Routes.{
  login, get_user_guilds, send_message, serve_public, serve_protected, handle, auth_service,
}
use chat_room.Http.Routes.Sessions.{
  in_session, serve_protected-AnswersOnce, login-serve_protected, login-send_message,
}

abbrev guilds : IGuildService (Unit {0}) (Unit {0})
guilds = record {
  create_guild = λ w u n. (err (Guild.Error.failed tt), w);
  join_guild = λ w u n. (err (Guild.Error.failed tt), w);
  get_user_guilds = λ w u. ok [];
  get_guild_members = λ w g. ok [];
}

abbrev messages : IMessageService (Unit {0}) (Unit {0}) (Unit {0})
messages = record {
  send_message = λ w u g content. some (err Message.Error.not_in_guild, w);
  get_messages_with_user = λ w g last limit. ok ([], false);
}

abbrev hello : SendMessageRequest
hello = record { user_id = "bob"; guild_id = "g"; content = 104 ∷ [] }

named : response.token ≢ ""
named e = (let k = (eq_iff "token" "").1 e in cc)

known : response.user.id ≢ ""
known e = (let k = (eq_iff "ann" "").1 e in cc)

serve_protected-AnswersOnce_example :
    AnswersOnce Sample.request (
      serve_protected guilds messages single manager
        (50 * second)
        get_user_guilds
        tt
        Sample.request)
serve_protected-AnswersOnce_example =
    serve_protected-AnswersOnce guilds messages single manager (50 * second) get_user_guilds tt
      Sample.request

login-serve_protected_example :
    (serve_public
        (auth_service users bcrypt single manager "id" "salt" (5 * second))
        (login (ok request))
        tt
        Sample.request
      ≡ returned tt (json Sample.request ok_status (session response)))
    × (serve_protected guilds messages single manager
          (50 * second)
          get_user_guilds
          tt
          Sample.request
        ≡ handle guilds messages get_user_guilds tt (
            in_session guilds messages single manager users bcrypt single-Documented Sample.request
              response))
login-serve_protected_example =
    login-serve_protected guilds messages single manager users bcrypt single-Documented tt request
      response "id" "salt" (5 * second) (50 * second) Sample.request Sample.request get_user_guilds
      tt logged_in (omega arith) (omega arith) named refl

login-send_message_example :
    serve_protected guilds messages single manager
      (50 * second)
      (send_message (ok hello))
      tt
      Sample.request
    ≡ sent
        (in_session guilds messages single manager users bcrypt single-Documented Sample.request
          response)
        (messages.send_message tt "ann" "g" (104 ∷ []))
login-send_message_example =
    login-send_message guilds messages single manager users bcrypt single-Documented tt request
      response (5 * second) (50 * second) Sample.request hello tt logged_in (omega arith)
      (omega arith) named known refl
