-- ===== src/Main.antt =====
-- cmd/main.go: the handler of the Kafka messages, which calls the message service, and the route /ws,
-- which adds connections to the gateway. The upgrader of gorilla/websocket is an argument: what it
-- made of the request; where it fails it has answered by itself. What main logs, and how it connects
-- and starts the components, is not modelled.
pub mod Delivery
pub mod Sockets
mod Examples
use chat_room.Prelude.{
  ℕ, String, Bool, true, false, Option, none, some, Result, ok, err, if◌then◌else◌, str_eq,
}
use chat_room.Redis.{Server}
use chat_room.Jwt
use chat_room.Jwt.{Library, TokenManager, Claims, parse_token}
use chat_room.Kafka.Consumer.{ConsumerMessage}
use chat_room.Gateway.Connection.{Socket}
use chat_room.Gateway.Manager.{Manager, add_connection}
use chat_room.Gateway.Handler.{WsMessage, Codec}
use chat_room.Services.{IUserRepository, IGuildRepository}
use chat_room.Services.Message
use chat_room.Services.Message.{MessageModel, IMessageRepository, World, Times, send_message}
use chat_room.Http.{Context, Ended, returned, error, json, unauthorized}

-- The errors of the handler: a message that cannot be read, and what SendMessage returns.
pub data Failure (P E R : Type 0) : Type 0 where
  unreadable : P → Failure P E R
  refused : Message.Error E R → Failure P E R

module _ {P E R V : Type 0} where
  -- Of a message that was sent only the error is kept.
  after_send :
      Option (Result (Message.Error E R) MessageModel × V)
      → Option (Result (Failure P E R) (Unit {0}) × V)
  after_send none = none
  after_send (some (ok m, w)) = some (ok tt, w)
  after_send (some (err e, w)) = some (err (refused e), w)

module _ {D S E R P : Type 0} (users : IUserRepository D E) (guilds : IGuildRepository D E)
    (messages : IMessageRepository D E) (server : Server S R) (codec : Codec P) where
  on_unmarshal :
      World D S
      → Times
      → Result P (Unit {0}) × WsMessage
      → Option (Result (Failure P E R) (Unit {0}) × World D S)
  unfolding after_send
  on_unmarshal w now (err e, msg) = some (err (unreadable e), w)
  on_unmarshal w now (ok u, msg) =
      after_send
        (send_message users guilds messages server codec w msg.user_id msg.guild_id msg.content now)

  -- consumerHandler; none while the generator waits for the clock
  unfoldable pub consumer_handler :
      World D S → ConsumerMessage → Times → Option (Result (Failure P E R) (Unit {0}) × World D S)
  unfolding on_unmarshal
  consumer_handler w m now = on_unmarshal w now (codec.unmarshal m.value)

module _ {S W E F U X : Type 0} (server : Server S E) (socket : Socket W F) (lib : Library X)
    (tm : TokenManager) where
  -- AddConnection returns no error.
  on_upgrade : Manager S W → Context → ℕ → Claims → Result U W → Ended (Manager S W)
  on_upgrade m c now claims (err e) = returned m c
  on_upgrade m c now claims (ok conn) =
      returned (add_connection server socket m claims.user_id (c.query "guild_id") conn now).1 c

  on_token : Manager S W → Context → ℕ → Result U W → Result Jwt.Error Claims → Ended (Manager S W)
  unfolding on_upgrade
  on_token m c now upgrade (err e) = returned m (json c unauthorized (error "Invalid token"))
  on_token m c now upgrade (ok claims) = on_upgrade m c now claims upgrade

  -- GET /ws, at the time when the token is checked and that when the connection is added
  unfoldable pub serve_ws : Manager S W → Context → ℕ → ℕ → Result U W → Ended (Manager S W)
  unfolding on_token
  serve_ws m c now later upgrade =
      if str_eq (c.query "token") ""
      then returned m (json c unauthorized (error "Token required"))
      else on_token m c later upgrade (parse_token lib tm now (c.query "token"))
