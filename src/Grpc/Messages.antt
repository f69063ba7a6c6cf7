-- ===== src/Grpc/Messages.antt =====
-- internal/pkg/grpc/message_server.go, over the message service.
use chat_room.Prelude.{
  ◌/◌, String, Bool, Option, none, some, List, [], ◌∷◌, map, if◌then◌else◌, Result, ok, err, str_eq,
}
use chat_room.Prelude.Int.{ℤ}
use chat_room.Gateway.Connection.{Bytes}
use chat_room.Gateway.Handler.{WsMessage, Kind, is_empty}
use chat_room.Services.Message
use chat_room.Services.Message.{MessageModel, MessageWithUser}
use chat_room.Grpc.{Code, Status, required}

-- IMessageService. SendMessage gives none where it waits for ever for the clock.
pub record IMessageService (W E R : Type 0) : Type 0 where
  pub send_message :
      W → String → String → Bytes → Option (Result (Message.Error E R) MessageModel × W)
  pub get_messages_with_user : W → String → ℤ → ℤ → Result E (List MessageWithUser × Bool)
  pub batch_get_messages : W → List String → Result E (List MessageModel)

-- The WSMessage of a message, whose time is in seconds here.
pub to_proto : MessageModel → String → WsMessage
to_proto m username = record {
  message_id = m.id;
  user_id = m.user_id;
  guild_id = m.guild_id;
  content = m.content;
  seq_id = m.seq_id;
  timestamp = m.created_at / 1000;
  kind = Kind.text;
  username = username;
}

pub with_username : MessageWithUser → WsMessage
unfolding to_proto
with_username m = to_proto m.message m.username

pub without_username : MessageModel → WsMessage
unfolding to_proto
without_username m = to_proto m ""

-- An error of the service stands in the response.
module _ {W E R : Type 0} where
  replied :
      Option (Result (Message.Error E R) MessageModel × W)
      → Option (Result Status (Result (Message.Error E R) WsMessage) × W)
  unfolding without_username
  replied none = none
  replied (some (ok m, w)) = some (ok (ok (without_username m)), w)
  replied (some (err e, w)) = some (ok (err e), w)

module _ {E : Type 0} (describe : E → String) where
  history : Result E (List MessageWithUser × Bool) → Result Status (List WsMessage × Bool)
  unfolding with_username
  history (ok (ms, more)) = ok (map with_username ms, more)
  history (err e) = err (record { code = Code.internal; message = describe e })

  batch : Result E (List MessageModel) → Result Status (List WsMessage)
  unfolding without_username
  batch (ok ms) = ok (map without_username ms)
  batch (err e) = err (record { code = Code.internal; message = describe e })

module _ {W E R : Type 0} (service : IMessageService W E R) (describe : E → String) where
  pub send_message :
      W
      → String
      → String
      → Bytes
      → Option (Result Status (Result (Message.Error E R) WsMessage) × W)
  unfolding replied
  send_message w user_id guild_id content =
      if str_eq user_id ""
      then some (err (required "user_id is required"), w)
      else if str_eq guild_id ""
      then some (err (required "guild_id is required"), w)
      else if is_empty content
      then some (err (required "content is required"), w)
      else replied (service.send_message w user_id guild_id content)

  pub get_history : W → String → ℤ → ℤ → Result Status (List WsMessage × Bool)
  unfolding history
  get_history w guild_id last_seq_id limit =
      if str_eq guild_id ""
      then err (required "guild_id is required")
      else history describe (service.get_messages_with_user w guild_id last_seq_id limit)

  pub batch_get_messages : W → List String → Result Status (List WsMessage)
  unfolding batch
  batch_get_messages w [] = ok []
  batch_get_messages w (id ∷ ids) = batch describe (service.batch_get_messages w (id ∷ ids))
