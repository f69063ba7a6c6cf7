-- ===== src/Http/Handlers/Messages.antt =====
-- internal/handler/message.go
pub mod Once
use chat_room.Prelude.{
  String, Bool, true, false, Option, none, some, List, Result, ok, err, if◌then◌else◌, str_eq,
}
use chat_room.Prelude.Int.{ℤ, pos}
use chat_room.Services.Message
use chat_room.Services.Message.{
  MessageModel, MessageWithUser, invalid_content, not_in_guild, check_failed, id_failed, seq_failed,
  save_failed,
}
use chat_room.Http.{
  Context, Handler, Ended, hangs, error, message, messages, get_string, unauthorized,
  internal_server_error,
}
use chat_room.Http.Requests.{SendMessageRequest, parse_int}
use chat_room.Http.Handlers.{
  IMessageService, respond, bad_request, ok_status, created_status, forbidden,
}

module _ {W E R : Type 0} where
  pub sent : Context → Option (Result (Message.Error E R) MessageModel × W) → Ended W
  sent c none = hangs
  sent c (some (ok m, w)) = respond w c created_status (message m)
  sent c (some (err not_in_guild, w)) =
      respond w c forbidden (error "user is not a member of this guild")
  sent c (some (err invalid_content, w)) = respond w c bad_request (error "invalid message content")
  sent c (some (err (check_failed e), w)) =
      respond w c internal_server_error (error "Failed to send message")
  sent c (some (err (id_failed e), w)) =
      respond w c internal_server_error (error "Failed to send message")
  sent c (some (err (seq_failed e), w)) =
      respond w c internal_server_error (error "Failed to send message")
  sent c (some (err (save_failed e), w)) =
      respond w c internal_server_error (error "Failed to send message")

page : {W E : Type 0} → W → Context → Result E (List MessageWithUser × Bool) → Ended W
page w c (ok (ms, more)) = respond w c ok_status (messages ms more)
page w c (err e) = respond w c internal_server_error (error "Failed to retrieve messages")

-- A number of the query, or the default where it is left out; none where it is no number.
number_or : ℤ → String → Option ℤ
number_or default text = if str_eq text "" then some default else parse_int text

module _ {W E R : Type 0} (service : IMessageService W E R) where
  -- The user of the request is overwritten with the one that is authenticated.
  unfoldable pub send_message : Result String SendMessageRequest → Handler W
  unfolding sent
  send_message (err text) w c = respond w c bad_request (error text)
  send_message (ok req) w c =
      if str_eq (get_string c "user_id") ""
      then respond w c unauthorized (error "Unauthorized")
      else let req' = record req { user_id = get_string c "user_id" } in
        sent c (service.send_message w req'.user_id req'.guild_id req'.content)

  with_limit : W → Context → String → ℤ → Option ℤ → Ended W
  unfolding page
  with_limit w c guild_id last_seq_id none = respond w c bad_request (error "Invalid limit")
  with_limit w c guild_id last_seq_id (some limit) =
      page w c (service.get_messages_with_user w guild_id last_seq_id limit)

  with_last_seq_id : W → Context → String → Option ℤ → Ended W
  unfolding with_limit number_or
  with_last_seq_id w c guild_id none = respond w c bad_request (error "Invalid last_seq_id")
  with_last_seq_id w c guild_id (some last_seq_id) =
      with_limit w c guild_id last_seq_id (number_or (pos 50) (c.query "limit"))

  pub get_messages : Handler W
  unfolding with_last_seq_id number_or
  get_messages w c =
      if str_eq (c.query "guild_id") ""
      then respond w c bad_request (error "guild_id is required")
      else with_last_seq_id w c (c.query "guild_id") (number_or (pos 0) (c.query "last_seq_id"))
