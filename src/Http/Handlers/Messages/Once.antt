-- ===== src/Http/Handlers/Messages/Once.antt =====
-- The handlers of messages answer once.
use chat_room.Prelude.{
  refl, Bool, Bool-cases, inl, inr, String, Option, none, some, List, Result, ok, err, str_eq,
}
use chat_room.Prelude.Int.{ℤ, pos}
use chat_room.Services.Message
use chat_room.Services.Message.{
  MessageModel, MessageWithUser, invalid_content, not_in_guild, check_failed, id_failed, seq_failed,
  save_failed,
}
use chat_room.Http.{Context, get_string}
use chat_room.Http.Requests.{SendMessageRequest}
use chat_room.Http.Handlers.{IMessageService, AnswersOnce}
use chat_room.Http.Handlers.Messages.{
  sent, page, number_or, send_message, with_limit, with_last_seq_id, get_messages,
}

sent_once :
    {W E R : Type 0} (c : Context) (r : Option (Result (Message.Error E R) MessageModel × W))
    → AnswersOnce c (sent c r)
unfolding sent
sent_once c none = tt
sent_once c (some (ok m, w)) = (_, refl)
sent_once c (some (err invalid_content, w)) = (_, refl)
sent_once c (some (err not_in_guild, w)) = (_, refl)
sent_once c (some (err (check_failed e), w)) = (_, refl)
sent_once c (some (err (id_failed e), w)) = (_, refl)
sent_once c (some (err (seq_failed e), w)) = (_, refl)
sent_once c (some (err (save_failed e), w)) = (_, refl)

page_once :
    {W E : Type 0} (c : Context) (w : W) (r : Result E (List MessageWithUser × Bool))
    → AnswersOnce c (page w c r)
unfolding page
page_once c w (ok (ms, more)) = (_, refl)
page_once c w (err e) = (_, refl)

module _ {W E R : Type 0} (service : IMessageService W E R) (w : W) (c : Context) where
  pub send_message_once :
      (req : Result String SendMessageRequest) → AnswersOnce c (send_message service req w c)
  unfolding send_message
  send_message_once (err text) = (_, refl)
  send_message_once (ok req) = elim (Bool-cases (str_eq (get_string c "user_id") "")) [
    | inl unknown ↦ rw unknown (_, refl)
    | inr known ↦
        rw known
          (sent_once c (service.send_message w (get_string c "user_id") req.guild_id req.content))
  ]

  with_limit_once :
      (guild_id : String) (last_seq_id : ℤ) (limit : Option ℤ)
      → AnswersOnce c (with_limit service w c guild_id last_seq_id limit)
  unfolding with_limit
  with_limit_once guild_id last_seq_id none = (_, refl)
  with_limit_once guild_id last_seq_id (some limit) =
      page_once c w (service.get_messages_with_user w guild_id last_seq_id limit)

  with_last_seq_id_once :
      (guild_id : String) (last_seq_id : Option ℤ)
      → AnswersOnce c (with_last_seq_id service w c guild_id last_seq_id)
  unfolding with_last_seq_id
  with_last_seq_id_once guild_id none = (_, refl)
  with_last_seq_id_once guild_id (some last_seq_id) =
      with_limit_once guild_id last_seq_id (number_or (pos 50) (c.query "limit"))

  pub get_messages_once : AnswersOnce c (get_messages service w c)
  unfolding get_messages
  get_messages_once = elim (Bool-cases (str_eq (c.query "guild_id") "")) [
    | inl missing ↦ rw missing (_, refl)
    | inr given ↦
        rw given
          (with_last_seq_id_once (c.query "guild_id") (number_or (pos 0) (c.query "last_seq_id")))
  ]
