-- ===== src/Services/Message/Publishing.antt =====
-- What publishMessage sends to Redis.
use Prim.Native.String.{◌++◌ as ◌+++◌}
use chat_room.Prelude.{ℕ, ◌≡◌, ◌⊎◌, inl, inr, refl, String, Result, ok, err}
use chat_room.Redis.{Server, publish}
use chat_room.Gateway.Connection.{Bytes}
use chat_room.Gateway.Handler.{WsMessage, Kind, Codec}
use chat_room.Services.Message.{MessageModel, to_ws_message, publish_bytes, publish_message}

module _ {S R P : Type 0} (server : Server S R) (codec : Codec P) where
  -- What publishing makes of Redis: the message goes out for its guild, with the name and the time,
  -- unless it cannot be serialized. What Redis answers does not matter.
  pub record Published (s : S) (m : MessageModel) (name : String) (now : ℕ) (s' : S) : Type 0 where
    pub serialized : Result P Bytes
    pub copy : WsMessage
    pub made : codec.marshal copy ≡ serialized
    pub message_id : copy.message_id ≡ m.id
    pub user_id : copy.user_id ≡ m.user_id
    pub guild_id : copy.guild_id ≡ m.guild_id
    pub content : copy.content ≡ m.content
    pub seq_id : copy.seq_id ≡ m.seq_id
    pub timestamp : copy.timestamp ≡ now
    pub kind : copy.kind ≡ Kind.text
    pub username : copy.username ≡ name
    pub sent :
        ((out : Bytes) × (serialized ≡ ok out)
          × (s' ≡ (server.publish s ("guild:" +++ m.guild_id) out).1))
        ⊎ ((e : P) × (serialized ≡ err e) × (s' ≡ s))

  went_out :
      (s : S) (guild_id : String) (r : Result P Bytes)
      → ((out : Bytes) × (r ≡ ok out)
          × (publish_bytes server codec s guild_id r
              ≡ (server.publish s ("guild:" +++ guild_id) out).1))
        ⊎ ((e : P) × (r ≡ err e) × (publish_bytes server codec s guild_id r ≡ s))
  unfolding publish_bytes publish
  went_out s guild_id (ok out) = inl (out, refl, refl)
  went_out s guild_id (err e) = inr (e, refl, refl)

  pub publish_message-Published :
      (s : S) (m : MessageModel) (username : String) (now : ℕ)
      → Published s m username now (publish_message server codec s m username now)
  unfolding publish_message to_ws_message
  publish_message-Published s m username now = record {
    serialized = codec.marshal (to_ws_message m username now);
    copy = to_ws_message m username now;
    made = refl;
    message_id = refl;
    user_id = refl;
    guild_id = refl;
    content = refl;
    seq_id = refl;
    timestamp = refl;
    kind = refl;
    username = refl;
    sent = went_out s m.guild_id (codec.marshal (to_ws_message m username now));
  }
