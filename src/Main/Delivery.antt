-- ===== src/Main/Delivery.antt =====
-- The way of a message: from a client through its gateway, Kafka, the message service and Redis to
-- the other clients.
use Prim.Native.String.{◌++◌ as ◌+++◌}
use mathlib.Core.Path.{subst}
use chat_room.Services.Guild.{is_member}
use chat_room.Prelude.{
  arith, true, inl, inr, ℕ, ◌≡◌, ◌⊎◌, ◌∙◌, refl, sym, ap, String, Option, none, some, List, [], ◌∷◌,
  ◌++◌, Result, ok, err, str_eq, get_elem?, if◌then◌else◌,
}
use chat_room.Redis.{Server, generate_seq_id, publish}
use chat_room.Kafka.Producer.{ProducerMessage, Sarama}
use chat_room.Kafka.Consumer.{ConsumerMessage}
use chat_room.Gateway.Connection.{Bytes, Connection}
use chat_room.Gateway.Manager.{Manager, get_connection}
use chat_room.Gateway.Manager.Invariant.{IsWellFormed}
use chat_room.Gateway.Handler.{WsMessage, Codec, handle_upstream_message, handle_downstream_message}
use chat_room.Gateway.Wire.{DocumentedCodec}
use chat_room.Gateway.Handler.Upstream.{IsRead, handle_upstream_message-acknowledged}
use chat_room.Gateway.Handler.Downstream.{delivered, handle_downstream_message-delivered}
use chat_room.Services.{IUserRepository, IGuildRepository}
use chat_room.Services.Message
use chat_room.Services.Message.{
  MessageModel, IMessageRepository, World, Times, to_ws_message, guild_channel, username_of,
  publish_message, send_message,
}
use chat_room.Services.Message.Sending.{Sent, send_message-Sent}
use chat_room.Main.{Failure, after_send, on_unmarshal, consumer_handler}

-- Documented behaviour of the brokers: a message that is acknowledged is at the end of their log.
pub record Documented {K X : Type 0} (sarama : Sarama K X) : Type 0 where
  pub log : K → List ProducerMessage
  pub appends :
      (k : K) (p : ProducerMessage) (at : ℕ × ℕ) (k' : K)
      → sarama.send_message k p ≡ (ok at, k')
      → log k' ≡ log k ++ p ∷ []

last_inj : {A : Type 0} (xs : List A) (a b : A) → xs ++ a ∷ [] ≡ xs ++ b ∷ [] → a ≡ b
last_inj [] a b h = cc
last_inj (x ∷ xs) a b h = last_inj xs a b cc

ok_inj : {P A : Type 0} (x y : A) → ◌≡◌ {A = Result P A} (ok x) (ok y) → x ≡ y
ok_inj x y h = ground (arith, h)

err_ok : {P A : Type 0} (x : P) (y : A) → ◌≡◌ {A = Result P A} (err x) (ok y) → ⊥
err_ok x y h = cc

module _ {P E R V : Type 0} where
  after_send-ok :
      (r : Option (Result (Message.Error E R) MessageModel × V)) (w : V)
      → ◌≡◌ {A = Option (Result (Failure P E R) (Unit {0}) × V)} (after_send r) (some (ok tt, w))
      → (m : MessageModel) × (r ≡ some (ok m, w))
  unfolding after_send
  after_send-ok none w h = cc
  after_send-ok (some (ok m, v)) w h = (m, (let e : v ≡ w = cc in rw e refl))
  after_send-ok (some (err e, v)) w h = cc

module _ {D S E R P : Type 0} (users : IUserRepository D E) (guilds : IGuildRepository D E)
    (messages : IMessageRepository D E) (server : Server S R) (codec : Codec P) where
  on_unmarshal-ok :
      (w w' : World D S) (now : Times) (r : Result P (Unit {0})) (msg : WsMessage)
      → on_unmarshal users guilds messages server codec w now (r, msg) ≡ some (ok tt, w')
      → (m : MessageModel) × (send_message users guilds messages server codec w msg.user_id
            msg.guild_id msg.content now
          ≡ some (ok m, w'))
  unfolding on_unmarshal
  on_unmarshal-ok w w' now (ok u) msg h = after_send-ok {P = P} _ w' h
  on_unmarshal-ok w w' now (err e) msg h = cc

  -- The bytes that go out to Redis, and the message that they are.
  pushed-ok :
      (w w' : World D S) (now : Times) (msg : WsMessage) (m : MessageModel)
      → Sent users guilds messages server codec w msg.user_id msg.guild_id msg.content now m w'
      → (doc : DocumentedCodec codec) → doc.IsText msg.content
      → (pushed : Bytes) × (copy : WsMessage) × (codec.marshal copy ≡ ok pushed)
        × (copy.content ≡ m.content)
        × (copy.user_id ≡ m.user_id)
        × (copy.guild_id ≡ m.guild_id)
        × (w'.redis
            ≡ (server.publish
                (generate_seq_id server w.redis msg.guild_id).1
                ("guild:" +++ m.guild_id)
                pushed).1)
  unfolding publish
  pushed-ok w w' now msg m sent doc is_text =
      let p = sent.published in
      let (pushed, e) =
        doc.marshals p.copy (subst doc.IsText (sym (p.content ∙ sent.same_content)) is_text) in
      (
        pushed,
        p.copy,
        e,
        p.content,
        p.user_id,
        p.guild_id,
        elim p.sent [
          | inl (out, is, went_out) ↦
              let same : out ≡ pushed = ok_inj out pushed (sym (p.made ∙ is) ∙ e) in
              rw (← same) went_out
          | inr (x, is, unsent) ↦ absurd (err_ok x pushed (sym (p.made ∙ is) ∙ e))
        ],
      )

  module _ {K X : Type 0} (sarama : Sarama K X) (topic : String) (log : Documented sarama)
      (doc : DocumentedCodec codec) where
    -- A message that a user sends reaches the others: where the gateway acknowledges it and the
    -- consumer has handled it, it is saved once, with the content that the client's bytes have in
    -- protobuf or JSON, the connection's user, who is a member of its guild, and the connection's
    -- guild, if it has one; a message with that content, user and guild is published for the guild;
    -- and a gateway that gets what was published pushes it to every connection of that guild that
    -- its map has, unless its buffer is full, and to no other, while no other goroutine interferes.
    pub sent-delivered :
        {W T V : Type 0} (k k' : K) (conn : Connection W) (bytes : Bytes) (now : ℕ) (later : Times)
        (p : ProducerMessage) (cm : ConsumerMessage) (w w' : World D S) (g : Manager T V)
        (u : String) (ref : ℕ) (c : Connection V)
        → handle_upstream_message sarama codec topic k conn bytes now ≡ (ok tt, k')
        → log.log k' ≡ log.log k ++ p ∷ []
        → cm.value ≡ p.value
        → consumer_handler users guilds messages server codec w cm later ≡ some (ok tt, w')
        → IsWellFormed g
        → get_connection g u ≡ some ref
        → get_elem? g.heap ref ≡ some c
        → (m : MessageModel) × (pushed : Bytes) × (n : ℕ) × (heap : List (Connection V))
          × (read : WsMessage) × (copy : WsMessage) × IsRead codec bytes read
          × (m.content ≡ read.content)
          × (m.user_id ≡ conn.user_id)
          × ((conn.guild_id ≡ "") ⊎ (m.guild_id ≡ conn.guild_id))
          × (is_member guilds w.db m.user_id m.guild_id ≡ ok true)
          × (messages.create w.db m ≡ (ok tt, w'.db))
          × (w'.redis
              ≡ (server.publish
                  (generate_seq_id server w.redis m.guild_id).1
                  ("guild:" +++ m.guild_id)
                  pushed).1)
          × (codec.unmarshal pushed ≡ (ok tt, copy))
          × (copy.content ≡ m.content)
          × (copy.user_id ≡ m.user_id)
          × (copy.guild_id ≡ m.guild_id)
          × (handle_downstream_message codec (λ r h. h) g pushed ≡ some (ok n, heap))
          × (get_elem? heap ref
              ≡ some (if str_eq c.guild_id m.guild_id then delivered pushed c else c))
    unfolding consumer_handler
    sent-delivered k k' conn bytes now later p cm w w' g u ref c up logged same down v entry
          placed =
        let (msg, out, at, from, made, answer, (read, parsed, content)) =
          handle_upstream_message-acknowledged sarama codec topic k k' conn bytes now up in
        let eq : p.value ≡ out =
          ap (λ (q : ProducerMessage). q.value)
            (last_inj (log.log k) p _ (sym logged ∙ log.appends k _ at k' answer)) in
        let back = doc.round_trip msg out made in
        let (m, went) = on_unmarshal-ok w w' later (ok tt) msg (rw (same, eq, back) at down) in
        let sent =
          send_message-Sent users guilds messages server codec w w' msg.user_id msg.guild_id
            msg.content later m went in
        let (pushed, copy, e, copied, user, guild, published) =
          pushed-ok w w' later msg m sent doc (doc.texts msg out made) in
        let (n, heap, got, there) =
          handle_downstream_message-delivered codec g pushed pushed copy u ref c v
            (doc.round_trip copy pushed e) e entry placed in
        (
          m,
          pushed,
          n,
          heap,
          read,
          copy,
          parsed,
          sent.same_content ∙ content,
          sent.user ∙ from.user,
          elim from.guild [ inl none_set ↦ inl none_set | inr own ↦ inr (sent.guild ∙ own) ],
          rw (sent.user, sent.guild) sent.member,
          sent.is_saved,
          subst
              (λ guild_id.
                w'.redis
                ≡ (server.publish (generate_seq_id server w.redis guild_id).1
                    ("guild:" +++ m.guild_id) pushed).1)
              (sym sent.guild) published,
          doc.round_trip copy pushed e,
          copied,
          user,
          guild,
          got,
          subst
              (λ guild_id.
                get_elem? heap ref
                ≡ some (if str_eq c.guild_id guild_id then delivered pushed c else c))
              guild there,
        )
