-- ===== src/Main/Examples.antt =====
-- The way of one message, over an instance of every parameter.
use Prim.Native.String.{◌++◌ as ◌+++◌}
use chat_room.Prelude.{
  ℕ, ◌+◌, ◌*◌, ◌≡◌, ◌⊎◌, refl, sym, ap, ◌≢◌, eq_iff, String, true, false, Result, some, List, [],
  ◌∷◌, ◌++◌, length, ok, err, str_eq, get_elem?, if◌then◌else◌,
}
use chat_room.Prelude.Dict.{Dict, lookup, insert}
use chat_room.Prelude.Utf8.{bytes_of}
use chat_room.Redis.{generate_seq_id, publish}
use chat_room.Redis.Memory.{memory}
use chat_room.Snowflake.{next_id, compose}
use chat_room.Kafka.Producer.{ProducerMessage, Sarama, produce}
use chat_room.Kafka.Consumer.{ConsumerMessage}
use chat_room.Gateway.Connection.{Bytes, Socket, Connection, new_channel, new_connection}
use chat_room.Gateway.Manager.{Manager, new_connection_manager, get_connection, add_connection}
use chat_room.Gateway.Manager.Invariant.{adds, run, step, run-new-IsWellFormed}
use chat_room.Gateway.Handler.{WsMessage, Kind, handle_upstream_message, handle_downstream_message}
use chat_room.Gateway.Handler.Upstream.{IsRead}
use chat_room.Gateway.Handler.Downstream.{delivered}
use chat_room.Gateway.Wire.{wire, wire-Documented}
use chat_room.Services.Guild.{is_member}
use chat_room.Services.Message.{MessageModel, send_message}
use chat_room.Services.Message.Samples.{at, users, guilds, messages, world, hello}
use chat_room.Jwt.{parse_token, second}
use chat_room.Jwt.Single
use chat_room.Jwt.Single.{manager, single, checked}
use chat_room.Http.{Context, returned}
use chat_room.Http.Sample.{request}
use chat_room.Main.{consumer_handler, serve_ws}
use chat_room.Main.Sockets.{serve_ws-delivered}
use chat_room.Main.Delivery.{Documented, sent-delivered}

abbrev log : Sarama (List ProducerMessage) (Unit {0})
log = record { send_message = λ k m. (ok (0, length k), k ++ m ∷ []) }

abbrev log_documented : Documented log
log_documented = record { log = λ k. k; appends = λ k p at k' e. sym (ap (λ q. q.1) e) }

abbrev counting : Socket ℕ (Unit {0})
counting = record { write_message = λ w type bytes. (ok tt, w + 1); close = λ w. (ok tt, w) }

-- Ann's connection to one gateway, and another gateway, where Bob is.
abbrev ann : Connection ℕ
ann = record {
  user_id = "ann";
  guild_id = "g1";
  conn = 0;
  send = new_channel;
  last_heartbeat = 1000;
  done = false;
  closed = false;
}

abbrev bob : Connection ℕ
bob = record ann { user_id = "bob" }

abbrev other_gateway : Manager (Dict String) ℕ
other_gateway =
    run memory counting (new_connection_manager [] 30 "node") (adds "bob" "g1" 0 1000 ∷ [])

-- What Ann sends, who claims to be Eve, and what the gateway makes of it.
abbrev forged : WsMessage
forged = record {
  message_id = "";
  user_id = "eve";
  guild_id = "g1";
  content = 104 ∷ 105 ∷ [];
  seq_id = 0;
  timestamp = 0;
  kind = Kind.text;
  username = "";
}

abbrev written : Result (Unit {0}) Bytes → Bytes
written (ok bytes) = bytes
written (err e) = []

abbrev stamped : ProducerMessage
stamped = record {
  topic = "messages";
  key = some (bytes_of "g1");
  value = written (wire.marshal (record forged { user_id = "ann"; timestamp = 1 }));
}

abbrev consumed : ConsumerMessage
consumed = record {
  topic = "messages";
  partition = 0;
  offset = 0;
  key = stamped.key;
  value = stamped.value;
}

acknowledged :
    handle_upstream_message log wire "messages" [] ann (written (wire.marshal forged)) 1
    ≡ (ok tt, stamped ∷ [])
unfolding handle_upstream_message wire produce
acknowledged = refl

handled :
    consumer_handler users guilds messages memory wire
      (world [] 1000 (1042 ∷ []))
      consumed
      (at 1042)
    ≡ some (ok tt, world (hello ∷ []) 1042 [])
unfolding consumer_handler wire memory send_message is_member next_id compose generate_seq_id
    publish
handled = refl

sent-delivered_example :
    (m : MessageModel) × (pushed : Bytes) × (n : ℕ) × (heap : List (Connection ℕ))
    × (read : WsMessage) × (copy : WsMessage) × IsRead wire (written (wire.marshal forged)) read
    × (m.content ≡ read.content)
    × (m.user_id ≡ "ann")
    × ((ann.guild_id ≡ "") ⊎ (m.guild_id ≡ "g1"))
    × (is_member guilds [] m.user_id m.guild_id ≡ ok true)
    × (messages.create [] m ≡ (ok tt, hello ∷ []))
    × ([]
        ≡ (memory.publish
            (generate_seq_id memory [] m.guild_id).1
            ("guild:" +++ m.guild_id)
            pushed).1)
    × (wire.unmarshal pushed ≡ (ok tt, copy))
    × (copy.content ≡ m.content)
    × (copy.user_id ≡ m.user_id)
    × (copy.guild_id ≡ m.guild_id)
    × (handle_downstream_message wire (λ r h. h) other_gateway pushed ≡ some (ok n, heap))
    × (get_elem? heap 0
        ≡ some (if str_eq bob.guild_id m.guild_id then delivered pushed bob else bob))
unfolding get_connection lookup run step add_connection new_connection_manager insert memory
    new_connection
sent-delivered_example =
    sent-delivered users guilds messages memory wire log "messages" log_documented wire-Documented
      [] (stamped ∷ []) ann (written (wire.marshal forged)) 1 (at 1042) stamped consumed
      (world [] 1000 (1042 ∷ [])) (world (hello ∷ []) 1042 []) other_gateway "bob" 0 bob
      acknowledged refl refl handled
      (run-new-IsWellFormed memory counting [] 30 "node" (adds "bob" "g1" 0 1000 ∷ [])) refl refl

-- Ann asks for the messages of a guild that she is not in.
abbrev listening : Context
listening = record request { query = λ k. if str_eq k "token" then "token" else "g2" }

abbrev secret : WsMessage
secret = record forged { guild_id = "g2" }

token_given : listening.query "token" ≢ ""
token_given e = (let k = (eq_iff "token" "").1 e in cc)

accepted : parse_token single manager (50 * second) (listening.query "token") ≡ ok Single.ann
unfolding parse_token single checked
accepted = refl

abbrev empty_gateway : Manager (Dict String) ℕ
empty_gateway = run memory counting (new_connection_manager [] 30 "node") []

abbrev upgraded : Result (Unit {0}) ℕ
upgraded = ok 0

wire_secret : wire.marshal secret ≡ ok (written (wire.marshal secret))
unfolding wire
wire_secret = refl

serve_ws-delivered_example :
    (m' : Manager (Dict String) ℕ) × (ref : ℕ) × (n : ℕ) × (heap' : List (Connection ℕ)) × (serve_ws
        memory counting single manager empty_gateway listening
        (50 * second)
        1000
        upgraded
      ≡ returned m' listening)
    × (get_connection m' Single.ann.user_id ≡ some ref)
    × (handle_downstream_message wire (λ r heap. heap) m' (written (wire.marshal secret))
        ≡ some (ok n, heap'))
    × (get_elem? heap' ref
        ≡ some (
            delivered (written (wire.marshal secret)) (
              new_connection empty_gateway.done Single.ann.user_id
                (listening.query "guild_id")
                0
                1000)))
serve_ws-delivered_example =
    serve_ws-delivered memory counting single manager wire empty_gateway listening (50 * second)
      1000 Single.ann upgraded 0 (written (wire.marshal secret)) (written (wire.marshal secret))
      secret (run-new-IsWellFormed memory counting [] 30 "node" []) token_given accepted refl
      (wire-Documented.round_trip secret (written (wire.marshal secret)) wire_secret) wire_secret
      refl
