-- ===== src/Gateway/Pumps/Reading/Examples.antt =====
-- A readPump over a log of the messages sent: a message that names another user, a close frame and
-- the end of the socket.
use chat_room.Prelude.{
  ℕ, ◌+◌, ◌≡◌, refl, String, false, some, List, [], ◌∷◌, ◌++◌, length, Result, ok, err, All,
}
use chat_room.Prelude.Dict.{Dict}
use chat_room.Prelude.Utf8.{bytes_of}
use chat_room.Redis.Memory.{memory}
use chat_room.Kafka.Producer.{ProducerMessage, Sarama, produce}
use chat_room.Kafka.Producer
use chat_room.Gateway.Connection.{Bytes, Socket, Connection, text, close, new_channel}
use chat_room.Gateway.Manager.{new_connection_manager}
use chat_room.Gateway.Handler.{WsMessage, Kind, Error}
use chat_room.Gateway.Wire.{wire, wire-Documented}
use chat_room.Gateway.Pumps.{Gateway, received, failed, ReadRound, read_pump}
use chat_room.Gateway.Pumps.Reading.{IsOf, Kept, read_pump-Kept}

abbrev log : Sarama (List ProducerMessage) (Unit {0})
log = record { send_message = λ k m. (ok (0, length k), k ++ m ∷ []) }

abbrev counting : Socket ℕ (Unit {0})
counting = record { write_message = λ w type bytes. (ok tt, w + 1); close = λ w. (ok tt, w) }

abbrev ann : Connection ℕ
ann = record {
  user_id = "ann";
  guild_id = "g1";
  conn = 0;
  send = new_channel;
  last_heartbeat = 1000;
  done = false;
  closed = false;
}

abbrev gateway : Gateway (Dict String) ℕ (List ProducerMessage)
gateway = record {
  manager = record (new_connection_manager [] 30 "node") {
    heap = ann ∷ [];
    connections = ("ann", 0) ∷ [];
  };
  kafka = [];
}

abbrev forged : WsMessage
forged = record {
  message_id = "";
  user_id = "eve";
  guild_id = "g1";
  content = 104 ∷ 105 ∷ [];
  seq_id = 0;
  timestamp = 0;
  kind = Kind.text;
  username = "";
}

abbrev written : Result (Unit {0}) Bytes → Bytes
written (ok bytes) = bytes
written (err e) = []

abbrev described : Error (Unit {0}) (Producer.Error (Unit {0})) → Bytes
described e = 101 ∷ []

-- Every message of the log is one of Ann's, for her guild.
abbrev Hers : List ProducerMessage → Type 0
Hers k = All (λ p. (m : WsMessage) × (wire.unmarshal p.value ≡ (ok tt, m)) × IsOf "ann" "g1" m) k

Hers-append :
    (k : List ProducerMessage) (msg : WsMessage) (out : Bytes)
    → IsOf "ann" "g1" msg
    → wire.marshal msg ≡ ok out
    → Hers k
    → Hers
        (k ++ record { topic = "messages"; key = some (bytes_of msg.guild_id); value = out } ∷ [])
Hers-append [] msg out of made h = ((msg, wire-Documented.round_trip msg out made, of), tt)
Hers-append (p ∷ k) msg out of made (a, h) = (a, Hers-append k msg out of made h)

abbrev after : ReadRound (Dict String) ℕ (List ProducerMessage)
after =
    read_pump memory counting log wire "messages" described (λ i g. g) (λ i. 1000000 + i) gateway 0
      0 (received text (written (wire.marshal forged)) ∷ received close [] ∷ failed ∷ [])

read_pump-Kept_example : Kept Hers 0 "ann" "g1" after
read_pump-Kept_example =
    read_pump-Kept memory counting log wire "messages" described Hers 0 "ann" "g1" Hers-append
      (λ i g. g) (λ i. 1000000 + i) (λ i g h. h) (λ i g q. q)
      (received text (written (wire.marshal forged)) ∷ received close [] ∷ failed ∷ []) gateway 0
      (ann, refl, refl, refl) tt
