-- ===== src/Grpc/Gateway/Examples.antt =====
-- A broadcast to a guild of two, of which one is excluded.
use chat_room.Prelude.{
  ℕ, ◌+◌, ◌≡◌, ◌≢◌, refl, eq_iff, arith, String, false, some, List, [], ◌∷◌, if◌then◌else◌, str_eq,
  ok, err, get_elem?,
}
use chat_room.Prelude.Dict.{Dict, lookup, insert}
use chat_room.Redis.Memory.{memory}
use chat_room.Gateway.Connection.{Socket, Connection, new_channel, new_connection}
use chat_room.Gateway.Manager.{
  Manager, new_connection_manager, add_connection, get_connection, get_connections_by_guild,
}
use chat_room.Gateway.Manager.Invariant.{adds, run, step, run-new-IsWellFormed}
use chat_room.Gateway.Handler.{WsMessage, Kind, Codec}
use chat_room.Grpc.Gateway.{Broadcast, broadcast_to_guild}
use chat_room.Grpc.Gateway.Counts.{reported, wanted, written, broadcast_to_guild-written}

abbrev counting : Socket ℕ (Unit {0})
counting = record { write_message = λ w type bytes. (ok tt, w + 1); close = λ w. (ok tt, w) }

abbrev message : WsMessage
message = record {
  message_id = "1";
  user_id = "eve";
  guild_id = "g1";
  content = 104 ∷ [];
  seq_id = 1;
  timestamp = 0;
  kind = Kind.text;
  username = "Eve";
}

abbrev codec : Codec (Unit {0})
codec = record {
  unmarshal = λ bytes. (err tt, message);
  unmarshal_json = λ msg bytes. (err tt, msg);
  marshal = λ msg. ok msg.content;
}

abbrev gateway : Manager (Dict String) ℕ
gateway =
    run memory counting (new_connection_manager [] 30 "node")
      (adds "ann" "g1" 0 1000 ∷ adds "bob" "g1" 0 1000 ∷ [])

abbrev bob : Connection ℕ
bob = record {
  user_id = "bob";
  guild_id = "g1";
  conn = 0;
  send = new_channel;
  last_heartbeat = 1000;
  done = false;
  closed = false;
}

named : ◌≢◌ {A = String} "g1" ""
named e = (let k = (eq_iff "g1" "").1 e in cc)

broadcast_to_guild-written_example :
    (b : Broadcast) × (heap : List (Connection ℕ)) × (broadcast_to_guild counting codec
        (λ e. "bad")
        gateway
        "g1"
        (some message)
        ("ann" ∷ [])
      ≡ (ok b, record gateway { heap = heap }))
    × (reported b
        ≡ wanted counting
            ("ann" ∷ [])
            (104 ∷ [])
            gateway.heap
            (get_connections_by_guild gateway "g1"))
    × (get_elem? heap 1
        ≡ some (
            if str_eq bob.guild_id "g1" then written counting ("ann" ∷ []) (104 ∷ []) bob else bob))
unfolding get_connection lookup run step add_connection new_connection_manager insert memory
    new_connection get_connections_by_guild
broadcast_to_guild-written_example =
    broadcast_to_guild-written counting codec (λ e. "bad") gateway "g1" message ("ann" ∷ [])
      (104 ∷ []) "bob" 1 bob
      (run-new-IsWellFormed memory counting [] 30 "node"
        (adds "ann" "g1" 0 1000 ∷ adds "bob" "g1" 0 1000 ∷ []))
      named refl (omega arith) refl refl
