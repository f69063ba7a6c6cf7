-- ===== src/Gateway/Examples.antt =====
-- A gateway with three users in two guilds, on sockets that count what is written to them.
use mathlib.Core.Path.{subst}
use chat_room.Redis.{set_user_online}
use chat_room.Prelude.{
  ℕ, suc, ◌≡◌, refl, String, true, false, none, some, List, [], ◌∷◌, ◌++◌, arith, ok, err,
  get_elem?, inl, inr, if◌then◌else◌, str_eq, length,
}
use chat_room.Prelude.Dict.{Dict, lookup, insert}
use chat_room.Prelude.Utf8.{bytes_of}
use chat_room.Redis.Memory.{memory}
use chat_room.Kafka.Producer.{ProducerMessage, Sarama, produce}
use chat_room.Gateway.Connection.{
  Bytes, Socket, Connection, new_connection, new_channel, close_connection, is_alive,
}
use chat_room.Gateway.Manager.{
  Manager, new_connection_manager, get_connection, add_connection, close_at, check_heartbeats,
}
use chat_room.Gateway.Manager.Invariant.{IsWellFormed, Call, adds, step, run, run-new-IsWellFormed}
use chat_room.Gateway.Manager.Heartbeats.{check_heartbeats-get_connection}
use chat_room.Gateway.Handler.{
  WsMessage, Codec, Kind, handle_upstream_message, push_all, handle_downstream_message,
  handle_disconnect,
}
use chat_room.Gateway.Handler.Upstream.{IsFrom, handle_upstream_message-IsFrom}
use chat_room.Gateway.Handler.Downstream.{
  Closed, delivered, push_all-Closed, handle_downstream_message-delivered,
}
use chat_room.Gateway.Handler.Disconnect.{handle_disconnect-replaced}

abbrev counting : Socket ℕ (Unit {0})
counting = record { write_message = λ w type bytes. (ok tt, suc w); close = λ w. (ok tt, w) }

abbrev connection : String → String → Connection ℕ
connection user_id guild_id = record {
  user_id = user_id;
  guild_id = guild_id;
  conn = 0;
  send = new_channel;
  last_heartbeat = 1000;
  done = false;
  closed = false;
}

-- The calls that lead to a manager with three users.
abbrev joins : List (Call ℕ)
joins = adds "ann" "g1" 0 1000 ∷ adds "bob" "g1" 0 1000 ∷ adds "cat" "g2" 0 1000 ∷ []

abbrev joined : Manager (Dict String) ℕ
joined = record {
  connections = ("ann", 0) ∷ ("bob", 1) ∷ ("cat", 2) ∷ [];
  heap = connection "ann" "g1" ∷ connection "bob" "g1" ∷ connection "cat" "g2" ∷ [];
  redis =
      ("user:ann:online", "node") ∷ ("user:bob:online", "node") ∷ ("user:cat:online", "node") ∷ [];
  heartbeat_interval = 30;
  node_id = "node";
  done = false;
}

run-new-IsWellFormed_example :
    IsWellFormed (run memory counting (new_connection_manager [] 30 "node") joins)
run-new-IsWellFormed_example = run-new-IsWellFormed memory counting [] 30 "node" joins

run-joins : run memory counting (new_connection_manager [] 30 "node") joins ≡ joined
unfolding run step new_connection_manager add_connection insert lookup memory new_connection
    set_user_online
run-joins = refl

joined-IsWellFormed : IsWellFormed joined
joined-IsWellFormed = subst IsWellFormed run-joins run-new-IsWellFormed_example

abbrev ann_closed : Connection ℕ
ann_closed = record (connection "ann" "g1") {
  closed = true;
  done = true;
  send = record { buffer = []; closed = true };
}

check_heartbeats-get_connection_example :
    get_connection (check_heartbeats memory counting joined (λ ref. 1500) 600) "cat"
    ≡ (if is_alive (connection "cat" "g2") 1500 600 then some 2 else none)
unfolding get_connection lookup
check_heartbeats-get_connection_example =
    check_heartbeats-get_connection memory counting joined (λ ref. 1500) 600 "cat" 2
      (connection "cat" "g2") joined-IsWellFormed refl refl

-- Ann has opened a second window, whose connection is at place 3.
abbrev rejoined : Manager (Dict String) ℕ
rejoined = record joined {
  connections = ("ann", 3) ∷ ("bob", 1) ∷ ("cat", 2) ∷ [];
  heap = ann_closed ∷ connection "bob" "g1" ∷ connection "cat" "g2" ∷ connection "ann" "g1" ∷ [];
}

run-rejoined : run memory counting joined (adds "ann" "g1" 0 1000 ∷ []) ≡ rejoined
unfolding run step add_connection insert lookup memory close_at set_user_online close_connection
    new_connection
run-rejoined = refl

handle_disconnect-replaced_example :
    let m' = handle_disconnect memory counting rejoined 0 in
    (get_connection m' "ann" ≡ none)
    × (get_elem? m'.heap 3 ≡ some (close_connection counting (connection "ann" "g1")).1)
unfolding get_connection lookup
handle_disconnect-replaced_example =
    handle_disconnect-replaced memory counting rejoined 0 3 ann_closed (connection "ann" "g1") refl
      refl refl (λ e. absurd (omega arith))

abbrev hello : WsMessage
hello = record {
  message_id = "1";
  user_id = "bob";
  guild_id = "g1";
  content = 104 ∷ 105 ∷ [];
  seq_id = 7;
  timestamp = 0;
  kind = Kind.text;
  username = "Bob";
}

-- A codec for which every payload is the same message.
abbrev fixed : Codec (Unit {0})
fixed = record {
  unmarshal = λ bytes. (ok tt, hello);
  unmarshal_json = λ msg bytes. (err tt, msg);
  marshal = λ msg. ok msg.content;
}

abbrev log : Sarama (List ProducerMessage) (Unit {0})
log = record { send_message = λ k m. (ok (0, length k), k ++ m ∷ []) }

handle_upstream_message-IsFrom_example :
    (msg : WsMessage) × (out : Bytes) × IsFrom (connection "ann" "g1") 2000 msg
    × (fixed.marshal msg ≡ ok out)
    × ((record { topic = "messages"; key = some (bytes_of "g1"); value = 104 ∷ 105 ∷ [] } ∷ [])
        ≡ (log.send_message []
            (record { topic = "messages"; key = some (bytes_of msg.guild_id); value = out })).1)
unfolding handle_upstream_message produce
handle_upstream_message-IsFrom_example =
    handle_upstream_message-IsFrom log fixed "messages" []
      (record { topic = "messages"; key = some (bytes_of "g1"); value = 104 ∷ 105 ∷ [] } ∷ [])
      (connection "ann" "g1") (1 ∷ []) 2000 refl

push_all-Closed_example : push_all (λ r heap. heap) (1 ∷ []) rejoined.heap (1 ∷ 0 ∷ []) 0 ≡ none
unfolding Closed
push_all-Closed_example =
    push_all-Closed (1 ∷ []) (λ r heap. heap) rejoined.heap (1 ∷ 0 ∷ []) 0 0 (λ r heap h. h)
      (ann_closed, refl, refl) (inr (inl refl))

handle_downstream_message-delivered_example :
    (n : ℕ) × (heap' : List (Connection ℕ)) × (handle_downstream_message fixed
        (λ r heap. heap)
        joined
        (1 ∷ [])
      ≡ some (ok n, heap'))
    × (get_elem? heap' 1
        ≡ some (
            if str_eq "g1" "g1"
            then delivered (104 ∷ 105 ∷ []) (connection "bob" "g1")
            else connection "bob" "g1"))
unfolding get_connection lookup
handle_downstream_message-delivered_example =
    handle_downstream_message-delivered fixed joined (1 ∷ []) (104 ∷ 105 ∷ []) hello "bob" 1
      (connection "bob" "g1") joined-IsWellFormed refl refl refl refl
