-- ===== src/Gateway/Pumps.antt =====
-- The loops of internal/pkg/gateway/handler.go: writePump, readPump and receiveMessages. A round is
-- what one select or one read makes of the state; which case a select takes, and what other
-- goroutines do between the rounds, is given. Times are in nanoseconds. Deadlines of the socket are
-- not modelled.
pub mod Writing
pub mod Reading
mod Examples
use chat_room.Prelude.{
  ◌/◌, ℕ, suc, String, Bool, true, false, Option, none, some, List, [], ◌∷◌, if◌then◌else◌, Result,
  ok, err, get_elem?, set,
}
use chat_room.Redis.{Server}
use chat_room.Kafka.Producer.{Sarama}
use chat_room.Kafka.Producer
use chat_room.Gateway.Connection.{
  Bytes, Socket, Connection, MessageType, text, binary, close, ping, WriteError, write_message,
  close_connection, update_heartbeat, try_send, queued, blocks, panics, Sent,
}
use chat_room.Gateway.Manager.{Manager}
use chat_room.Gateway.Handler
use chat_room.Gateway.Handler.{
  WsMessage, Kind, Codec, push, handle_upstream_message, handle_downstream_message,
  handle_disconnect,
}

-- The case of writePump's select.
pub data Choice : Type 0 where
  done_case receive_case tick_case : Choice

-- A round that loops, one that returns, and a case that is not ready.
pub data Round (W : Type 0) : Type 0 where
  loops stops : Connection W → Round W
  waits : Round W

module _ {W E : Type 0} (socket : Socket W E) where
  after_write : Result (WriteError E) (Unit {0}) × Connection W → Round W
  after_write (ok u, c) = loops c
  after_write (err e, c) = stops c

  -- A receive takes the first message, and from an empty closed channel it returns at once.
  receive : Connection W → List Bytes → Round W
  unfolding after_write
  receive c (m ∷ ms) =
      after_write
        (write_message socket (record c { send = record c.send { buffer = ms } }) binary m)
  receive c [] = if c.send.closed then stops (write_message socket c close []).1 else waits

  unfoldable pub write_round : Connection W → Choice → Round W
  unfolding receive after_write
  write_round c done_case = if c.done then stops c else waits
  write_round c receive_case = receive c c.send.buffer
  write_round c tick_case = after_write (write_message socket c ping [])

-- What the reader's goroutine works on.
pub record Gateway (S W K : Type 0) : Type 0 where
  pub manager : Manager S W
  pub kafka : K

-- What ReadMessage gives; a pong runs the pong handler within it.
pub data Read : Type 0 where
  received : MessageType → Bytes → Read
  pong failed : Read

-- How readPump goes on: with the next round, or by its return, which runs handleDisconnect; a panic
-- ends the process.
pub data ReadRound (S W K : Type 0) : Type 0 where
  reads ended : Gateway S W K → ReadRound S W K
  panicked : ReadRound S W K

module _ {S W K : Type 0} where
  -- conn.UpdateHeartbeat() through the pointer
  beat : Gateway S W K → ℕ → ℕ → Gateway S W K
  beat g ref now = elim (get_elem? g.manager.heap ref) [
    | none ↦ g
    | some c ↦ record g {
      manager = record g.manager { heap = set g.manager.heap ref (update_heartbeat c now) };
    }
  ]

  after_push : Gateway S W K → Option (Bool × List (Connection W)) → ReadRound S W K
  after_push g none = panicked
  after_push g (some (sent, heap)) = reads (record g { manager = record g.manager { heap = heap } })

-- The message of sendError, whose time is in seconds.
error_message : Bytes → ℕ → WsMessage
error_message content now = record {
  message_id = "";
  user_id = "";
  guild_id = "";
  content = content;
  seq_id = 0;
  timestamp = now / 1000000000;
  kind = Kind.system;
  username = "";
}

module _ {S W K P X : Type 0} (codec : Codec P)
    (describe : Handler.Error P (Producer.Error X) → Bytes) where
  send_bytes : Gateway S W K → ℕ → Result P Bytes → ReadRound S W K
  unfolding after_push
  send_bytes g ref (err e) = reads g
  send_bytes g ref (ok bytes) = after_push g (push g.manager.heap ref bytes)

  -- sendError, with the text of the error.
  pub send_error : Gateway S W K → ℕ → Bytes → ℕ → ReadRound S W K
  unfolding send_bytes error_message
  send_error g ref content now = send_bytes g ref (codec.marshal (error_message content now))

  -- After the handler of a message: its error is sent to the client.
  after_upstream :
      Gateway S W K
      → ℕ
      → ℕ
      → Result (Handler.Error P (Producer.Error X)) (Unit {0}) × K
      → ReadRound S W K
  unfolding send_error
  after_upstream g ref now (ok u, k) = reads (record g { kafka = k })
  after_upstream g ref now (err e, k) = send_error (record g { kafka = k }) ref (describe e) now

module _ {S W K E F P X : Type 0} (server : Server S E) (socket : Socket W F) (sarama : Sarama K X)
    (codec : Codec P) (topic : String) (describe : Handler.Error P (Producer.Error X) → Bytes) where
  on_message : Gateway S W K → ℕ → ℕ → Connection W → MessageType → Bytes → ReadRound S W K
  unfolding after_upstream beat
  on_message g ref now c text bytes =
      after_upstream codec describe g ref now
        (handle_upstream_message sarama codec topic g.kafka c bytes (now / 1000000))
  on_message g ref now c binary bytes =
      after_upstream codec describe g ref now
        (handle_upstream_message sarama codec topic g.kafka c bytes (now / 1000000))
  on_message g ref now c ping bytes = reads (beat g ref now)
  on_message g ref now c close bytes = reads g

  on_read : Gateway S W K → ℕ → ℕ → Connection W → Read → ReadRound S W K
  unfolding on_message
  on_read g ref now c (received type bytes) = on_message g ref now c type bytes
  on_read g ref now c pong = reads (beat g ref now)
  on_read g ref now c failed = ended g

  -- A round of readPump, which returns first where the connection's context is done.
  pub read_round : Gateway S W K → ℕ → ℕ → Read → ReadRound S W K
  unfolding on_read
  read_round g ref now r = elim (get_elem? g.manager.heap ref) [
    | none ↦ ended g
    | some c ↦ if c.done then ended g else on_read g ref now c r
  ]

  disconnect : Gateway S W K → ℕ → Gateway S W K
  disconnect g ref = record g { manager = handle_disconnect server socket g.manager ref }

  -- readPump over what the socket gives; where that ends, it waits in ReadMessage. `others` is what
  -- other goroutines do before each round, and `time` the time of a round.
  pub read_pump :
      (ℕ → Gateway S W K → Gateway S W K)
      → (ℕ → ℕ)
      → Gateway S W K
      → ℕ
      → ℕ
      → List Read
      → ReadRound S W K
  unfolding read_round disconnect
  read_pump others time g ref i [] = reads g
  read_pump others time g ref i (r ∷ rs) = elim (read_round (others i g) ref (time i) r) [
    | reads g' ↦ read_pump others time g' ref (suc i) rs
    | ended g' ↦ ended (disconnect g' ref)
    | panicked ↦ panicked
  ]

module _ {S W P : Type 0} (codec : Codec P)
    (others : ℕ → List (Connection W) → List (Connection W)) where
  -- receiveMessages over the messages of the subscription; none is a panic. Errors are only logged.
  pub receive_messages : Manager S W → List Bytes → Option (Manager S W)
  receive_messages m [] = some m
  receive_messages m (payload ∷ rest) = elim (handle_downstream_message codec others m payload) [
    | none ↦ none
    | some (r, heap) ↦ receive_messages (record m { heap = heap }) rest
  ]
