-- ===== src/Gateway/Connection.antt =====
-- internal/pkg/gateway/connection.go. The gorilla/websocket connection is the parameter `Socket`.
-- Each method holds its mutex throughout, so a call is one step. Times are in nanoseconds.
pub mod Lifecycle
use chat_room.Prelude.{
  ℕ, ◌+◌, String, Bool, true, false, List, [], ◌∷◌, ◌++◌, ltb, if◌then◌else◌, Result, ok, err,
  length,
}

-- A message that is sent or received, as bytes.
abbrev pub Bytes : Type 0
Bytes = List ℕ

pub data MessageType : Type 0 where
  text binary close ping : MessageType

-- The methods of *websocket.Conn that the sources call, over its state W.
pub record Socket (W E : Type 0) : Type 0 where
  pub write_message : W → MessageType → Bytes → Result E (Unit {0}) × W
  pub close : W → Result E (Unit {0}) × W

-- A Go channel with a buffer.
pub record Channel : Type 0 where
  pub buffer : List Bytes
  pub closed : Bool

-- make(chan []byte, 256)
abbrev pub capacity : ℕ
capacity = 256

abbrev pub new_channel : Channel
new_channel = record { buffer = []; closed = false }

-- What a send does at once: Go panics on a closed channel, and a full one blocks.
pub data Sent : Type 0 where
  queued : Channel → Sent
  blocks panics : Sent

unfoldable pub try_send : Channel → Bytes → Sent
try_send c message =
    if c.closed
    then panics
    else if ltb (length c.buffer) capacity
    then queued (record c { buffer = c.buffer ++ message ∷ [] })
    else blocks

pub record Connection (W : Type 0) : Type 0 where
  pub user_id : String
  pub guild_id : String
  pub conn : W
  pub send : Channel
  pub last_heartbeat : ℕ
  -- the context is cancelled
  pub done : Bool
  pub closed : Bool

pub data WriteError (E : Type 0) : Type 0 where
  close_sent : WriteError E
  failed : E → WriteError E

module _ {W : Type 0} where
  -- The context is a child of the manager's, so it starts cancelled where that is.
  unfoldable pub new_connection : Bool → String → String → W → ℕ → Connection W
  new_connection parent_done user_id guild_id conn now = record {
    user_id = user_id;
    guild_id = guild_id;
    conn = conn;
    send = new_channel;
    last_heartbeat = now;
    done = parent_done;
    closed = false;
  }

  unfoldable pub update_heartbeat : Connection W → ℕ → Connection W
  update_heartbeat c now = record c { last_heartbeat = now }

  -- time.Since(lastHB) < timeout
  unfoldable pub is_alive : Connection W → ℕ → ℕ → Bool
  is_alive c now timeout = ltb now (c.last_heartbeat + timeout)

module _ {W E : Type 0} (socket : Socket W E) where
  unfoldable pub failing : Result E (Unit {0}) → Result (WriteError E) (Unit {0})
  failing (ok u) = ok tt
  failing (err e) = err (failed e)

  unfoldable pub write_message :
      Connection W → MessageType → Bytes → Result (WriteError E) (Unit {0}) × Connection W
  unfolding failing
  write_message c type bytes =
      if c.closed
      then (err close_sent, c)
      else let (r, conn) = socket.write_message c.conn type bytes in
        (failing r, record c { conn = conn })

  -- Close, whose error is that of the WebSocket.
  unfoldable pub close_connection : Connection W → Result E (Unit {0}) × Connection W
  close_connection c =
      if c.closed
      then (ok tt, c)
      else let (r, conn) = socket.close c.conn in
        (
          r,
          record c {
            closed = true;
            done = true;
            send = record c.send { closed = true };
            conn = conn;
          },
        )
