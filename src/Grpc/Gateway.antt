-- ===== src/Grpc/Gateway.antt =====
-- internal/pkg/grpc/gateway_server.go: a gateway pushes messages for the other nodes. An int32 is a bit
-- pattern.
pub mod Counts
mod Examples
use chat_room.Prelude.{
  ℕ, ◌+◌, ◌-◌, ◌%◌, ◌/◌, ◌^◌, String, Bool, true, false, Option, none, some, List, [], ◌∷◌, ◌++◌,
  if◌then◌else◌, Result, ok, err, length, get_elem?, set, str_eq,
}
use chat_room.Gateway.Connection.{Bytes, Socket, Connection, WriteError, binary, write_message}
use chat_room.Gateway.Manager.{
  Manager, get_connection, get_connections_by_guild, get_all_connections,
}
use chat_room.Gateway.Handler.{WsMessage, Codec}
use chat_room.Grpc.{Code, Status, required}

-- PushMessageResponse, with what went wrong.
pub data Pushed (P E : Type 0) : Type 0 where
  success not_connected : Pushed P E
  unserializable : P → Pushed P E
  write_failed : WriteError E → Pushed P E

pub record Broadcast : Type 0 where
  pub delivered_count : ℕ
  pub failed_user_ids : List String

-- The keys of excludeMap.
abbrev pub excluded : List String → String → Bool
excluded [] user_id = false
excluded (u ∷ us) user_id = if str_eq u user_id then true else excluded us user_id

module _ {W E : Type 0} (socket : Socket W E) where
  -- conn.WriteMessage through a pointer.
  pub write_at :
      List (Connection W)
      → ℕ
      → Connection W
      → Bytes
      → Result (WriteError E) (Unit {0}) × List (Connection W)
  write_at heap ref c bytes =
      let (r, c') = write_message socket c binary bytes in (r, set heap ref c')

  pub noted : Connection W → Result (WriteError E) (Unit {0}) → Broadcast → Broadcast
  noted c (ok u) b = record b { delivered_count = (b.delivered_count + 1) % 2 ^ 32 }
  noted c (err e) b = record b { failed_user_ids = b.failed_user_ids ++ c.user_id ∷ [] }

  -- One round of the loop over the connections of a guild.
  pub write_to :
      List String → Bytes → ℕ → Broadcast × List (Connection W) → Broadcast × List (Connection W)
  unfolding write_at noted
  write_to exclude bytes ref (b, heap) = elim (get_elem? heap ref) [
    | none ↦ (b, heap)
    | some c ↦
        if excluded exclude c.user_id
        then (b, heap)
        else let (r, heap') = write_at heap ref c bytes in (noted c r b, heap')
  ]

  pub write_all :
      List String
      → Bytes
      → List ℕ
      → Broadcast × List (Connection W)
      → Broadcast × List (Connection W)
  unfolding write_to
  write_all exclude bytes [] s = s
  write_all exclude bytes (ref ∷ refs) s =
      write_all exclude bytes refs (write_to exclude bytes ref s)

module _ {S W E P : Type 0} (socket : Socket W E) (codec : Codec P) where
  pushed :
      Manager S W
      → ℕ
      → Result (WriteError E) (Unit {0}) × List (Connection W)
      → Result Status (Pushed P E) × Manager S W
  pushed m ref (ok u, heap) = (ok Pushed.success, record m { heap = heap })
  pushed m ref (err e, heap) = (ok (Pushed.write_failed e), record m { heap = heap })

  push_bytes : Manager S W → ℕ → Result P Bytes → Result Status (Pushed P E) × Manager S W
  unfolding pushed write_at
  push_bytes m ref (err e) = (ok (Pushed.unserializable e), m)
  push_bytes m ref (ok bytes) = elim (get_elem? m.heap ref) [
    | none ↦ (ok Pushed.not_connected, m)
    | some c ↦ pushed m ref (write_at socket m.heap ref c bytes)
  ]

  push_to : Manager S W → WsMessage → Option ℕ → Result Status (Pushed P E) × Manager S W
  unfolding push_bytes
  push_to m msg none = (ok Pushed.not_connected, m)
  push_to m msg (some ref) = push_bytes m ref (codec.marshal msg)

  -- A message that is left out of the request is none.
  pub push_message :
      Manager S W → String → Option WsMessage → Result Status (Pushed P E) × Manager S W
  unfolding push_to
  push_message m user_id none =
      if str_eq user_id ""
      then (err (required "user_id is required"), m)
      else (err (required "message is required"), m)
  push_message m user_id (some msg) =
      if str_eq user_id ""
      then (err (required "user_id is required"), m)
      else push_to m msg (get_connection m user_id)

  broadcast_bytes :
      (P → String)
      → Manager S W
      → String
      → List String
      → Result P Bytes
      → Result Status Broadcast × Manager S W
  unfolding write_all
  broadcast_bytes describe m guild_id exclude (err e) =
      (err (record { code = Code.internal; message = describe e }), m)
  broadcast_bytes describe m guild_id exclude (ok bytes) =
      let (b, heap) =
        write_all socket exclude bytes (get_connections_by_guild m guild_id)
          (record { delivered_count = 0; failed_user_ids = [] }, m.heap) in
      (ok b, record m { heap = heap })

  pub broadcast_to_guild :
      (P → String)
      → Manager S W
      → String
      → Option WsMessage
      → List String
      → Result Status Broadcast × Manager S W
  unfolding broadcast_bytes
  broadcast_to_guild describe m guild_id none exclude =
      if str_eq guild_id ""
      then (err (required "guild_id is required"), m)
      else (err (required "message is required"), m)
  broadcast_to_guild describe m guild_id (some msg) exclude =
      if str_eq guild_id ""
      then (err (required "guild_id is required"), m)
      else broadcast_bytes describe m guild_id exclude (codec.marshal msg)

-- Whether GetConnection has found one.
abbrev pub exists : {A : Type 0} → Option A → Bool
exists none = false
exists (some a) = true

-- GatewayServer, beside its manager.
pub record Node : Type 0 where
  pub node_id : String
  pub address : String
  -- in nanoseconds
  pub start_time : ℕ

pub record NodeInfo : Type 0 where
  pub node_id : String
  pub address : String
  pub connection_count : ℕ
  pub uptime_seconds : ℕ

module _ {S W : Type 0} (node : Node) (m : Manager S W) where
  -- Whether the user is online, and the gateway's address.
  pub check_user_online : String → Result Status (Bool × String)
  check_user_online user_id =
      if str_eq user_id ""
      then err (required "user_id is required")
      else ok (exists (get_connection m user_id), node.address)

  pub get_node_info : ℕ → NodeInfo
  get_node_info now = record {
    node_id = node.node_id;
    address = node.address;
    connection_count = length (get_all_connections m) % 2 ^ 32;
    uptime_seconds = (now - node.start_time) / 1000000000;
  }

-- The answer of HealthCheck.
abbrev pub health_check : Bool × String
health_check = (true, "ok")
