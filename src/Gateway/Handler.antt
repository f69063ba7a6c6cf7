-- ===== src/Gateway/Handler.antt =====
-- internal/pkg/gateway/handler.go, with the WSMessage of internal/pkg/proto/chat.pb.go. The
-- protobuf and JSON libraries are the parameter `Codec`. What the handler logs is not modelled.
pub mod Upstream
pub mod Downstream
pub mod Disconnect
use chat_room.Prelude.{
  ℕ, ◌+◌, String, Bool, true, false, not, ◌&&◌, Option, none, some, List, [], ◌∷◌, ltb,
  if◌then◌else◌, Result, ok, err, ◌>>=◌, length, get_elem?, set, str_eq,
}
use chat_room.Redis.{Server, is_user_online, remove_user_online}
use chat_room.Kafka.Producer
use chat_room.Prelude.Utf8.{bytes_of}
use chat_room.Kafka.Producer.{Sarama, produce}
use chat_room.Gateway.Connection.{Bytes, Socket, Connection, Sent, queued, blocks, panics, try_send}
use chat_room.Gateway.Manager.{Manager, get_connections_by_guild, remove_connection, close_at}

-- MessageType
pub data Kind : Type 0 where
  text system : Kind

-- WSMessage. The content is its bytes, which `len` counts.
pub record WsMessage : Type 0 where
  pub message_id : String
  pub user_id : String
  pub guild_id : String
  pub content : Bytes
  pub seq_id : ℕ
  pub timestamp : ℕ
  pub kind : Kind
  pub username : String

-- Unmarshal overwrites a message, and leaves something in it even where it fails; the JSON decoder
-- then writes over what it is given.
pub record Codec (P : Type 0) : Type 0 where
  pub unmarshal : Bytes → Result P (Unit {0}) × WsMessage
  pub unmarshal_json : WsMessage → Bytes → Result P (Unit {0}) × WsMessage
  pub marshal : WsMessage → Result P Bytes

pub data Invalid : Type 0 where
  empty_content too_long : Invalid
  wrong_guild : String → String → Invalid

pub data Error (P E : Type 0) : Type 0 where
  unparsable : P → P → Error P E
  invalid : Invalid → Error P E
  unserializable : P → Error P E
  kafka_failed : E → Error P E

abbrev pub is_empty : Bytes → Bool
is_empty [] = true
is_empty (b ∷ bs) = false

abbrev pub max_content : ℕ
max_content = 2000

module _ {W : Type 0} where
  pub validate_message : WsMessage → Connection W → Result Invalid (Unit {0})
  validate_message msg conn =
      if is_empty msg.content
      then err empty_content
      else if ltb max_content (length msg.content)
      then err too_long
      else if not (str_eq conn.guild_id "")
          && (not (str_eq msg.guild_id "") && not (str_eq msg.guild_id conn.guild_id))
      then err (wrong_guild msg.guild_id conn.guild_id)
      else ok tt

  -- What the handler sets whatever the client sent.
  pub stamp : WsMessage → Connection W → ℕ → WsMessage
  stamp msg conn now = record msg {
    user_id = conn.user_id;
    guild_id = if str_eq conn.guild_id "" then msg.guild_id else conn.guild_id;
    timestamp = now;
  }

module _ {P : Type 0} (codec : Codec P) where
  after_json : {E : Type 0} → P → Result P (Unit {0}) × WsMessage → Result (Error P E) WsMessage
  after_json e (ok u, msg) = ok msg
  after_json e (err j, msg) = err (unparsable e j)

  after_proto :
      {E : Type 0} → Bytes → Result P (Unit {0}) × WsMessage → Result (Error P E) WsMessage
  unfolding after_json
  after_proto bytes (ok u, msg) = ok msg
  after_proto bytes (err e, msg) = after_json e (codec.unmarshal_json msg bytes)

  -- Protobuf first, JSON where that fails.
  pub parse : {E : Type 0} → Bytes → Result (Error P E) WsMessage
  unfolding after_proto
  parse bytes = after_proto bytes (codec.unmarshal bytes)

checked : {P E : Type 0} → Result Invalid (Unit {0}) → Result (Error P E) (Unit {0})
checked (ok u) = ok tt
checked (err e) = err (invalid e)

serialized : {P E : Type 0} → Result P Bytes → Result (Error P E) Bytes
serialized (ok bytes) = ok bytes
serialized (err e) = err (unserializable e)

produced : {P E : Type 0} → Result E (ℕ × ℕ) → Result (Error P E) (Unit {0})
produced (ok at) = ok tt
produced (err e) = err (kafka_failed e)

module _ {P : Type 0} (codec : Codec P) where
  -- The message that is to be sent, with its bytes.
  unfoldable pub prepare :
      {W E : Type 0} → Connection W → Bytes → ℕ → Result (Error P E) (WsMessage × Bytes)
  unfolding parse checked validate_message serialized stamp
  prepare conn bytes now = do
    msg ← parse codec bytes
    u ← checked (validate_message msg conn)
    out ← serialized (codec.marshal (stamp msg conn now))
    ok (stamp msg conn now, out)

module _ {K X P : Type 0} (sarama : Sarama K X) (codec : Codec P) (topic : String) where
  -- The guild is the key of the message.
  send_prepared :
      K
      → Result (Error P (Producer.Error X)) (WsMessage × Bytes)
      → Result (Error P (Producer.Error X)) (Unit {0}) × K
  unfolding produced
  send_prepared k (err e) = (err e, k)
  send_prepared k (ok (msg, out)) =
      let (r, k') = produce sarama k topic (some (bytes_of msg.guild_id)) out in (produced r, k')

  unfoldable pub handle_upstream_message :
      {W : Type 0}
      → K
      → Connection W
      → Bytes
      → ℕ
      → Result (Error P (Producer.Error X)) (Unit {0}) × K
  unfolding prepare send_prepared
  handle_upstream_message k conn bytes now = send_prepared k (prepare codec conn bytes now)

-- How a send ended, with the flag that tells whether the message was sent: a full buffer is a
-- timeout, and a closed channel panics, which is none.
settle :
    {W : Type 0}
    → List (Connection W)
    → ℕ
    → Connection W
    → Sent
    → Option (Bool × List (Connection W))
settle heap ref c (queued send) = some (true, set heap ref (record c { send = send }))
settle heap ref c blocks = some (false, heap)
settle heap ref c panics = none

-- A select between a send on a channel and a timer. `heap` is what the other goroutines have made
-- of the connections when it is decided.
pub push : {W : Type 0} → List (Connection W) → ℕ → Bytes → Option (Bool × List (Connection W))
unfolding settle
push heap ref bytes = elim (get_elem? heap ref) [
  | none ↦ some (false, heap)
  | some c ↦ settle heap ref c (try_send c.send bytes)
]

count : Bool → ℕ → ℕ
count true n = n + 1
count false n = n

module _ {W : Type 0} (others : ℕ → List (Connection W) → List (Connection W)) (bytes : Bytes) where
  -- The loop over the connections that the caller was given, with the number of messages sent. What
  -- the other goroutines do before the send to a connection is `others`.
  pub push_all : List (Connection W) → List ℕ → ℕ → Option (ℕ × List (Connection W))
  unfolding push count
  push_all heap [] n = some (n, heap)
  push_all heap (ref ∷ refs) n = elim (push (others ref heap) ref bytes) [
    | none ↦ none
    | some (sent, heap') ↦ push_all heap' refs (count sent n)
  ]

module _ {W P : Type 0} (others : ℕ → List (Connection W) → List (Connection W)) where
  push_serialized :
      List (Connection W) → List ℕ → Result P Bytes → Option (Result P ℕ × List (Connection W))
  unfolding push_all
  push_serialized heap refs (err e) = some (err e, heap)
  push_serialized heap refs (ok bytes) = elim (push_all others bytes heap refs 0) [
    | none ↦ none
    | some (n, heap') ↦ some (ok n, heap')
  ]

module _ {S W P : Type 0} (codec : Codec P)
    (others : ℕ → List (Connection W) → List (Connection W)) where
  push_to_guild : Manager S W → WsMessage → List ℕ → Option (Result P ℕ × List (Connection W))
  unfolding push_serialized
  push_to_guild m msg [] = some (ok 0, m.heap)
  push_to_guild m msg (ref ∷ refs) = push_serialized others m.heap (ref ∷ refs) (codec.marshal msg)

  deliver :
      Manager S W → Result P (Unit {0}) × WsMessage → Option (Result P ℕ × List (Connection W))
  unfolding push_to_guild
  deliver m (err e, msg) = some (err e, m.heap)
  deliver m (ok u, msg) = push_to_guild m msg (get_connections_by_guild m msg.guild_id)

  -- The answer is the number of messages pushed, which the source logs.
  pub handle_downstream_message : Manager S W → Bytes → Option (Result P ℕ × List (Connection W))
  unfolding deliver
  handle_downstream_message m payload = deliver m (codec.unmarshal payload)

module _ {S E : Type 0} (server : Server S E) where
  -- The removal that is tried once more where the user is still online.
  force_remove : String → Result E Bool × S → S
  force_remove user_id (ok true, s) = (remove_user_online server s user_id).1
  force_remove user_id (ok false, s) = s
  force_remove user_id (err e, s) = s

module _ {S W E F : Type 0} (server : Server S E) (socket : Socket W F) where
  disconnect_user : Manager S W → String → ℕ → Manager S W
  unfolding force_remove
  disconnect_user m user_id ref =
      let m' = (remove_connection server socket m user_id).1 in
      record m' {
        heap = (close_at socket m'.heap ref).1;
        redis = force_remove server user_id (is_user_online server m'.redis user_id);
      }

  -- handleDisconnect, for the connection at a place of the heap. Its errors are only logged.
  pub handle_disconnect : Manager S W → ℕ → Manager S W
  unfolding disconnect_user
  handle_disconnect m ref = elim (get_elem? m.heap ref) [
    | none ↦ m
    | some c ↦ disconnect_user m c.user_id ref
  ]
