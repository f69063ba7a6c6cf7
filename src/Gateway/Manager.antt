-- ===== src/Gateway/Manager.antt =====
-- internal/pkg/gateway/manager.go. Connections are pointers in the source: the heap holds the
-- objects, and the manager's map holds their places in it, so that a connection which the map has
-- dropped can still be closed or sent to. Each method holds the lock throughout, so a call is one
-- step, but checkHeartbeats, which lets go of it between the connections that it looks at and each
-- that it removes: `check_heartbeats` is a check with no other call in between. What the methods
-- print is not modelled.
pub mod Live
pub mod Invariant
pub mod Effects
pub mod Guilds
pub mod Heartbeats
use chat_room.Prelude.{
  ℕ, ◌*◌, String, Bool, true, false, not, Option, none, some, List, [], ◌∷◌, ◌++◌, if◌then◌else◌,
  Result, ok, err, length, get_elem?, set, str_eq,
}
use chat_room.Prelude.Dict.{Dict, lookup, insert, remove}
use chat_room.Redis.{Server, set_user_online, remove_user_online}
use chat_room.Gateway.Connection.{Socket, Connection, new_connection, is_alive, close_connection}

-- S is the state of Redis and W that of a WebSocket.
pub record Manager (S W : Type 0) : Type 0 where
  pub connections : Dict ℕ
  pub heap : List (Connection W)
  pub redis : S
  -- in seconds
  pub heartbeat_interval : ℕ
  pub node_id : String
  -- the manager's context is cancelled
  pub done : Bool

pub data Error (E : Type 0) : Type 0 where
  not_found : Error E
  online_status : E → Error E

-- the test of IsAlive against the list that is being collected
abbrev same : Bool → Bool → Bool
same true b = b
same false b = not b

-- time.Second, in nanoseconds
abbrev pub second : ℕ
second = 1000000000

-- Twice the interval: the TTL of an online status, and the timeout of a heartbeat.
abbrev pub ttl : {S W : Type 0} → Manager S W → ℕ
ttl m = m.heartbeat_interval * 2 * second

module _ {S W : Type 0} where
  unfoldable pub new_connection_manager : S → ℕ → String → Manager S W
  new_connection_manager redis heartbeat_interval node_id = record {
    connections = [];
    heap = [];
    redis = redis;
    heartbeat_interval = heartbeat_interval;
    node_id = node_id;
    done = false;
  }

  unfoldable pub get_connection : Manager S W → String → Option ℕ
  get_connection m user_id = lookup user_id m.connections

  -- The copy of the map that GetAllConnections takes.
  unfoldable pub get_all_connections : Manager S W → Dict ℕ
  get_all_connections m = m.connections

  unfoldable pub connection_count : Manager S W → ℕ
  connection_count m = length m.connections

module _ {W : Type 0} where
  -- conn.GuildID == guildID
  in_guild : List (Connection W) → String → ℕ → Bool
  in_guild heap guild_id ref = elim (get_elem? heap ref) [
    | none ↦ false
    | some c ↦ str_eq c.guild_id guild_id
  ]

  select_guild : List (Connection W) → String → Dict ℕ → List ℕ
  unfolding in_guild
  select_guild heap guild_id [] = []
  select_guild heap guild_id ((u, ref) ∷ rest) =
      let others = select_guild heap guild_id rest in
      if in_guild heap guild_id ref then ref ∷ others else others

module _ {S W : Type 0} where
  unfoldable pub get_connections_by_guild : Manager S W → String → List ℕ
  unfolding select_guild
  get_connections_by_guild m guild_id = select_guild m.heap guild_id m.connections

module _ {W F : Type 0} (socket : Socket W F) where
  -- conn.Close() through a pointer
  unfoldable pub close_at : List (Connection W) → ℕ → Result F (Unit {0}) × List (Connection W)
  close_at heap ref = elim (get_elem? heap ref) [
    | none ↦ (ok tt, heap)
    | some c ↦ let (r, c') = close_connection socket c in (r, set heap ref c')
  ]

  -- The connection that the user had, closed.
  close_existing : List (Connection W) → Option ℕ → List (Connection W)
  close_existing heap none = heap
  close_existing heap (some ref) = (close_at heap ref).1

-- How RemoveConnection passes on the error of RemoveUserOnline.
unfoldable pub offline : {E : Type 0} → Result E (Unit {0}) → Result (Error E) (Unit {0})
offline (ok u) = ok tt
offline (err e) = err (online_status e)

module _ {S W E F : Type 0} (server : Server S E) (socket : Socket W F) where
  -- AddConnection, with the pointer that it returns; its error is always nil.
  unfoldable pub add_connection : Manager S W → String → String → W → ℕ → ℕ × Manager S W
  unfolding close_existing
  add_connection m user_id guild_id conn now =
      let heap = close_existing socket m.heap (lookup user_id m.connections) in
      let (r, redis) = set_user_online server m.redis user_id m.node_id (ttl m) in
      (
        length heap,
        record m {
          heap = heap ++ new_connection m.done user_id guild_id conn now ∷ [];
          connections = insert user_id (length heap) m.connections;
          redis = redis;
        },
      )

  remove_at : Manager S W → String → Option ℕ → Result (Error E) (Unit {0}) × Manager S W
  unfolding offline
  remove_at m user_id none = (err not_found, m)
  remove_at m user_id (some ref) =
      let (r, redis) = remove_user_online server m.redis user_id in
      (
        offline r,
        record m {
          heap = (close_at socket m.heap ref).1;
          connections = remove user_id m.connections;
          redis = redis;
        },
      )

  unfoldable pub remove_connection :
      Manager S W → String → Result (Error E) (Unit {0}) × Manager S W
  unfolding remove_at
  remove_connection m user_id = remove_at m user_id (lookup user_id m.connections)

module _ {W : Type 0} where
  -- The users whose connections answer `wanted` to IsAlive, in the order of the map. `now` gives
  -- the time at which each connection is looked at.
  select_alive : List (Connection W) → (ℕ → ℕ) → ℕ → Bool → Dict ℕ → List String
  select_alive heap now timeout wanted [] = []
  select_alive heap now timeout wanted ((u, ref) ∷ rest) =
      let others = select_alive heap now timeout wanted rest in
      elim (get_elem? heap ref) [
        | none ↦ others
        | some c ↦ if same (is_alive c (now ref) timeout) wanted then u ∷ others else others
      ]

module _ {S W : Type 0} where
  unfoldable pub dead_connections : Manager S W → (ℕ → ℕ) → ℕ → List String
  unfolding select_alive
  dead_connections m now timeout = select_alive m.heap now timeout false m.connections

  unfoldable pub active_connections : Manager S W → (ℕ → ℕ) → ℕ → List String
  unfolding select_alive
  active_connections m now timeout = select_alive m.heap now timeout true m.connections

module _ {S W E F : Type 0} (server : Server S E) (socket : Socket W F) where
  remove_all : Manager S W → List String → Manager S W
  remove_all m [] = m
  remove_all m (u ∷ us) = remove_all (remove_connection server socket m u).1 us

  -- The refresh of the online status, whose errors are only printed.
  refresh_all : Manager S W → List String → Manager S W
  refresh_all m [] = m
  refresh_all m (u ∷ us) =
      refresh_all (record m { redis = (set_user_online server m.redis u m.node_id (ttl m)).1 }) us

  unfoldable pub check_heartbeats : Manager S W → (ℕ → ℕ) → ℕ → Manager S W
  unfolding remove_all refresh_all
  check_heartbeats m now timeout =
      refresh_all (remove_all m (dead_connections m now timeout)) (active_connections m now timeout)

module _ {W F : Type 0} (socket : Socket W F) where
  close_all : List (Connection W) → Dict ℕ → List (Connection W)
  close_all heap [] = heap
  close_all heap ((u, ref) ∷ rest) = close_all (close_at socket heap ref).1 rest

module _ {S W F : Type 0} (socket : Socket W F) where
  -- Shutdown deletes each entry as it goes through the map.
  unfoldable pub shutdown : Manager S W → Manager S W
  unfolding close_all
  shutdown m = record m {
    done = true;
    heap = close_all socket m.heap m.connections;
    connections = [];
  }
