-- ===== src/Gateway/Manager/Heartbeats.antt =====
-- Whom a heartbeat check removes.
use chat_room.Prelude.{
  ℕ, ◌≡◌, refl, ◌∙◌, ap, String, Option, Bool, true, false, none, some, List, [], ◌∷◌, arith,
  get_elem?, str_eq, eq_iff, if◌then◌else◌,
}
use chat_room.Prelude.Dict.{Dict, lookup, Distinct, lookup-remove}
use chat_room.Redis.{Server, set_user_online}
use chat_room.Gateway.Connection.{Socket, Connection, is_alive}
use chat_room.Gateway.Manager.{
  Manager, ttl, same, get_connection, remove_connection, remove_at, remove_all, refresh_all,
  select_alive, dead_connections, active_connections, check_heartbeats,
}
use chat_room.Gateway.Manager.Invariant.{IsWellFormed}

-- A user is among the users.
abbrev listed : String → List String → Bool
listed v [] = false
listed v (u ∷ us) = if str_eq u v then true else listed v us

module _ {W : Type 0} (heap : List (Connection W)) (now : ℕ → ℕ) (timeout : ℕ) (wanted : Bool) where
  listed-none :
      (d : Dict ℕ) (v : String)
      → lookup v d ≡ none
      → listed v (select_alive heap now timeout wanted d) ≡ false
  unfolding select_alive lookup
  listed-none [] v h = refl
  listed-none ((u, ref) ∷ d) v h = ground (arith, listed-none d v)

  listed-select_alive :
      (d : Dict ℕ) (v : String) (ref : ℕ) (c : Connection W)
      → Distinct d
      → lookup v d ≡ some ref
      → get_elem? heap ref ≡ some c
      → listed v (select_alive heap now timeout wanted d)
        ≡ same (is_alive c (now ref) timeout) wanted
  unfolding select_alive lookup
  listed-select_alive [] v ref c u h f = cc
  listed-select_alive ((w, r) ∷ d) v ref c u h f =
      ground (arith, eq_iff w v, listed-none d v, listed-select_alive d v ref c u.1)

module _ {S W E F : Type 0} (server : Server S E) (socket : Socket W F) where
  lookup-remove_at :
      (m : Manager S W) (u v : String) (o : Option ℕ)
      → lookup u m.connections ≡ o
      → lookup v (remove_at server socket m u o).1.connections
        ≡ (if str_eq u v then none else lookup v m.connections)
  unfolding remove_at
  lookup-remove_at m u v none e = ground (arith, eq_iff u v)
  lookup-remove_at m u v (some ref) e = lookup-remove u v m.connections

  lookup-remove_all :
      (m : Manager S W) (us : List String) (v : String)
      → lookup v (remove_all server socket m us).connections
        ≡ (if listed v us then none else lookup v m.connections)
  unfolding remove_all remove_connection
  lookup-remove_all m [] v = refl
  lookup-remove_all m (u ∷ us) v = ground (
    arith,
    lookup-remove_all (remove_connection server socket m u).1 us v,
    lookup-remove_at m u v (lookup u m.connections) refl,
  )

  lookup-refresh_all :
      (m : Manager S W) (us : List String)
      → (refresh_all server socket m us).connections ≡ m.connections
  unfolding refresh_all
  lookup-refresh_all m [] = refl
  lookup-refresh_all m (u ∷ us) =
      lookup-refresh_all
        (record m { redis = (set_user_online server m.redis u m.node_id (ttl m)).1 }) us

  -- A heartbeat check of a well-formed manager, with no other call in between, keeps a user's
  -- connection where it is alive at the time it is looked at, and drops the user otherwise.
  pub check_heartbeats-get_connection :
      (m : Manager S W) (now : ℕ → ℕ) (timeout : ℕ) (v : String) (ref : ℕ) (c : Connection W)
      → IsWellFormed m
      → get_connection m v ≡ some ref
      → get_elem? m.heap ref ≡ some c
      → get_connection (check_heartbeats server socket m now timeout) v
        ≡ (if is_alive c (now ref) timeout then some ref else none)
  unfolding check_heartbeats get_connection dead_connections
  check_heartbeats-get_connection m now timeout v ref c h e f =
      ap (λ d. lookup v d)
        (lookup-refresh_all (remove_all server socket m dead) (active_connections m now timeout))
      ∙ (lookup-remove_all m dead v
          ∙ ground (
            arith,
            listed-select_alive m.heap now timeout false m.connections v ref c h.distinct e f,
          ))
    where
      dead : List String
      dead = select_alive m.heap now timeout false m.connections
