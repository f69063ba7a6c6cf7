-- ===== src/Gateway/Manager/Invariant.antt =====
-- The manager's map holds open connections only, each under its own user.
use chat_room.Prelude.{
  ℕ, ◌≡◌, ◌≢◌, refl, sym, ◌∙◌, String, Option, none, some, List, [], ◌∷◌, ◌++◌, arith, length,
  Option-cases, inl, inr, str_eq, eq_iff, if◌then◌else◌, Bool-cases,
}
use chat_room.Prelude.Dict.{
  Dict, lookup, Distinct, Distinct-insert, Distinct-remove, lookup-insert, lookup-remove,
}
use chat_room.Redis.{Server, set_user_online}
use chat_room.Gateway.Connection.{Socket, Connection, new_connection}
use chat_room.Gateway.Manager.{
  Manager, ttl, new_connection_manager, add_connection, remove_connection, remove_at, close_at,
  close_existing, check_heartbeats, shutdown, remove_all, refresh_all, dead_connections,
  active_connections,
}
use chat_room.Gateway.Manager.Live.{Live, Live-append, Live-append_last, Live-user, Live-close_at}

pub record IsWellFormed {S W : Type 0} (m : Manager S W) : Type 0 where
  pub distinct : Distinct m.connections
  pub live : (u : String) (ref : ℕ) → lookup u m.connections ≡ some ref → Live m.heap u ref

module _ {W F : Type 0} (socket : Socket W F) where
  -- Closing one user's connection leaves the others' open.
  Live-close_existing :
      (heap : List (Connection W)) (d : Dict ℕ) (u v : String) (ref : ℕ)
      → ((u : String) (ref : ℕ) → lookup u d ≡ some ref → Live heap u ref)
      → u ≢ v
      → lookup v d ≡ some ref
      → Live (close_existing socket heap (lookup u d)) v ref
  unfolding close_existing
  Live-close_existing heap d u v ref live h e = elim (Option-cases (lookup u d)) [
    | inl none_open ↦ rw (none_open, close_existing) (live v ref e)
    | inr (old, open_) ↦
        rw (open_, close_existing)
          (Live-close_at socket heap v old ref
            (λ same. h (Live-user heap u v ref (rw (← same) (live u old open_)) (live v ref e)))
            (live v ref e))
  ]

module _ {S W E F : Type 0} (server : Server S E) (socket : Socket W F) where
  add_connection-IsWellFormed :
      (m : Manager S W) (u guild_id : String) (conn : W) (now : ℕ)
      → IsWellFormed m
      → IsWellFormed (add_connection server socket m u guild_id conn now).1
  unfolding add_connection new_connection
  add_connection-IsWellFormed m u guild_id conn now v = record {
    distinct = Distinct-insert u (length heap) m.connections v.distinct;
    live = λ w ref e. added w ref (sym (lookup-insert u w (length heap) m.connections) ∙ e);
  }
    where
      heap : List (Connection W)
      heap = close_existing socket m.heap (lookup u m.connections)

      new : Connection W
      new = new_connection m.done u guild_id conn now

      added :
          (w : String) (ref : ℕ)
          → (if str_eq u w then some (length heap) else lookup w m.connections) ≡ some ref
          → Live (heap ++ new ∷ []) w ref
      added w ref e = elim (Bool-cases (str_eq u w)) [
        | inl same ↦ Live-append_last heap new w ref (ground arith) ((eq_iff u w).0 same) refl refl
        | inr other ↦ Live-append heap (new ∷ []) w ref (
            Live-close_existing socket m.heap m.connections u w ref v.live
              (λ e'. cc (other, (eq_iff u w).1 e')) (ground arith))
      ]

  remove_at-IsWellFormed :
      (m : Manager S W) (u : String) (o : Option ℕ)
      → o ≡ lookup u m.connections
      → IsWellFormed m
      → IsWellFormed (remove_at server socket m u o).1
  unfolding remove_at
  remove_at-IsWellFormed m u none e v = v
  remove_at-IsWellFormed m u (some old) e v = record {
    distinct = Distinct-remove u m.connections v.distinct;
    live = λ w ref h. kept w ref (sym (lookup-remove u w m.connections) ∙ h);
  }
    where
      kept :
          (w : String) (ref : ℕ)
          → (if str_eq u w then none else lookup w m.connections) ≡ some ref
          → Live (close_at socket m.heap old).1 w ref
      kept w ref h = elim (Bool-cases (str_eq u w)) [
        | inl same ↦ ground arith
        | inr other ↦
            Live-close_at socket m.heap w old ref
              (λ same. cc (
                other,
                (eq_iff u w).1 (
                    Live-user m.heap u w ref (rw (← same) (v.live u old (sym e)))
                      (v.live w ref (ground arith))),
              ))
              (v.live w ref (ground arith))
      ]

  remove_connection-IsWellFormed :
      (m : Manager S W) (u : String)
      → IsWellFormed m
      → IsWellFormed (remove_connection server socket m u).1
  unfolding remove_connection
  remove_connection-IsWellFormed m u v = remove_at-IsWellFormed m u (lookup u m.connections) refl v

  remove_all-IsWellFormed :
      (m : Manager S W) (us : List String)
      → IsWellFormed m
      → IsWellFormed (remove_all server socket m us)
  unfolding remove_all
  remove_all-IsWellFormed m [] v = v
  remove_all-IsWellFormed m (u ∷ us) v =
      remove_all-IsWellFormed (remove_connection server socket m u).1 us
        (remove_connection-IsWellFormed m u v)

  refresh_all-IsWellFormed :
      (m : Manager S W) (us : List String)
      → IsWellFormed m
      → IsWellFormed (refresh_all server socket m us)
  unfolding refresh_all
  refresh_all-IsWellFormed m [] v = v
  refresh_all-IsWellFormed m (u ∷ us) v =
      refresh_all-IsWellFormed
        (record m { redis = (set_user_online server m.redis u m.node_id (ttl m)).1 }) us
        (record { distinct = v.distinct; live = v.live })

  check_heartbeats-IsWellFormed :
      (m : Manager S W) (now : ℕ → ℕ) (timeout : ℕ)
      → IsWellFormed m
      → IsWellFormed (check_heartbeats server socket m now timeout)
  unfolding check_heartbeats
  check_heartbeats-IsWellFormed m now timeout v =
      refresh_all-IsWellFormed _ (active_connections m now timeout)
        (remove_all-IsWellFormed m (dead_connections m now timeout) v)

shutdown-IsWellFormed :
    {S W F : Type 0} (socket : Socket W F) (m : Manager S W) → IsWellFormed (shutdown socket m)
unfolding shutdown lookup
shutdown-IsWellFormed socket m = record { distinct = tt; live = λ u ref e. cc }

-- The calls of the manager that change it.
pub data Call (W : Type 0) : Type 0 where
  adds : String → String → W → ℕ → Call W
  removes : String → Call W
  checks : (ℕ → ℕ) → ℕ → Call W
  shuts_down : Call W

module _ {S W E F : Type 0} (server : Server S E) (socket : Socket W F) where
  unfoldable pub step : Manager S W → Call W → Manager S W
  step m (adds u guild_id conn now) = (add_connection server socket m u guild_id conn now).1
  step m (removes u) = (remove_connection server socket m u).1
  step m (checks now timeout) = check_heartbeats server socket m now timeout
  step m shuts_down = shutdown socket m

  unfoldable pub run : Manager S W → List (Call W) → Manager S W
  run m [] = m
  run m (c ∷ cs) = run (step m c) cs

  pub step-IsWellFormed : (m : Manager S W) (c : Call W) → IsWellFormed m → IsWellFormed (step m c)
  unfolding step
  step-IsWellFormed m (adds u guild_id conn now) v =
      add_connection-IsWellFormed server socket m u guild_id conn now v
  step-IsWellFormed m (removes u) v = remove_connection-IsWellFormed server socket m u v
  step-IsWellFormed m (checks now timeout) v =
      check_heartbeats-IsWellFormed server socket m now timeout v
  step-IsWellFormed m shuts_down v = shutdown-IsWellFormed socket m

  run-IsWellFormed :
      (m : Manager S W) (cs : List (Call W)) → IsWellFormed m → IsWellFormed (run m cs)
  unfolding run
  run-IsWellFormed m [] v = v
  run-IsWellFormed m (c ∷ cs) v = run-IsWellFormed (step m c) cs (step-IsWellFormed m c v)

  -- After any calls on a new manager, in any order and whether Redis and the WebSockets fail or
  -- not, the map has each user once, and only with an open connection of that user.
  pub run-new-IsWellFormed :
      (redis : S) (interval : ℕ) (node_id : String) (cs : List (Call W))
      → IsWellFormed (run (new_connection_manager redis interval node_id) cs)
  unfolding new_connection_manager lookup
  run-new-IsWellFormed redis interval node_id cs =
      run-IsWellFormed _ cs (record { distinct = tt; live = λ u ref e. cc })
