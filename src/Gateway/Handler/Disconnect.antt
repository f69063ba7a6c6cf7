-- ===== src/Gateway/Handler/Disconnect.antt =====
-- What the end of a connection's reader does to the manager, for the connection that the map has
-- for its user and for one that a newer connection has replaced.
use chat_room.Prelude.{
  ℕ, ◌≡◌, ◌≢◌, refl, eq_refl, ap, sym, ◌∙◌, String, true, none, some, List, get_elem?, ◌==◌, ==_iff,
  if◌then◌else◌, str_eq, arith, Bool-cases, inl, inr,
}
use chat_room.Redis.{Server}
use chat_room.Gateway.Connection.{Socket, Connection, close_connection}
use chat_room.Gateway.Connection.Lifecycle.{close_connection-again}
use chat_room.Gateway.Manager.{Manager, get_connection, remove_connection, close_at}
use chat_room.Gateway.Manager.Effects.{remove_connection-get_connection}
use chat_room.Gateway.Manager.Live.{get_elem?-close_at_ne, get_elem?-close_at_self}
use chat_room.Gateway.Handler.{handle_disconnect, disconnect_user}

==_self : (n : ℕ) → (n == n) ≡ true
==_self n = ground arith

module _ {S W E F : Type 0} (server : Server S E) (socket : Socket W F) where
  disconnect_user-get_connection :
      (m : Manager S W) (u v : String) (ref : ℕ)
      → get_connection (disconnect_user server socket m u ref) v
        ≡ get_connection (remove_connection server socket m u).1 v
  unfolding disconnect_user get_connection
  disconnect_user-get_connection m u v ref = refl

  disconnect_user-heap :
      (m : Manager S W) (u : String) (ref : ℕ)
      → (disconnect_user server socket m u ref).heap
        ≡ (close_at socket (remove_connection server socket m u).1.heap ref).1
  unfolding disconnect_user
  disconnect_user-heap m u ref = refl

  handle_disconnect_user :
      (m : Manager S W) (ref : ℕ) (c : Connection W)
      → get_elem? m.heap ref ≡ some c
      → handle_disconnect server socket m ref ≡ disconnect_user server socket m c.user_id ref
  unfolding handle_disconnect
  handle_disconnect_user m ref c found = rw (found, handle_disconnect)

  -- The second Close of a connection, on the heap, changes nothing.
  close_at-again :
      (heap : List (Connection W)) (ref : ℕ) (c : Connection W) (other : ℕ)
      → get_elem? heap ref ≡ some (close_connection socket c).1
      → get_elem? (close_at socket heap ref).1 other ≡ get_elem? heap other
  close_at-again heap ref c other found = elim (Bool-cases (ref == other)) [
    | inl same ↦
        (let e = (==_iff ref other).0 same in
          rw (← e) (
            get_elem?-close_at_self socket heap ref (close_connection socket c).1 found
            ∙ (ap some (close_connection-again socket c) ∙ sym found)))
    | inr apart ↦
        get_elem?-close_at_ne socket heap ref other (λ same. cc (apart, (==_iff ref other).1 same))
  ]

  -- The end of a connection that the map has for its user: the map loses that user alone, the
  -- connection is closed, and every other connection is left as it was.
  pub handle_disconnect-get_connection :
      (m : Manager S W) (ref : ℕ) (c : Connection W) (v : String) (other : ℕ)
      → get_elem? m.heap ref ≡ some c
      → get_connection m c.user_id ≡ some ref
      → let m' = handle_disconnect server socket m ref in
        (get_connection m' v ≡ (if str_eq c.user_id v then none else get_connection m v))
        × (get_elem? m'.heap other
            ≡ (if ref == other then some (close_connection socket c).1 else get_elem? m.heap other))
  handle_disconnect-get_connection m ref c v other found mapped =
      let u : String = c.user_id in
      let (gone, kept, r) =
        remove_connection-get_connection server socket m u ref c v other mapped found in
      let (gone', closed, r') =
        remove_connection-get_connection server socket m u ref c v ref mapped found in
      let shut = rw (==_self ref) at closed in
      rw
        (
          handle_disconnect_user m ref c found,
          disconnect_user-get_connection m u v ref,
          disconnect_user-heap m u ref,
        )
        (gone, close_at-again (remove_connection server socket m u).1.heap ref c other shut ∙ kept)

  -- The end of a connection that a newer one of the same user has replaced: the map loses the user
  -- all the same, and the newer connection is closed though nobody has closed it.
  pub handle_disconnect-replaced :
      (m : Manager S W) (old new : ℕ) (c d : Connection W)
      → get_elem? m.heap old ≡ some c
      → get_elem? m.heap new ≡ some d
      → get_connection m c.user_id ≡ some new
      → old ≢ new
      → let m' = handle_disconnect server socket m old in
        (get_connection m' c.user_id ≡ none)
        × (get_elem? m'.heap new ≡ some (close_connection socket d).1)
  handle_disconnect-replaced m old new c d found_old found_new mapped ne =
      let u : String = c.user_id in
      let (gone, closed, r) =
        remove_connection-get_connection server socket m u new d u new mapped found_new in
      rw
        (
          handle_disconnect_user m old c found_old,
          disconnect_user-get_connection m u u old,
          disconnect_user-heap m u old,
        )
        (
          gone ∙ rw (eq_refl u),
          get_elem?-close_at_ne socket (remove_connection server socket m u).1.heap old new ne
              ∙ (closed ∙ rw (==_self new)),
        )
