-- ===== src/Gateway/Manager/Effects.antt =====
-- What adding and removing a connection does to the map and to the other users' connections.
use chat_room.Prelude.{
  ℕ, ◌≡◌, refl, String, Option, none, some, List, [], ◌∷◌, length, get_elem?, get_elem?-append_last,
  get_elem?-append, inl, inr, str_eq, if◌then◌else◌, Bool-cases, ◌==◌, ==_iff, err,
}
use chat_room.Prelude.Dict.{lookup, lookup-insert, lookup-remove}
use chat_room.Redis.{Server, remove_user_online}
use chat_room.Gateway.Connection.{Socket, Connection, new_connection, close_connection}
use chat_room.Gateway.Manager.{
  Manager, not_found, get_connection, add_connection, remove_connection, remove_at, close_at,
  close_existing, offline,
}
use chat_room.Gateway.Manager.Live.{get_elem?-close_at_ne, get_elem?-close_at_self, length-close_at}

pub get_elem?-length : {A : Type 0} (xs : List A) → get_elem? xs (length xs) ≡ none
get_elem?-length [] = refl
get_elem?-length (x ∷ xs) = get_elem?-length xs

module _ {W F : Type 0} (socket : Socket W F) where
  length-close_existing :
      (heap : List (Connection W)) (o : Option ℕ)
      → length (close_existing socket heap o) ≡ length heap
  unfolding close_existing
  length-close_existing heap none = refl
  length-close_existing heap (some ref) = length-close_at socket heap ref

  get_elem?-close_at :
      (heap : List (Connection W)) (ref j : ℕ) (c : Connection W)
      → get_elem? heap ref ≡ some c
      → get_elem? (close_at socket heap ref).1 j
        ≡ (if ref == j then some (close_connection socket c).1 else get_elem? heap j)
  get_elem?-close_at heap ref j c e = elim (Bool-cases (ref == j)) [
    | inl same ↦ rw (same, ← ((==_iff ref j).0 same)) (get_elem?-close_at_self socket heap ref c e)
    | inr other ↦
        rw other
          (get_elem?-close_at_ne socket heap ref j (λ same. cc (other, (==_iff ref j).1 same)))
  ]

module _ {S W E F : Type 0} (server : Server S E) (socket : Socket W F) where
  -- AddConnection returns the connection that the map then has for the user, as NewConnection makes
  -- it, at a place that no connection had, and leaves what the map has for other users.
  pub add_connection-get_connection :
      (m : Manager S W) (u guild_id : String) (conn : W) (now : ℕ) (v : String)
      → let (ref, m') = add_connection server socket m u guild_id conn now in
        (get_connection m' v ≡ (if str_eq u v then some ref else get_connection m v))
        × (get_elem? m'.heap ref ≡ some (new_connection m.done u guild_id conn now))
        × (get_elem? m.heap ref ≡ none)
  unfolding add_connection get_connection
  add_connection-get_connection m u guild_id conn now v = (
    lookup-insert u v (length heap) m.connections,
    get_elem?-append_last heap (new_connection m.done u guild_id conn now),
    rw (length-close_existing socket m.heap (lookup u m.connections)) (get_elem?-length m.heap),
  )
    where
      heap : List (Connection W)
      heap = close_existing socket m.heap (lookup u m.connections)

  -- AddConnection closes the connection that the user had.
  pub add_connection-close_connection :
      (m : Manager S W) (u guild_id : String) (conn : W) (now : ℕ) (old : ℕ) (c : Connection W)
      → get_connection m u ≡ some old
      → get_elem? m.heap old ≡ some c
      → get_elem? (add_connection server socket m u guild_id conn now).1.heap old
        ≡ some (close_connection socket c).1
  unfolding add_connection get_connection close_existing
  add_connection-close_connection m u guild_id conn now old c e f = rw e (
      get_elem?-append (close_at socket m.heap old).1
        (new_connection m.done u guild_id conn now ∷ []) old (close_connection socket c).1
        (get_elem?-close_at_self socket m.heap old c f))

  -- RemoveConnection of a user whom the map does not have fails and changes nothing.
  pub remove_connection-not_found :
      (m : Manager S W) (u : String)
      → get_connection m u ≡ none
      → remove_connection server socket m u ≡ (err not_found, m)
  unfolding remove_connection remove_at get_connection
  remove_connection-not_found m u e = rw e

  -- RemoveConnection of a user whom the map has drops that user and closes the connection, whether
  -- Redis fails or not, and leaves what the map and the heap have for others; only an error of Redis
  -- is returned.
  pub remove_connection-get_connection :
      (m : Manager S W) (u : String) (ref : ℕ) (c : Connection W) (v : String) (other : ℕ)
      → get_connection m u ≡ some ref
      → get_elem? m.heap ref ≡ some c
      → let (r, m') = remove_connection server socket m u in
        (get_connection m' v ≡ (if str_eq u v then none else get_connection m v))
        × (get_elem? m'.heap other
            ≡ (if ref == other then some (close_connection socket c).1 else get_elem? m.heap other))
        × (r ≡ offline (remove_user_online server m.redis u).0)
  unfolding remove_connection remove_at get_connection
  remove_connection-get_connection m u ref c v other e f =
      rw e (lookup-remove u v m.connections, get_elem?-close_at socket m.heap ref other c f, refl)
