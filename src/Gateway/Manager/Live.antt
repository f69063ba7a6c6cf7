-- ===== src/Gateway/Manager/Live.antt =====
-- Connections on the heap: what Close and a new connection change there.
use chat_room.Prelude.{
  ℕ, ◌≡◌, ◌≢◌, ◌∙◌, String, false, some, List, [], ◌∷◌, ◌++◌, length, get_elem?, get_elem?-set_self,
  get_elem?-set_ne, length-set, get_elem?-append, get_elem?-append_last, Option-cases, inl, inr,
}
use chat_room.Gateway.Connection.{Socket, Connection, close_connection}
use chat_room.Gateway.Manager.{close_at}

-- The connection at a place of the heap is open and belongs to the user.
pub record Live {W : Type 0} (heap : List (Connection W)) (u : String) (ref : ℕ) : Type 0 where
  pub connection : Connection W
  pub found : get_elem? heap ref ≡ some connection
  pub user : connection.user_id ≡ u
  pub unclosed : connection.closed ≡ false
  pub sendable : connection.send.closed ≡ false

module _ {W : Type 0} where
  pub Live-append :
      (heap more : List (Connection W)) (u : String) (ref : ℕ)
      → Live heap u ref
      → Live (heap ++ more) u ref
  Live-append heap more u ref l = record {
    connection = l.connection;
    found = get_elem?-append heap more ref l.connection l.found;
    user = l.user;
    unclosed = l.unclosed;
    sendable = l.sendable;
  }

  pub Live-append_last :
      (heap : List (Connection W)) (c : Connection W) (u : String) (ref : ℕ)
      → ref ≡ length heap
      → c.user_id ≡ u
      → c.closed ≡ false
      → c.send.closed ≡ false
      → Live (heap ++ c ∷ []) u ref
  Live-append_last heap c u ref e user unclosed sendable = record {
    connection = c;
    found = rw e (get_elem?-append_last heap c);
    user = user;
    unclosed = unclosed;
    sendable = sendable;
  }

  -- One place holds one user's connection.
  pub Live-user :
      (heap : List (Connection W)) (u v : String) (ref : ℕ)
      → Live heap u ref
      → Live heap v ref
      → u ≡ v
  Live-user heap u v ref l k = cc (l.found, k.found, l.user, k.user)

module _ {W F : Type 0} (socket : Socket W F) where
  pub get_elem?-close_at_ne :
      (heap : List (Connection W)) (ref j : ℕ)
      → ref ≢ j
      → get_elem? (close_at socket heap ref).1 j ≡ get_elem? heap j
  unfolding close_at
  get_elem?-close_at_ne heap ref j h = elim (Option-cases (get_elem? heap ref)) [
    | inl e ↦ rw (e, close_at)
    | inr (c, e) ↦ rw (e, close_at) (get_elem?-set_ne heap ref j _ h)
  ]

  pub get_elem?-close_at_self :
      (heap : List (Connection W)) (ref : ℕ) (c : Connection W)
      → get_elem? heap ref ≡ some c
      → get_elem? (close_at socket heap ref).1 ref ≡ some (close_connection socket c).1
  unfolding close_at
  get_elem?-close_at_self heap ref c e = rw (e, close_at) (get_elem?-set_self heap ref _ c e)

  pub length-close_at :
      (heap : List (Connection W)) (ref : ℕ) → length (close_at socket heap ref).1 ≡ length heap
  unfolding close_at
  length-close_at heap ref = elim (Option-cases (get_elem? heap ref)) [
    | inl e ↦ rw (e, close_at)
    | inr (c, e) ↦ rw (e, close_at) (length-set heap ref _)
  ]

  pub Live-close_at :
      (heap : List (Connection W)) (u : String) (ref j : ℕ)
      → ref ≢ j
      → Live heap u j
      → Live (close_at socket heap ref).1 u j
  Live-close_at heap u ref j h l = record {
    connection = l.connection;
    found = get_elem?-close_at_ne heap ref j h ∙ l.found;
    user = l.user;
    unclosed = l.unclosed;
    sendable = l.sendable;
  }
