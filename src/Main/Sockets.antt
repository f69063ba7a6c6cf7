-- ===== src/Main/Sockets.antt =====
-- Who gets what is sent to a guild.
use chat_room.Prelude.{nonempty, ℕ, ◌≡◌, ◌≢◌, refl, some, List, eq_iff, get_elem?, Result, ok}
use chat_room.Redis.{Server}
use chat_room.Jwt.{Library, TokenManager, Claims, parse_token}
use chat_room.Gateway.Connection.{Bytes, Socket, Connection, new_connection}
use chat_room.Gateway.Manager.{Manager, add_connection, get_connection}
use chat_room.Gateway.Manager.Effects.{add_connection-get_connection}
use chat_room.Gateway.Manager.Invariant.{IsWellFormed, adds, step, step-IsWellFormed}
use chat_room.Gateway.Handler.{WsMessage, Codec, handle_downstream_message}
use chat_room.Gateway.Handler.Downstream.{delivered, handle_downstream_message-delivered}
use chat_room.Http.{Context, returned}
use chat_room.Main.{serve_ws, on_token, on_upgrade}

module _ {S W E F U X P : Type 0} (server : Server S E) (socket : Socket W F) (lib : Library X)
    (tm : TokenManager) (codec : Codec P) where
  -- Whoever has a token that is valid gets the next message that is published for whichever guild
  -- the query names, while no other goroutine interferes: that the user is a member of the guild
  -- is not asked for.
  pub serve_ws-delivered :
      (m : Manager S W) (c : Context) (now later : ℕ) (claims : Claims) (upgrade : Result U W)
      (conn : W) (payload out : Bytes) (msg : WsMessage)
      → IsWellFormed m
      → c.query "token" ≢ ""
      → parse_token lib tm now (c.query "token") ≡ ok claims
      → upgrade ≡ ok conn
      → codec.unmarshal payload ≡ (ok tt, msg)
      → codec.marshal msg ≡ ok out
      → msg.guild_id ≡ c.query "guild_id"
      → (m' : Manager S W) × (ref : ℕ) × (n : ℕ) × (heap' : List (Connection W)) × (serve_ws server
            socket lib tm m c now later upgrade
          ≡ returned m' c)
        × (get_connection m' claims.user_id ≡ some ref)
        × (handle_downstream_message codec (λ r heap. heap) m' payload ≡ some (ok n, heap'))
        × (get_elem? heap' ref
            ≡ some (
                delivered out
                  (new_connection m.done claims.user_id (c.query "guild_id") conn later)))
  unfolding serve_ws on_token on_upgrade step new_connection
  serve_ws-delivered m c now later claims upgrade conn payload out msg v ne valid upgraded read made
        same =
      let (ref, m') =
        add_connection server socket m claims.user_id (c.query "guild_id") conn later in
      let (entry, placed, fresh) =
        add_connection-get_connection server socket m claims.user_id (c.query "guild_id") conn later
          claims.user_id in
      let entry' = (rw ((eq_iff claims.user_id claims.user_id).1 refl) at entry) in
      let (n, heap', went, got) =
        handle_downstream_message-delivered codec m' payload out msg claims.user_id ref
          (new_connection m.done claims.user_id (c.query "guild_id") conn later)
          (step-IsWellFormed server socket m (adds claims.user_id (c.query "guild_id") conn later)
            v)
          read made entry' placed in
      (
        m',
        ref,
        n,
        heap',
        rw (nonempty (c.query "token") ne, valid, upgraded) refl,
        entry',
        went,
        (rw (same, (eq_iff (c.query "guild_id") (c.query "guild_id")).1 refl) at got),
      )
