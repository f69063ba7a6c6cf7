-- ===== src/Gateway/Connection/Lifecycle.antt =====
-- The life of one connection: open until the first Close, and closed for ever after.
use chat_room.Prelude.{◌≡◌, true, ok, err, arith}
use chat_room.Gateway.Connection.{
  Socket, Connection, panics, close_sent, Bytes, MessageType, try_send, write_message,
  close_connection,
}

-- The three signs of a closed connection agree: the flag, the context and the channel.
pub record IsCoherent {W : Type 0} (c : Connection W) : Type 0 where
  pub done : c.done ≡ c.closed
  pub send : c.send.closed ≡ c.closed

module _ {W E : Type 0} (socket : Socket W E) where
  -- Close leaves a closed connection, whichever it is given; a second Close does nothing and has
  -- no error; and from then on WriteMessage refuses without touching the WebSocket, and a send on
  -- the channel panics.
  pub close_connection-final :
      (c : Connection W) (type : MessageType) (bytes : Bytes)
      → IsCoherent c
      → let c' = (close_connection socket c).1 in
        (c'.closed ≡ true)
        × IsCoherent c'
        × (close_connection socket c' ≡ (ok tt, c'))
        × (write_message socket c' type bytes ≡ (err close_sent, c'))
        × (try_send c'.send bytes ≡ panics)
  unfolding close_connection write_message try_send
  close_connection-final c type bytes h = ground arith

  -- What Close keeps.
  pub close_connection-user_id :
      (c : Connection W) → (close_connection socket c).1.user_id ≡ c.user_id
  unfolding close_connection
  close_connection-user_id c = ground arith

  pub close_connection-closed : (c : Connection W) → (close_connection socket c).1.closed ≡ true
  unfolding close_connection
  close_connection-closed c = ground arith

  pub close_connection-again :
      (c : Connection W)
      → (close_connection socket (close_connection socket c).1).1 ≡ (close_connection socket c).1
  unfolding close_connection
  close_connection-again c = ground arith
