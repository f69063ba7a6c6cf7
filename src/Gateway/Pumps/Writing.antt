-- ===== src/Gateway/Pumps/Writing.antt =====
-- What writePump writes, and in which order.
pub mod Rounds
pub mod Order
use mathlib.Core.Path.{subst}
use native.Mathlib.Omega.{arith}
use mathlib.Core.List.{append_assoc, append-nil}
use chat_room.Prelude.{
  ◌≡◌, refl, sym, ap, ◌∙◌, Bool, Bool-cases, inl, inr, true, false, Option, none, some,
  Option-cases, List, [], ◌∷◌, ◌++◌, if◌then◌else◌, Result, ok, err,
}
use chat_room.Gateway.Connection.{
  Bytes, Socket, Connection, MessageType, binary, close, ping, WriteError, write_message, failing,
  close_connection, try_send, queued, blocks, panics, Sent, Channel,
}
use chat_room.Gateway.Pumps.{
  Choice, done_case, receive_case, tick_case, Round, loops, stops, waits, after_write, receive,
  write_round,
}

-- What a write of a message adds to the messages written.
abbrev pub added : {E : Type 0} → Result E (Unit {0}) → Bytes → List Bytes
added (ok u) m = m ∷ []
added (err e) m = []

-- Documented behaviour of a socket: it keeps the order of the messages, and control messages and a
-- close add none.
pub record Documented {W E : Type 0} (socket : Socket W E) : Type 0 where
  pub written : W → List Bytes
  pub write_binary :
      (w : W) (m : Bytes)
      → written (socket.write_message w binary m).1
        ≡ written w ++ added (socket.write_message w binary m).0 m
  pub write_ping : (w : W) (m : Bytes) → written (socket.write_message w ping m).1 ≡ written w
  pub write_close : (w : W) (m : Bytes) → written (socket.write_message w close m).1 ≡ written w
  pub closes : (w : W) → written (socket.close w).1 ≡ written w

-- The connection beside its writePump, which may have returned.
pub record Pump (W : Type 0) : Type 0 where
  pub connection : Connection W
  pub running : Bool

-- What happens: a round of the pump, a message sent into the channel, which is dropped after a while
-- where the channel is full, and the close of the connection.
pub data Event : Type 0 where
  pumps : Choice → Event
  enqueues : Bytes → Event
  closes : Event

module _ {W E : Type 0} (socket : Socket W E) where
  pub after_round : Pump W → Round W → Pump W
  after_round p (loops c) = record { connection = c; running = true }
  after_round p (stops c) = record { connection = c; running = false }
  after_round p waits = p

  pub after_send : Pump W → Sent → Option (Pump W)
  after_send p (queued send) = some (record p { connection = record p.connection { send = send } })
  after_send p blocks = some p
  after_send p panics = none

  pub step : Pump W → Event → Option (Pump W)
  unfolding after_round after_send
  step p (pumps choice) =
      some (if p.running then after_round p (write_round socket p.connection choice) else p)
  step p (enqueues m) = after_send p (try_send p.connection.send m)
  step p closes = some (record p { connection = (close_connection socket p.connection).1 })

  -- none is the panic of a send into a closed channel.
  unfoldable pub run : Pump W → List Event → Option (Pump W)
  unfolding step
  run p [] = some p
  run p (e ∷ es) = elim (step p e) [ none ↦ none | some p' ↦ run p' es ]

  pub accepted_send : Sent → Bytes → List Bytes
  accepted_send (queued send) m = m ∷ []
  accepted_send blocks m = []
  accepted_send panics m = []

  pub accepted_event : Pump W → Event → List Bytes
  unfolding accepted_send
  accepted_event p (pumps choice) = []
  accepted_event p (enqueues m) = accepted_send (try_send p.connection.send m) m
  accepted_event p closes = []

  -- The messages that the channel took, in order.
  pub accepted : Pump W → List Event → List Bytes
  unfolding accepted_event step
  accepted p [] = []
  accepted p (e ∷ es) = elim (step p e) [
    | none ↦ []
    | some p' ↦ accepted_event p e ++ accepted p' es
  ]

  module _ (doc : Documented socket) where
    -- Messages that the socket has written, and those that wait in the channel.
    abbrev pub sent_by : Pump W → List Bytes
    sent_by p = doc.written p.connection.conn

    abbrev pub waiting : Pump W → List Bytes
    waiting p = p.connection.send.buffer

    -- What an event does to the messages, while the pump runs before it and after it.
    abbrev pub StepKeeps : Pump W → List Bytes → Pump W → Type 0
    StepKeeps p more q =
        (rest : List Bytes) × (sent_by q ++ rest ≡ sent_by p ++ (waiting p ++ more))
        × (q.running ≡ true → rest ≡ waiting q)
