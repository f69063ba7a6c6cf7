-- ===== src/Gateway/Pumps/Examples.antt =====
-- A writePump over a socket that keeps what is written, beside two senders and a close.
use chat_room.Prelude.{◌≡◌, ◌++◌, refl, true, false, some, List, [], ◌∷◌, Result, ok, err}
use chat_room.Gateway.Connection.{
  try_send, write_message, close_connection, Bytes, Socket, MessageType, text, binary, close, ping,
  new_channel,
}
use chat_room.Gateway.Pumps.{write_round, done_case, receive_case, tick_case}
use chat_room.Gateway.Pumps.Writing.{
  Documented, Pump, Event, pumps, enqueues, closes, run, accepted, sent_by, waiting,
}
use chat_room.Gateway.Pumps.Writing.Order.{run-written}

abbrev write : List Bytes → MessageType → Bytes → Result (Unit {0}) (Unit {0}) × List Bytes
write w binary m = (ok tt, w ++ m ∷ [])
write w text m = (err tt, w)
write w close m = (ok tt, w)
write w ping m = (ok tt, w)

abbrev keeping : Socket (List Bytes) (Unit {0})
keeping = record { write_message = write; close = λ w. (ok tt, w) }

keeping-Documented : Documented keeping
keeping-Documented = record {
  written = λ w. w;
  write_binary = λ w m. refl;
  write_ping = λ w m. refl;
  write_close = λ w m. refl;
  closes = λ w. refl;
}

abbrev before : Pump (List Bytes)
before = record {
  connection = record {
    user_id = "ann";
    guild_id = "g1";
    conn = [];
    send = new_channel;
    last_heartbeat = 1000;
    done = false;
    closed = false;
  };
  running = true;
}

-- Of three messages two are written, and the connection is closed before the third.
abbrev events : List Event
events =
    enqueues (1 ∷ [])
    ∷ pumps receive_case
    ∷ enqueues (2 ∷ [])
    ∷ pumps tick_case
    ∷ enqueues (3 ∷ [])
    ∷ pumps receive_case
    ∷ closes
    ∷ pumps done_case
    ∷ []

abbrev after : Pump (List Bytes)
after = record {
  connection = record {
    user_id = "ann";
    guild_id = "g1";
    conn = (1 ∷ []) ∷ (2 ∷ []) ∷ [];
    send = record { buffer = (3 ∷ []) ∷ []; closed = true };
    last_heartbeat = 1000;
    done = true;
    closed = true;
  };
  running = false;
}

run-events : run keeping before events ≡ some after
unfolding run try_send write_round write_message close_connection
run-events = refl

run-written_example :
    (rest : List Bytes) × (sent_by keeping keeping-Documented after ++ rest
      ≡ sent_by keeping keeping-Documented before
        ++ (waiting keeping keeping-Documented before ++ accepted keeping before events))
    × (after.running ≡ true → rest ≡ waiting keeping keeping-Documented after)
run-written_example = run-written keeping keeping-Documented events before after refl run-events
