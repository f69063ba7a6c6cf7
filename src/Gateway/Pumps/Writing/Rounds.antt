-- ===== src/Gateway/Pumps/Writing/Rounds.antt =====
-- What a round of writePump does to the messages written and waiting.
use mathlib.Core.List.{append_assoc, append-nil}
use chat_room.Prelude.{
  ◌≡◌, refl, sym, ap, ◌∙◌, Bool, Bool-cases, inl, inr, true, false, List, [], ◌∷◌, ◌++◌,
  if◌then◌else◌, Result, ok, err,
}
use chat_room.Gateway.Connection.{
  Bytes, Socket, Connection, MessageType, binary, close, ping, WriteError, write_message, failing,
  Channel,
}
use chat_room.Gateway.Pumps.{
  Choice, done_case, receive_case, tick_case, Round, loops, stops, waits, after_write, receive,
  write_round,
}
use chat_room.Gateway.Pumps.Writing.{added, Documented}

module _ {W E : Type 0} (socket : Socket W E) (doc : Documented socket) where
  write_added :
      (c : Connection W) (m : Bytes)
      → doc.written (write_message socket c binary m).1.conn
        ≡ doc.written c.conn ++ added (write_message socket c binary m).0 m
  unfolding write_message
  write_added c m = elim (Bool-cases c.closed) [
    | inl closed ↦ rw closed (sym (append-nil (doc.written c.conn)))
    | inr opened ↦ rw opened (
        doc.write_binary c.conn m
        ∙ ap (◌++◌ (doc.written c.conn)) (same (socket.write_message c.conn binary m).0))
  ]
    where
      same : (r : Result E (Unit {0})) → added r m ≡ added (failing socket r) m
      same (ok u) = refl
      same (err e) = refl

  write_control :
      (c : Connection W) (type : MessageType) (m : Bytes)
      → doc.written (socket.write_message c.conn type m).1 ≡ doc.written c.conn
      → doc.written (write_message socket c type m).1.conn ≡ doc.written c.conn
  unfolding write_message
  write_control c type m h = elim (Bool-cases c.closed) [
    | inl closed ↦ rw closed refl
    | inr opened ↦ rw opened h
  ]

  write_send :
      (c : Connection W) (type : MessageType) (m : Bytes)
      → (write_message socket c type m).1.send ≡ c.send
  unfolding write_message
  write_send c type m = elim (Bool-cases c.closed) [
    | inl closed ↦ rw closed refl
    | inr opened ↦ rw opened refl
  ]

  -- A round keeps the messages written and waiting, in order; one that stops may lose some that wait.
  abbrev pub RoundKeeps : Connection W → Round W → Type 0
  RoundKeeps c (loops d) = doc.written d.conn ++ d.send.buffer ≡ doc.written c.conn ++ c.send.buffer
  RoundKeeps c (stops d) =
      (rest : List Bytes) × (doc.written d.conn ++ rest ≡ doc.written c.conn ++ c.send.buffer)
  RoundKeeps c waits = Unit {0}

  control_kept :
      (c d : Connection W) (r : Result (WriteError E) (Unit {0}))
      → doc.written d.conn ≡ doc.written c.conn
      → d.send ≡ c.send
      → RoundKeeps c (after_write socket (r, d))
  unfolding after_write
  control_kept c d (ok u) w s = rw (w, s) refl
  control_kept c d (err e) w s = (c.send.buffer, rw w refl)

  message_kept :
      (c d : Connection W) (r : Result (WriteError E) (Unit {0})) (m : Bytes) (ms : List Bytes)
      → c.send.buffer ≡ m ∷ ms
      → d.send.buffer ≡ ms
      → doc.written d.conn ≡ doc.written c.conn ++ added r m
      → RoundKeeps c (after_write socket (r, d))
  unfolding after_write
  message_kept c d (ok u) m ms b s w = rw (w, s, b, append_assoc) refl
  message_kept c d (err e) m ms b s w = (m ∷ ms, rw (w, b, append-nil) refl)

  receive_kept :
      (c : Connection W) (ms : List Bytes) → c.send.buffer ≡ ms → RoundKeeps c (receive socket c ms)
  unfolding receive
  receive_kept c (m ∷ ms) b =
      let c' : Connection W = record c { send = record c.send { buffer = ms } } in
      message_kept c (write_message socket c' binary m).1 (write_message socket c' binary m).0 m ms
        b (ap (λ (ch : Channel). ch.buffer) (write_send c' binary m)) (write_added c' m)
  receive_kept c [] b = finish c.send.closed
    where
      finish :
          (closed : Bool)
          → RoundKeeps c (if closed then stops (write_message socket c close []).1 else waits)
      finish true = ([], rw (write_control c close [] (doc.write_close c.conn []), b) refl)
      finish false = tt

  pub round_kept : (c : Connection W) (choice : Choice) → RoundKeeps c (write_round socket c choice)
  unfolding write_round
  round_kept c done_case = elim (Bool-cases c.done) [
    | inl done ↦ rw done (c.send.buffer, refl)
    | inr live ↦ rw live tt
  ]
  round_kept c receive_case = receive_kept c c.send.buffer refl
  round_kept c tick_case =
      control_kept c (write_message socket c ping []).1 (write_message socket c ping []).0
        (write_control c ping [] (doc.write_ping c.conn [])) (write_send c ping [])
