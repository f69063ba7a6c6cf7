-- ===== src/Gateway/Pumps/Writing/Order.antt =====
-- That writePump keeps the messages in order.
use mathlib.Core.Path.{subst}
use native.Mathlib.Omega.{arith}
use mathlib.Core.List.{append_assoc, append-nil}
use chat_room.Prelude.{
  ◌≡◌, refl, sym, ap, ◌∙◌, Bool, Bool-cases, inl, inr, true, false, some, Option-cases, List, [],
  ◌∷◌, ◌++◌, if◌then◌else◌,
}
use chat_room.Gateway.Connection.{
  Bytes, Socket, Connection, close_connection, try_send, queued, blocks, panics, Sent, Channel,
}
use chat_room.Gateway.Pumps.{Round, loops, stops, waits, write_round}
use chat_room.Gateway.Pumps.Writing.{
  Documented, Pump, Event, pumps, enqueues, closes, after_round, after_send, step, run, accepted,
  accepted_event, accepted_send, sent_by, waiting, StepKeeps,
}
use chat_room.Gateway.Pumps.Writing.Rounds.{RoundKeeps, round_kept}

some_inj : {A : Type 0} {a b : A} → some a ≡ some b → a ≡ b
some_inj h = cc

module _ {W E : Type 0} (socket : Socket W E) (doc : Documented socket) where
  after_round_kept :
      (p : Pump W) (r : Round W)
      → RoundKeeps socket doc p.connection r
      → StepKeeps socket doc p [] (after_round socket p r)
  unfolding after_round
  after_round_kept p (loops d) k = (d.send.buffer, k ∙ rw append-nil refl, λ h. refl)
  after_round_kept p (stops d) (rest, k) = (rest, k ∙ rw append-nil refl, λ h. cc)
  after_round_kept p waits k = (waiting socket doc p, rw append-nil refl, λ h. refl)

  try_send-queued :
      (ch send : Channel) (m : Bytes)
      → try_send ch m ≡ queued send
      → send.buffer ≡ ch.buffer ++ m ∷ []
  unfolding try_send
  try_send-queued ch send m h = ground (arith, h)

  close_kept :
      (c : Connection W)
      → (doc.written (close_connection socket c).1.conn ≡ doc.written c.conn)
        × ((close_connection socket c).1.send.buffer ≡ c.send.buffer)
  unfolding close_connection
  close_kept c = elim (Bool-cases c.closed) [
    | inl closed ↦ rw closed (refl, refl)
    | inr opened ↦ rw opened (doc.closes c.conn, refl)
  ]

  after_send_kept :
      (p q : Pump W) (m : Bytes) (r : Sent)
      → try_send p.connection.send m ≡ r
      → after_send socket p r ≡ some q
      → StepKeeps socket doc p (accepted_send socket r m) q
  unfolding after_send accepted_send
  after_send_kept p q m (queued send) e h = subst (StepKeeps socket doc p (m ∷ [])) (some_inj h) (
    waiting socket doc p ++ m ∷ [],
    refl,
    λ running. sym (try_send-queued p.connection.send send m e),
  )
  after_send_kept p q m blocks e h =
      subst (StepKeeps socket doc p []) (some_inj h)
        (waiting socket doc p, rw append-nil refl, λ running. refl)
  after_send_kept p q m panics e h = cc

  step_kept :
      (p q : Pump W) (e : Event)
      → p.running ≡ true
      → step socket p e ≡ some q
      → StepKeeps socket doc p (accepted_event socket p e) q
  unfolding step accepted_event
  step_kept p q (pumps choice) on h =
      subst (StepKeeps socket doc p []) (some_inj h) (finish p.running on)
    where
      finish :
          (b : Bool)
          → b ≡ true
          → StepKeeps socket doc p []
              (if b then after_round socket p (write_round socket p.connection choice) else p)
      finish true t =
          after_round_kept p (write_round socket p.connection choice)
            (round_kept socket doc p.connection choice)
      finish false t = cc
  step_kept p q (enqueues m) on h = after_send_kept p q m (try_send p.connection.send m) refl h
  step_kept p q closes on h =
      let (w, b) = close_kept p.connection in
      subst (StepKeeps socket doc p []) (some_inj h)
        (waiting socket doc p, rw (w, append-nil) refl, λ running. sym b)

  sent_still :
      (p q : Pump W) (r : Sent)
      → p.running ≡ false
      → after_send socket p r ≡ some q
      → (q.running ≡ false) × (sent_by socket doc q ≡ sent_by socket doc p)
  unfolding after_send
  sent_still p q (queued send) off h =
      subst (λ (r : Pump W). (r.running ≡ false) × (sent_by socket doc r ≡ sent_by socket doc p))
        (some_inj h) (off, refl)
  sent_still p q blocks off h =
      subst (λ (r : Pump W). (r.running ≡ false) × (sent_by socket doc r ≡ sent_by socket doc p))
        (some_inj h) (off, refl)
  sent_still p q panics off h = cc

  -- A pump that has returned writes no more.
  stopped_still :
      (p q : Pump W) (e : Event)
      → p.running ≡ false
      → step socket p e ≡ some q
      → (q.running ≡ false) × (sent_by socket doc q ≡ sent_by socket doc p)
  unfolding step
  stopped_still p q (pumps choice) off h =
      subst (λ (r : Pump W). (r.running ≡ false) × (sent_by socket doc r ≡ sent_by socket doc p))
        (some_inj h) (finish p.running off)
    where
      finish :
          (b : Bool)
          → b ≡ false
          → let r : Pump W =
              if b then after_round socket p (write_round socket p.connection choice) else p in
            (r.running ≡ false) × (sent_by socket doc r ≡ sent_by socket doc p)
      finish true t = cc
      finish false t = (off, refl)
  stopped_still p q (enqueues m) off h = sent_still p q (try_send p.connection.send m) off h
  stopped_still p q closes off h =
      subst (λ (r : Pump W). (r.running ≡ false) × (sent_by socket doc r ≡ sent_by socket doc p))
        (some_inj h) (off, (close_kept p.connection).0)

  run-cons :
      (p q : Pump W) (e : Event) (es : List Event)
      → run socket p (e ∷ es) ≡ some q
      → (r : Pump W) × (step socket p e ≡ some r) × (run socket r es ≡ some q)
  unfolding run
  run-cons p q e es h = elim (Option-cases (step socket p e)) [
    | inl panic ↦ (let k = (rw (run, panic) at h) in cc)
    | inr (r, went) ↦ (r, went, rw (run, went) at h)
  ]

  run_still :
      (es : List Event) (p q : Pump W)
      → p.running ≡ false
      → run socket p es ≡ some q
      → (q.running ≡ false) × (sent_by socket doc q ≡ sent_by socket doc p)
  unfolding run
  run_still [] p q off h =
      subst (λ (r : Pump W). (r.running ≡ false) × (sent_by socket doc r ≡ sent_by socket doc p))
        (some_inj h) (off, refl)
  run_still (e ∷ es) p q off h =
      let (r, went, later) = run-cons p q e es h in
      let (off', same) = stopped_still p r e off went in
      let (off'', same') = run_still es r q off' later in (off'', same' ∙ same)

  accepted-cons :
      (p q : Pump W) (e : Event) (es : List Event)
      → step socket p e ≡ some q
      → accepted socket p (e ∷ es) ≡ accepted_event socket p e ++ accepted socket q es
  unfolding accepted
  accepted-cons p q e es h = rw (accepted, h) refl

  two_steps :
      (p r q : Pump W) (m n : List Bytes)
      → StepKeeps socket doc p m r
      → StepKeeps socket doc r n q
      → r.running ≡ true
      → StepKeeps socket doc p (m ++ n) q
  two_steps p r q m n (rest, kept, while_on) (rest', kept', while_on') on = (
    rest',
    kept'
        ∙ ap (λ (l : List Bytes). sent_by socket doc r ++ (l ++ n)) (sym (while_on on))
        ∙ sym (append_assoc (sent_by socket doc r) (rest) (n))
        ∙ ap (◌++ n) kept
        ∙ append_assoc (sent_by socket doc p) (waiting socket doc p ++ m) (n)
        ∙ ap (◌++◌ (sent_by socket doc p)) (append_assoc (waiting socket doc p) (m) (n)),
    while_on',
  )

  then_stopped :
      (p r q : Pump W) (m n : List Bytes)
      → StepKeeps socket doc p m r
      → (q.running ≡ false) × (sent_by socket doc q ≡ sent_by socket doc r)
      → StepKeeps socket doc p (m ++ n) q
  then_stopped p r q m n (rest, kept, while_on) (off, same) = (
    rest ++ n,
    ap (◌++ (rest ++ n)) same
        ∙ sym (append_assoc (sent_by socket doc r) (rest) (n))
        ∙ ap (◌++ n) kept
        ∙ append_assoc (sent_by socket doc p) (waiting socket doc p ++ m) (n)
        ∙ ap (◌++◌ (sent_by socket doc p)) (append_assoc (waiting socket doc p) (m) (n)),
    λ on. cc,
  )

  -- The messages that the socket writes are, in order and none twice, the first of those that waited
  -- in the channel and those that it took since, whatever the rounds of the pump, the senders and a
  -- close of the connection make of it; while the pump runs, the others wait in the channel.
  pub run-written :
      (es : List Event) (p q : Pump W)
      → p.running ≡ true
      → run socket p es ≡ some q
      → StepKeeps socket doc p (accepted socket p es) q
  unfolding run accepted
  run-written [] p q on h =
      subst (StepKeeps socket doc p []) (some_inj h)
        (waiting socket doc p, rw append-nil refl, λ running. refl)
  run-written (e ∷ es) p q on h =
      let (r, went, later) = run-cons p q e es h in
      let kept : StepKeeps socket doc p (accepted_event socket p e) r = step_kept p r e on went in
      rw (accepted-cons p r e es went) (elim (Bool-cases r.running) [
        | inl on' ↦
            two_steps p r q (accepted_event socket p e) (accepted socket r es) kept
              (run-written es r q on' later) on'
        | inr off ↦
            then_stopped p r q (accepted_event socket p e) (accepted socket r es) kept
              (run_still es r q off later)
      ])
