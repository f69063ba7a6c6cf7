-- ===== src/Gateway/Handler/Upstream.antt =====
-- What a client can get into Kafka.
use mathlib.Core.Path.{subst}
use chat_room.Prelude.{
  ℕ, ◌<◌, ◌≤◌, ◌≡◌, ◌⊎◌, inl, inr, refl, sym, ap, String, false, some, [], ◌∷◌, Result, ok, err,
  >>=_ok, length, eq_iff, arith,
}
use chat_room.Prelude.Utf8.{bytes_of}
use chat_room.Kafka.Producer
use chat_room.Kafka.Producer.{Sarama, produce}
use chat_room.Kafka.Producer.Sending.{produce-ok}
use chat_room.Gateway.Connection.{Bytes, Connection}
use chat_room.Gateway.Handler.{
  WsMessage, Codec, Error, Invalid, is_empty, max_content, validate_message, stamp, after_json,
  after_proto, parse, checked, serialized, prepare, produced, send_prepared,
  handle_upstream_message,
}

-- What a message that a connection sends on must be.
pub record IsFrom {W : Type 0} (conn : Connection W) (now : ℕ) (msg : WsMessage) : Type 0 where
  pub user : msg.user_id ≡ conn.user_id
  pub guild : (conn.guild_id ≡ "") ⊎ (msg.guild_id ≡ conn.guild_id)
  pub time : msg.timestamp ≡ now
  pub nonempty : 0 < length msg.content
  pub bounded : length msg.content ≤ max_content

is_empty-length : (bytes : Bytes) → is_empty bytes ≡ false → 0 < length bytes
is_empty-length [] h = cc
is_empty-length (b ∷ bs) h = omega arith

module _ {W : Type 0} where
  stamp-IsFrom :
      (conn : Connection W) (now : ℕ) (msg : WsMessage)
      → validate_message msg conn ≡ ok tt
      → IsFrom conn now (stamp msg conn now)
  unfolding validate_message stamp
  stamp-IsFrom conn now msg e = record {
    user = refl;
    guild = ground (arith, eq_iff conn.guild_id "");
    time = refl;
    nonempty = is_empty-length msg.content (ground arith);
    bounded = ground arith;
  }

module _ {P E : Type 0} where
  checked-ok :
      (r : Result Invalid (Unit {0}))
      → ◌≡◌ {A = Result (Error P E) (Unit {0})} (checked r) (ok tt)
      → r ≡ ok tt
  unfolding checked
  checked-ok (ok u) h = refl
  checked-ok (err e) h = cc

  serialized-ok :
      (r : Result P Bytes) (out : Bytes)
      → ◌≡◌ {A = Result (Error P E) Bytes} (serialized r) (ok out)
      → r ≡ ok out
  unfolding serialized
  serialized-ok (ok u) out h = ground arith
  serialized-ok (err e) out h = cc

module _ {P : Type 0} (codec : Codec P) where
  -- The bytes are this message: in protobuf, or else in JSON, over what protobuf has left.
  abbrev pub IsRead : Bytes → WsMessage → Type 0
  IsRead bytes m =
      (codec.unmarshal bytes ≡ (ok tt, m))
      ⊎ ((e : P) × (left : WsMessage) × (codec.unmarshal bytes ≡ (err e, left))
          × (codec.unmarshal_json left bytes ≡ (ok tt, m)))

  -- The bytes are a message of the same content.
  abbrev pub Reads : Bytes → WsMessage → Type 0
  Reads bytes msg = (m : WsMessage) × IsRead bytes m × (msg.content ≡ m.content)

  module _ {E : Type 0} where
    after_json-ok :
        (e : P) (r : Result P (Unit {0}) × WsMessage) (m : WsMessage)
        → ◌≡◌ {A = Result (Error P E) WsMessage} (after_json codec e r) (ok m)
        → r ≡ (ok tt, m)
    unfolding after_json
    after_json-ok e (ok u, msg) m h = (let same : msg ≡ m = ground (arith, h) in rw same refl)
    after_json-ok e (err x, msg) m h = cc

    after_proto-ok :
        (bytes : Bytes) (r : Result P (Unit {0}) × WsMessage) (m : WsMessage)
        → codec.unmarshal bytes ≡ r
        → ◌≡◌ {A = Result (Error P E) WsMessage} (after_proto codec bytes r) (ok m)
        → IsRead bytes m
    unfolding after_proto
    after_proto-ok bytes (ok u, msg) m is h =
        (let same : msg ≡ m = ground (arith, h) in inl (rw (← same) is))
    after_proto-ok bytes (err e, msg) m is h =
        inr (e, msg, is, after_json-ok e (codec.unmarshal_json msg bytes) m h)

    parse-IsRead :
        (bytes : Bytes) (m : WsMessage)
        → ◌≡◌ {A = Result (Error P E) WsMessage} (parse codec bytes) (ok m)
        → IsRead bytes m
    unfolding parse
    parse-IsRead bytes m h = after_proto-ok bytes (codec.unmarshal bytes) m refl h

module _ {W P : Type 0} (codec : Codec P) where
  prepare-IsFrom :
      {E : Type 0} (conn : Connection W) (bytes : Bytes) (now : ℕ) (msg : WsMessage) (out : Bytes)
      → ◌≡◌ {A = Result (Error P E) (WsMessage × Bytes)}
          (prepare codec conn bytes now)
          (ok (msg, out))
      → IsFrom conn now msg × (codec.marshal msg ≡ ok out) × Reads codec bytes msg
  unfolding prepare stamp
  prepare-IsFrom {E} conn bytes now msg out h =
      let (m, parsed, h1) = >>=_ok (parse codec bytes) _ (msg, out) h in
      let (u, valid, h2) = >>=_ok (checked (validate_message m conn)) _ (msg, out) h1 in
      let (o, made, h3) = >>=_ok (serialized (codec.marshal (stamp m conn now))) _ (msg, out) h2 in
      let sent : ◌≡◌ {A = WsMessage × Bytes} (stamp m conn now, o) (msg, out) =
        ground (arith, h3) in
      subst (λ p. IsFrom conn now p.0 × (codec.marshal p.0 ≡ ok p.1) × Reads codec bytes p.0) sent
        (
          stamp-IsFrom conn now m (checked-ok (validate_message m conn) valid),
          serialized-ok (codec.marshal (stamp m conn now)) o made,
          (m, parse-IsRead codec bytes m parsed, refl),
        )

produced-ok :
    {P X : Type 0} (r : Result (Producer.Error X) (ℕ × ℕ))
    → ◌≡◌ {A = Result (Error P (Producer.Error X)) (Unit {0})} (produced r) (ok tt)
    → (at : ℕ × ℕ) × (r ≡ ok at)
unfolding produced
produced-ok (ok at) h = (at, refl)
produced-ok (err e) h = cc

module _ {K X P : Type 0} (sarama : Sarama K X) (codec : Codec P) (topic : String) where
  acknowledged :
      (k k' : K) (msg : WsMessage) (out : Bytes)
      → send_prepared sarama codec topic k (ok (msg, out)) ≡ (ok tt, k')
      → (at : ℕ × ℕ) × (sarama.send_message k
            (record { topic = topic; key = some (bytes_of msg.guild_id); value = out })
          ≡ (ok at, k'))
  unfolding send_prepared
  acknowledged k k' msg out h =
      let r = produce sarama k topic (some (bytes_of msg.guild_id)) out in
      let (at, e) = produced-ok r.0 (ap (λ p. p.0) h) in
      (
        at,
        produce-ok sarama k k' topic (some (bytes_of msg.guild_id)) out at
            (rw (← e, ← (ap (λ p. p.1) h)) refl),
      )

  send_prepared-ok :
      (k k' : K) (r : Result (Error P (Producer.Error X)) (WsMessage × Bytes))
      → send_prepared sarama codec topic k r ≡ (ok tt, k')
      → (msg : WsMessage) × (out : Bytes) × (r ≡ ok (msg, out))
        × (k'
            ≡ (sarama.send_message k
                (record { topic = topic; key = some (bytes_of msg.guild_id); value = out })).1)
  unfolding send_prepared produced produce
  send_prepared-ok k k' (err e) h = cc
  send_prepared-ok k k' (ok (msg, out)) h = (msg, out, refl, sym (ap (λ p. p.1) h))

  -- The message of a call that succeeds, and how the brokers answered.
  pub handle_upstream_message-acknowledged :
      {W : Type 0} (k k' : K) (conn : Connection W) (bytes : Bytes) (now : ℕ)
      → handle_upstream_message sarama codec topic k conn bytes now ≡ (ok tt, k')
      → (msg : WsMessage) × (out : Bytes) × (at : ℕ × ℕ) × IsFrom conn now msg
        × (codec.marshal msg ≡ ok out)
        × (sarama.send_message k
              (record { topic = topic; key = some (bytes_of msg.guild_id); value = out })
            ≡ (ok at, k'))
        × Reads codec bytes msg
  unfolding handle_upstream_message
  handle_upstream_message-acknowledged k k' conn bytes now h =
      let (msg, out, e, sent) = send_prepared-ok k k' (prepare codec conn bytes now) h in
      let (from, made, read) = prepare-IsFrom codec conn bytes now msg out e in
      let (at, answer) = acknowledged k k' msg out (rw e at h) in
      (msg, out, at, from, made, answer, read)

  -- Where an upstream message succeeds, one message was sent, keyed by its guild: whatever the client
  -- sent, it bears the connection's user and the current time, and the connection's guild if it
  -- has one, and its content is neither empty nor too long.
  pub handle_upstream_message-IsFrom :
      {W : Type 0} (k k' : K) (conn : Connection W) (bytes : Bytes) (now : ℕ)
      → handle_upstream_message sarama codec topic k conn bytes now ≡ (ok tt, k')
      → (msg : WsMessage) × (out : Bytes) × IsFrom conn now msg
        × (codec.marshal msg ≡ ok out)
        × (k'
            ≡ (sarama.send_message k
                (record { topic = topic; key = some (bytes_of msg.guild_id); value = out })).1)
  unfolding handle_upstream_message
  handle_upstream_message-IsFrom k k' conn bytes now h =
      let (msg, out, e, sent) = send_prepared-ok k k' (prepare codec conn bytes now) h in
      let (from, made, read) = prepare-IsFrom codec conn bytes now msg out e in
      (msg, out, from, made, sent)

  -- A message that is refused before it is sent, because it cannot be read, is not valid or cannot
  -- be written, leaves the brokers as they are.
  pub handle_upstream_message-err :
      {W : Type 0} (k : K) (conn : Connection W) (bytes : Bytes) (now : ℕ)
      (e : Error P (Producer.Error X))
      → prepare codec conn bytes now ≡ err e
      → handle_upstream_message sarama codec topic k conn bytes now ≡ (err e, k)
  unfolding handle_upstream_message send_prepared
  handle_upstream_message-err k conn bytes now e h = rw h

  -- Whatever comes of an upstream message, nothing is sent but a message of the connection.
  pub handle_upstream_message-Keeps :
      {W : Type 0} (Q : K → Type 0) (k : K) (conn : Connection W) (bytes : Bytes) (now : ℕ)
      → Q k
      → ((msg : WsMessage) (out : Bytes)
          → IsFrom conn now msg
          → codec.marshal msg ≡ ok out
          → Q
              (sarama.send_message k
                (record { topic = topic; key = some (bytes_of msg.guild_id); value = out })).1)
      → Q (handle_upstream_message sarama codec topic k conn bytes now).1
  unfolding handle_upstream_message send_prepared produce
  handle_upstream_message-Keeps Q k conn bytes now q sends =
      split (prepare codec conn bytes now) (λ msg out e.
        let (from, made, read) = prepare-IsFrom codec conn bytes now msg out e in (from, made))
    where
      split :
          (r : Result (Error P (Producer.Error X)) (WsMessage × Bytes))
          → ((msg : WsMessage) (out : Bytes)
              → r ≡ ok (msg, out)
              → IsFrom conn now msg × (codec.marshal msg ≡ ok out))
          → Q (send_prepared sarama codec topic k r).1
      split (err e) from = q
      split (ok (msg, out)) from = (let (f, m) = from msg out refl in sends msg out f m)
