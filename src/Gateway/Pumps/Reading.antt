-- ===== src/Gateway/Pumps/Reading.antt =====
-- What readPump sends to Kafka.
mod Examples
use chat_room.Prelude.{
  ℕ, suc, ◌/◌, ◌≡◌, ◌⊎◌, ◌∙◌, refl, sym, inl, inr, String, Bool, Bool-cases, Option, none, some,
  List, [], ◌∷◌, Result, ok, err, get_elem?, get_elem?-set_self,
}
use chat_room.Prelude.Utf8.{bytes_of}
use chat_room.Redis.{Server}
use chat_room.Kafka.Producer
use chat_room.Kafka.Producer.{Sarama}
use chat_room.Gateway.Connection.{
  Bytes, Socket, Connection, MessageType, text, binary, close, ping, update_heartbeat,
}
use chat_room.Gateway.Handler
use chat_room.Gateway.Handler.{WsMessage, Codec, push, handle_upstream_message}
use chat_room.Gateway.Handler.Upstream.{IsFrom, handle_upstream_message-Keeps}
use chat_room.Gateway.Handler.Downstream.{push-same}
use chat_room.Gateway.Pumps.{
  Gateway, Read, received, pong, failed, ReadRound, reads, ended, panicked, beat, after_push,
  error_message, send_bytes, send_error, after_upstream, on_message, on_read, read_round,
  disconnect, read_pump,
}

-- A message of a user, and of a guild unless that is left open.
pub record IsOf (user_id guild_id : String) (msg : WsMessage) : Type 0 where
  pub user : msg.user_id ≡ user_id
  pub guild : (guild_id ≡ "") ⊎ (msg.guild_id ≡ guild_id)

-- The connection at a place of the heap is one of a user for a guild.
abbrev pub Holds : {S W K : Type 0} → Gateway S W K → ℕ → String → String → Type 0
Holds {W = W} g ref user_id guild_id =
    (c : Connection W) × (get_elem? g.manager.heap ref ≡ some c)
    × (c.user_id ≡ user_id)
    × (c.guild_id ≡ guild_id)

module _ {S W K : Type 0} (Q : K → Type 0) (ref : ℕ) (user_id guild_id : String) where
  abbrev pub Kept : ReadRound S W K → Type 0
  Kept (reads g) = Holds g ref user_id guild_id × Q g.kafka
  Kept (ended g) = Q g.kafka
  Kept panicked = Unit {0}

  beat-Kept :
      (g : Gateway S W K) (now : ℕ)
      → Holds g ref user_id guild_id
      → Q g.kafka
      → Kept (reads (beat g ref now))
  unfolding beat update_heartbeat
  beat-Kept g now (c, at, user, guild) q =
      rw (beat, at)
        (
          (
            update_heartbeat c now,
            get_elem?-set_self g.manager.heap ref (update_heartbeat c now) c at,
            user,
            guild,
          ),
          q,
        )

  after_push-Kept :
      (g : Gateway S W K) (bytes : Bytes) (o : Option (Bool × List (Connection W)))
      → Holds g ref user_id guild_id
      → Q g.kafka
      → push g.manager.heap ref bytes ≡ o
      → Kept (after_push g o)
  unfolding after_push
  after_push-Kept g bytes none h q e = tt
  after_push-Kept g bytes (some (sent, heap)) (c, at, user, guild) q e =
      let (c', at', user', guild') = push-same bytes g.manager.heap heap ref c sent e at in
      ((c', at', user' ∙ user, guild' ∙ guild), q)

  module _ {P X : Type 0} (codec : Codec P)
      (describe : Handler.Error P (Producer.Error X) → Bytes) where
    send_bytes-Kept :
        (g : Gateway S W K) (r : Result P Bytes)
        → Holds g ref user_id guild_id
        → Q g.kafka
        → Kept (send_bytes codec describe g ref r)
    unfolding send_bytes
    send_bytes-Kept g (err e) h q = (h, q)
    send_bytes-Kept g (ok bytes) h q =
        after_push-Kept g bytes (push g.manager.heap ref bytes) h q refl

    after_upstream-Kept :
        (g : Gateway S W K) (now : ℕ) (r : Result (Handler.Error P (Producer.Error X)) (Unit {0}))
        (k : K)
        → Holds g ref user_id guild_id
        → Q k
        → Kept (after_upstream codec describe g ref now (r, k))
    unfolding after_upstream send_error
    after_upstream-Kept g now (ok u) k h q = (h, q)
    after_upstream-Kept g now (err e) k h q =
        send_bytes-Kept (record g { kafka = k }) (codec.marshal (error_message (describe e) now)) h
          q

module _ {S W K E F P X : Type 0} (server : Server S E) (socket : Socket W F) (sarama : Sarama K X)
    (codec : Codec P) (topic : String) (describe : Handler.Error P (Producer.Error X) → Bytes)
    (Q : K → Type 0) (ref : ℕ) (user_id guild_id : String)
    (sends : (k : K) (msg : WsMessage) (out : Bytes)
      → IsOf user_id guild_id msg
      → codec.marshal msg ≡ ok out
      → Q k
      → Q
          (sarama.send_message k
            (record { topic = topic; key = some (bytes_of msg.guild_id); value = out })).1) where
  IsFrom-IsOf :
      (c : Connection W) (now : ℕ) (msg : WsMessage)
      → c.user_id ≡ user_id
      → c.guild_id ≡ guild_id
      → IsFrom c now msg
      → IsOf user_id guild_id msg
  IsFrom-IsOf c now msg user guild from = record {
    user = from.user ∙ user;
    guild = elim from.guild [
      | inl none_set ↦ inl (sym guild ∙ none_set)
      | inr own ↦ inr (own ∙ guild)
    ];
  }

  upstream-Kept :
      (g : Gateway S W K) (now : ℕ) (c : Connection W) (bytes : Bytes)
      → c.user_id ≡ user_id
      → c.guild_id ≡ guild_id
      → Holds g ref user_id guild_id
      → Q g.kafka
      → Kept Q ref user_id guild_id (
          after_upstream codec describe g ref now
            (handle_upstream_message sarama codec topic g.kafka c bytes (now / 1000000)))
  upstream-Kept g now c bytes user guild h q =
      let r = handle_upstream_message sarama codec topic g.kafka c bytes (now / 1000000) in
      after_upstream-Kept Q ref user_id guild_id codec describe g now r.0 r.1 h (
        handle_upstream_message-Keeps sarama codec topic Q g.kafka c bytes (now / 1000000) q
          (λ msg out from made.
            sends g.kafka msg out (IsFrom-IsOf c (now / 1000000) msg user guild from) made q))

  on_message-Kept :
      (g : Gateway S W K) (now : ℕ) (c : Connection W) (type : MessageType) (bytes : Bytes)
      → c.user_id ≡ user_id
      → c.guild_id ≡ guild_id
      → Holds g ref user_id guild_id
      → Q g.kafka
      → Kept Q ref user_id guild_id
          (on_message server socket sarama codec topic describe g ref now c type bytes)
  unfolding on_message
  on_message-Kept g now c text bytes user guild h q = upstream-Kept g now c bytes user guild h q
  on_message-Kept g now c binary bytes user guild h q = upstream-Kept g now c bytes user guild h q
  on_message-Kept g now c ping bytes user guild h q = beat-Kept Q ref user_id guild_id g now h q
  on_message-Kept g now c close bytes user guild h q = (h, q)

  on_read-Kept :
      (g : Gateway S W K) (now : ℕ) (c : Connection W) (r : Read)
      → c.user_id ≡ user_id
      → c.guild_id ≡ guild_id
      → Holds g ref user_id guild_id
      → Q g.kafka
      → Kept Q ref user_id guild_id
          (on_read server socket sarama codec topic describe g ref now c r)
  unfolding on_read
  on_read-Kept g now c (received type bytes) user guild h q =
      on_message-Kept g now c type bytes user guild h q
  on_read-Kept g now c pong user guild h q = beat-Kept Q ref user_id guild_id g now h q
  on_read-Kept g now c failed user guild h q = q

  read_round-Kept :
      (g : Gateway S W K) (now : ℕ) (r : Read)
      → Holds g ref user_id guild_id
      → Q g.kafka
      → Kept Q ref user_id guild_id
          (read_round server socket sarama codec topic describe g ref now r)
  unfolding read_round handle_upstream_message
  read_round-Kept g now r (c, at, user, guild) q =
      rw (read_round, at)
        (elim (Bool-cases c.done) [
          | inl done ↦ rw done q
          | inr live ↦ rw live (on_read-Kept g now c r user guild (c, at, user, guild) q)
        ])

  module _ (others : ℕ → Gateway S W K → Gateway S W K) (time : ℕ → ℕ)
      (same : (i : ℕ) (g : Gateway S W K)
        → Holds g ref user_id guild_id
        → Holds (others i g) ref user_id guild_id)
      (keeps : (i : ℕ) (g : Gateway S W K) → Q g.kafka → Q (others i g).kafka) where
    after_round :
        (o : ReadRound S W K) (i : ℕ) (rs : List Read)
        → Kept Q ref user_id guild_id o
        → ((g : Gateway S W K)
            → Holds g ref user_id guild_id
            → Q g.kafka
            → Kept Q ref user_id guild_id
                (read_pump server socket sarama codec topic describe others time g ref (suc i) rs))
        → Kept Q ref user_id guild_id (elim o [
          | reads g' ↦
              read_pump server socket sarama codec topic describe others time g' ref (suc i) rs
          | ended g' ↦ ended (disconnect server socket sarama codec topic describe g' ref)
          | panicked ↦ panicked
        ])
    unfolding disconnect
    after_round (reads g) i rs (h, q) ih = ih g h q
    after_round (ended g) i rs q ih = q
    after_round panicked i rs k ih = tt

    -- What readPump sends to Kafka bears the user of its connection, and its guild if it has one,
    -- whatever the client sends: each property of the brokers that such messages keep holds after
    -- the rounds, whether the loop goes on or has returned, if it held before. The other goroutines
    -- keep it too, and leave the user and the guild of the connection as they are.
    pub read_pump-Kept :
        (rs : List Read) (g : Gateway S W K) (i : ℕ)
        → Holds g ref user_id guild_id
        → Q g.kafka
        → Kept Q ref user_id guild_id
            (read_pump server socket sarama codec topic describe others time g ref i rs)
    unfolding read_pump
    read_pump-Kept [] g i h q = (h, q)
    read_pump-Kept (r ∷ rs) g i h q =
        after_round
          (read_round server socket sarama codec topic describe (others i g) ref (time i) r) i rs
          (read_round-Kept (others i g) (time i) r (same i g h) (keeps i g q))
          (λ g' h' q'. read_pump-Kept rs g' (suc i) h' q')
