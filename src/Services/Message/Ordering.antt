-- ===== src/Services/Message/Ordering.antt =====
-- The order of the messages of a guild.
use mathlib.Core.Path.{subst}
use chat_room.Prelude.{
  if◌then◌else◌, ◌∙◌, ℕ, ◌<◌, ◌≤◌, ◌≡◌, refl, sym, ap, arith, String, Option, none, some, inl, inr,
  List, [], ◌∷◌, Result, ok, err, str_eq, eq_iff, Bool-cases,
}
use chat_room.Prelude.Decimal.{show64}
use chat_room.Snowflake.{Outcome, next_id}
use chat_room.Redis.{Server, seq_id_key, generate_seq_id, publish}
use chat_room.Redis.Tally.{Counting}
use chat_room.Gateway.Connection.{Bytes}
use chat_room.Gateway.Handler.{Codec}
use chat_room.Services.{IUserRepository, IGuildRepository}
use chat_room.Services.Message.{
  World, Times, Error, MessageModel, IMessageRepository, saved, username_of, publish_bytes,
  publish_message, to_ws_message, store, with_seq, with_id, checks, after_checks, send_message,
}

-- A call of SendMessage.
pub record Send : Type 0 where
  pub user_id : String
  pub guild_id : String
  pub content : Bytes
  pub now : Times

module _ {D S E R P : Type 0} (users : IUserRepository D E) (guilds : IGuildRepository D E)
    (messages : IMessageRepository D E) (server : Server S R) (codec : Codec P) where
  after :
      Option (List MessageModel × World D S)
      → Result (Error E R) MessageModel
      → Option (List MessageModel × World D S)
  after none r = none
  after (some (ms, w)) (ok m) = some (m ∷ ms, w)
  after (some (ms, w)) (err e) = some (ms, w)

  -- Calls one after another, with the messages that they return.
  unfoldable pub send_all : World D S → List Send → Option (List MessageModel × World D S)
  unfolding after
  send_all w [] = some ([], w)
  send_all w (c ∷ cs) =
      elim (send_message users guilds messages server codec w c.user_id c.guild_id c.content
        c.now) [ none ↦ none | some (r, w') ↦ after (send_all w' cs) r ]

  module _ (doc : Counting server) where
    -- The numbers of the messages of a guild go up, from above a number on.
    abbrev pub Ascending : String → ℕ → List MessageModel → Type 0
    Ascending guild_id n [] = Unit {0}
    Ascending guild_id n (m ∷ ms) =
        if str_eq m.guild_id guild_id
        then (n < m.seq_id) × Ascending guild_id m.seq_id ms
        else Ascending guild_id n ms

    abbrev Given : String → S → World D S → Result (Error E R) MessageModel → Type 0
    Given guild_id s w (err e) = Unit {0}
    Given guild_id s w (ok m) =
        (m.guild_id ≡ guild_id)
        × (doc.count s (seq_id_key guild_id) < m.seq_id)
        × (m.seq_id ≡ doc.count w.redis (seq_id_key guild_id))

    -- What a call makes of the numbers.
    abbrev Numbered : String → S → Result (Error E R) MessageModel × World D S → Type 0
    Numbered guild_id s r =
        ((k : String) → doc.count s k ≤ doc.count r.1.redis k) × Given guild_id s r.1 r.0

    published_same :
        (s : S) (guild_id k : String) (r : Result P Bytes)
        → doc.count (publish_bytes server codec s guild_id r) k ≡ doc.count s k
    unfolding publish_bytes publish
    published_same s guild_id k (err e) = refl
    published_same s guild_id k (ok bytes) = doc.publish_keeps s _ bytes k

    publish_message-count :
        (s : S) (m : MessageModel) (username : String) (now : ℕ) (k : String)
        → doc.count (publish_message server codec s m username now) k ≡ doc.count s k
    unfolding publish_message
    publish_message-count s m username now k =
        published_same s m.guild_id k (codec.marshal (to_ws_message m username now))

    grown :
        (s s' : S) (a : Result R ℕ) (guild_id k : String)
        → server.incr s (seq_id_key guild_id) ≡ (a, s')
        → doc.count s k ≤ doc.count s' k
    grown s s' a guild_id k e = rw (← (ap (λ p. p.1) e)) (doc.incr_grows s (seq_id_key guild_id) k)

    stored :
        (s s' : S) (w : World D S) (m : MessageModel) (now seq : ℕ)
        → server.incr s (seq_id_key m.guild_id) ≡ (ok seq, s')
        → m.seq_id ≡ seq
        → w.redis ≡ s'
        → Numbered m.guild_id s (store users guilds messages server codec w m now)
    unfolding store saved
    stored s s' w m now seq e is_seq is_redis =
        let name : String = username_of (users.find_by_id w.db m.user_id) in
        let same : (k : String)
            → doc.count (publish_message server codec w.redis m name now) k ≡ doc.count s' k =
          λ k. publish_message-count w.redis m name now k ∙ ap (λ x. doc.count x k) is_redis in
        let (above, answer) = doc.incr_answers s s' (seq_id_key m.guild_id) seq e in
        (
          λ k. (let g = grown s s' (ok seq) m.guild_id k e in rw (same k) g),
          given (messages.create w.db m).0 (messages.create w.db m).1 name (rw is_seq above)
              (is_seq ∙ answer ∙ sym (same (seq_id_key m.guild_id))),
        )
      where
        given :
            (r : Result E (Unit {0})) (db : D) (name : String)
            → doc.count s (seq_id_key m.guild_id) < m.seq_id
            → m.seq_id
              ≡ doc.count (publish_message server codec w.redis m name now) (seq_id_key m.guild_id)
            → Given m.guild_id s
                (record w { db = db; redis = publish_message server codec w.redis m name now })
                (saved m r)
        given (ok u) db name above answer = (refl, above, answer)
        given (err x) db name above answer = tt

    with_seq-Numbered :
        (s s' : S) (w : World D S) (user_id guild_id : String) (content : Bytes) (now : Times)
        (id : ℕ) (a : Result R ℕ)
        → server.incr s (seq_id_key guild_id) ≡ (a, s')
        → Numbered guild_id s
            (with_seq users guilds messages server codec w user_id guild_id content now id (a, s'))
    unfolding with_seq
    with_seq-Numbered s s' w user_id guild_id content now id (err x) e =
        (λ k. grown s s' (err x) guild_id k e, tt)
    with_seq-Numbered s s' w user_id guild_id content now id (ok seq) e =
        stored s s' (record w { redis = s' })
          (record {
            id = show64 id;
            user_id = user_id;
            guild_id = guild_id;
            content = content;
            seq_id = seq;
            created_at = now.created;
          })
          now.published seq e refl refl

    abbrev NumberedOr : String → S → Option (Result (Error E R) MessageModel × World D S) → Type 0
    NumberedOr guild_id s none = Unit {0}
    NumberedOr guild_id s (some r) = Numbered guild_id s r

    with_id-Numbered :
        (w : World D S) (user_id guild_id : String) (content : Bytes) (now : Times) (o : Outcome)
        → NumberedOr guild_id w.redis
            (with_id users guilds messages server codec w user_id guild_id content now o)
    unfolding with_id generate_seq_id
    with_id-Numbered w user_id guild_id content now none = tt
    with_id-Numbered w user_id guild_id content now (some (err e, g, clock)) =
        (λ k. omega arith, tt)
    with_id-Numbered w user_id guild_id content now (some (ok id, g, clock)) =
        with_seq-Numbered w.redis (server.incr w.redis (seq_id_key guild_id)).1
          (record w { generator = g; clock = clock }) user_id guild_id content now id
          (server.incr w.redis (seq_id_key guild_id)).0 refl

    after_checks-Numbered :
        (w : World D S) (user_id guild_id : String) (content : Bytes) (now : Times)
        (r : Result (Error E R) (Unit {0}))
        → NumberedOr guild_id w.redis
            (after_checks users guilds messages server codec w user_id guild_id content now r)
    unfolding after_checks
    after_checks-Numbered w user_id guild_id content now (err e) = (λ k. omega arith, tt)
    after_checks-Numbered w user_id guild_id content now (ok u) =
        with_id-Numbered w user_id guild_id content now (next_id w.generator w.clock)

    send_message-Numbered :
        (w : World D S) (c : Send)
        → NumberedOr c.guild_id w.redis
            (send_message users guilds messages server codec w c.user_id c.guild_id c.content c.now)
    unfolding send_message
    send_message-Numbered w c =
        after_checks-Numbered w c.user_id c.guild_id c.content c.now
          (checks users guilds messages server codec w.db c.user_id c.guild_id c.content)

    cons-Ascending :
        (g guild_id : String) (s : S) (w : World D S) (m : MessageModel) (n : ℕ)
        (ms : List MessageModel)
        → n ≤ doc.count s (seq_id_key g)
        → Numbered guild_id s (ok m, w)
        → ((n' : ℕ) → n' ≤ doc.count w.redis (seq_id_key g) → Ascending g n' ms)
        → Ascending g n (m ∷ ms)
    cons-Ascending g guild_id s w m n ms le (grows, (of_guild, above, answer)) later =
        elim (Bool-cases (str_eq m.guild_id g)) [
          | inl same ↦
              let eq : guild_id ≡ g = sym of_guild ∙ (eq_iff m.guild_id g).0 same in
              let above' = (rw eq at above) in
              let answer' = (rw eq at answer) in
              rw same (omega (arith, le, above'), later m.seq_id (omega (arith, answer')))
          | inr other ↦
              (let grown' = grows (seq_id_key g) in rw other (later n (omega (arith, le, grown'))))
        ]

    after-Ascending :
        (g guild_id : String) (s : S) (w w' : World D S) (r : Result (Error E R) MessageModel)
        (n : ℕ) (o : Option (List MessageModel × World D S)) (ms : List MessageModel)
        → n ≤ doc.count s (seq_id_key g)
        → Numbered guild_id s (r, w)
        → ((n' : ℕ) (ms' : List MessageModel) (w'' : World D S)
            → n' ≤ doc.count w.redis (seq_id_key g)
            → o ≡ some (ms', w'')
            → Ascending g n' ms')
        → after o r ≡ some (ms, w')
        → Ascending g n ms
    unfolding after
    after-Ascending g guild_id s w w' r n none ms le given later h = cc
    after-Ascending g guild_id s w w' (err e) n (some (ms', w'')) ms le given later h =
        let grown' = given.0 (seq_id_key g) in
        let same : ms' ≡ ms = cc in
        subst (Ascending g n) same (later n ms' w'' (omega (arith, le, grown')) refl)
    after-Ascending g guild_id s w w' (ok m) n (some (ms', w'')) ms le given later h =
        let same : m ∷ ms' ≡ ms = cc in
        subst (Ascending g n) same
          (cons-Ascending g guild_id s w m n ms' le given (λ n' le'. later n' ms' w'' le' refl))

    -- The messages of a guild that calls of SendMessage return, one call after another, have numbers
    -- that go up, from above the number that the guild had, whoever sends them, whatever calls for
    -- other guilds come in between, and whichever calls fail.
    pub send_all-Ascending :
        (cs : List Send) (g : String) (w w' : World D S) (n : ℕ) (ms : List MessageModel)
        → n ≤ doc.count w.redis (seq_id_key g)
        → send_all w cs ≡ some (ms, w')
        → Ascending g n ms
    unfolding send_all
    send_all-Ascending [] g w w' n ms le h =
        (let same : [] ≡ ms = cc in subst (Ascending g n) same tt)
    send_all-Ascending (c ∷ cs) g w w' n ms le h =
        split
          (send_message users guilds messages server codec w c.user_id c.guild_id c.content c.now)
          (send_message-Numbered w c)
          (λ v n' ms' w'' le' e'. send_all-Ascending cs g v w'' n' ms' le' e') h
      where
        split :
            (o : Option (Result (Error E R) MessageModel × World D S))
            → NumberedOr c.guild_id w.redis o
            → ((v : World D S) (n' : ℕ) (ms' : List MessageModel) (w'' : World D S)
                → n' ≤ doc.count v.redis (seq_id_key g)
                → send_all v cs ≡ some (ms', w'')
                → Ascending g n' ms')
            → elim o [ none ↦ none | some (r, v) ↦ after (send_all v cs) r ] ≡ some (ms, w')
            → Ascending g n ms
        split none given later e = cc
        split (some (r, v)) given later e =
            after-Ascending g c.guild_id w.redis v w' r n (send_all v cs) ms le given (later v) e
