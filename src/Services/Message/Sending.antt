-- ===== src/Services/Message/Sending.antt =====
-- What SendMessage has done where it returns a message, and where it fails.
use mathlib.Core.Path.{subst}
use chat_room.Prelude.{
  ℕ, ◌<◌, ◌≤◌, ◌≡◌, refl, sym, ap, ◌∙◌, String, Bool, true, false, Option, none, some, [], ◌∷◌,
  Result, ok, err, >>=_ok, length, arith,
}
use chat_room.Prelude.Decimal.{show64}
use chat_room.Snowflake.{Outcome, next_id}
use chat_room.Redis.{Server, generate_seq_id}
use chat_room.Gateway.Connection.{Bytes}
use chat_room.Gateway.Handler.{Codec, is_empty, max_content}
use chat_room.Services.{IUserRepository, IGuildRepository}
use chat_room.Services.Guild
use chat_room.Services.Guild.{is_member}
use chat_room.Services.Message.Publishing.{Published, publish_message-Published}
use chat_room.Services.Message.{
  World, Times, Error, MessageModel, IMessageRepository, check_content, check_member, saved,
  username_of, publish_message, store, with_seq, with_id, checks, after_checks, send_message,
}

is_empty-length : (content : Bytes) → is_empty content ≡ false → 0 < length content
is_empty-length [] h = cc
is_empty-length (b ∷ bs) h = omega arith

some_inj : {A : Type 0} (x y : A) → ◌≡◌ {A = Option A} (some x) (some y) → x ≡ y
some_inj x y h = ground (arith, h)

module _ {E R : Type 0} where
  check_content-ok :
      (content : Bytes) (u : Unit {0})
      → ◌≡◌ {A = Result (Error E R) (Unit {0})} (check_content content) (ok u)
      → (0 < length content) × (length content ≤ max_content)
  unfolding check_content
  check_content-ok content u h = (is_empty-length content (ground (arith, h)), ground (arith, h))

  check_member-ok :
      (r : Result (Guild.Error E) Bool) (u : Unit {0})
      → ◌≡◌ {A = Result (Error E R) (Unit {0})} (check_member r) (ok u)
      → r ≡ ok true
  unfolding check_member
  check_member-ok (err e) u h = cc
  check_member-ok (ok false) u h = cc
  check_member-ok (ok true) u h = refl

  saved-ok :
      {D : Type 0} (m m' : MessageModel) (r : Result E (Unit {0})) (d : D)
      → ◌≡◌ {A = Result (Error E R) MessageModel} (saved m r) (ok m')
      → (m ≡ m') × ◌≡◌ {A = Result E (Unit {0}) × D} (r, d) (ok tt, d)
  unfolding saved
  saved-ok m m' (ok u) d h = (ground (arith, h), refl)
  saved-ok m m' (err e) d h = cc

module _ {D S E R P : Type 0} (users : IUserRepository D E) (guilds : IGuildRepository D E)
    (messages : IMessageRepository D E) (server : Server S R) (codec : Codec P) where
  -- What has happened where a message is returned: its content is neither empty nor too long, its
  -- user is a member of the guild, its identifier is the next of the generator, its sequence number
  -- is the next of the guild, it is saved, and it is published for the guild.
  pub record Sent (w : World D S) (user_id guild_id : String) (content : Bytes) (now : Times)
      (m : MessageModel) (w' : World D S) : Type 0 where
    pub nonempty : 0 < length content
    pub bounded : length content ≤ max_content
    pub member : is_member guilds w.db user_id guild_id ≡ ok true
    pub user : m.user_id ≡ user_id
    pub guild : m.guild_id ≡ guild_id
    pub same_content : m.content ≡ content
    pub time : m.created_at ≡ now.created
    pub number : ℕ
    pub issued : next_id w.generator w.clock ≡ some (ok number, w'.generator, w'.clock)
    pub id : m.id ≡ show64 number
    pub seq : (generate_seq_id server w.redis guild_id).0 ≡ ok m.seq_id
    pub is_saved : messages.create w.db m ≡ (ok tt, w'.db)
    pub published :
        Published server codec
          (generate_seq_id server w.redis guild_id).1
          m
          (username_of (users.find_by_id w.db user_id))
          now.published
          w'.redis

  store-ok :
      (w w' : World D S) (m m' : MessageModel) (now : ℕ)
      → store users guilds messages server codec w m now ≡ (ok m', w')
      → (m ≡ m')
        × (messages.create w.db m ≡ (ok tt, w'.db))
        × (w'.generator ≡ w.generator)
        × (w'.clock ≡ w.clock)
        × (w'.redis
            ≡ publish_message server codec w.redis m
                (username_of (users.find_by_id w.db m.user_id))
                now)
  unfolding store
  store-ok w w' m m' now h =
      let (same, created) =
        saved-ok m m' (messages.create w.db m).0 (messages.create w.db m).1 (ap (λ p. p.0) h) in
      (
        same,
        created ∙ ap (λ p. (ok tt, p.1.db)) h,
        sym (ap (λ p. p.1.generator) h),
        sym (ap (λ p. p.1.clock) h),
        sym (ap (λ p. p.1.redis) h),
      )

  module _ (w w' : World D S) (user_id guild_id : String) (content : Bytes) (now : Times)
      (m : MessageModel) where
    with_seq-ok :
        (id : ℕ) (r : Result R ℕ × S)
        → with_seq users guilds messages server codec w user_id guild_id content now id r
          ≡ (ok m, w')
        → (r.0 ≡ ok m.seq_id)
          × (m.id ≡ show64 id)
          × (m.user_id ≡ user_id)
          × (m.guild_id ≡ guild_id)
          × (m.content ≡ content)
          × (m.created_at ≡ now.created)
          × (messages.create w.db m ≡ (ok tt, w'.db))
          × (w'.generator ≡ w.generator)
          × (w'.clock ≡ w.clock)
          × (w'.redis
              ≡ publish_message server codec r.1 m
                  (username_of (users.find_by_id w.db user_id))
                  now.published)
    unfolding with_seq
    with_seq-ok id (err e, redis) h = cc
    with_seq-ok id (ok seq, redis) h =
        let (same, created, g, c, out) =
          store-ok (record w { redis = redis }) w' _ m now.published h in
        subst
          (λ m.
            ◌≡◌ {A = Result R ℕ} (ok seq) (ok m.seq_id)
            × (m.id ≡ show64 id)
            × (m.user_id ≡ user_id)
            × (m.guild_id ≡ guild_id)
            × (m.content ≡ content)
            × (m.created_at ≡ now.created)
            × (messages.create w.db m ≡ (ok tt, w'.db))
            × (w'.generator ≡ w.generator)
            × (w'.clock ≡ w.clock)
            × (w'.redis
                ≡ publish_message server codec redis m (username_of (users.find_by_id w.db user_id))
                    now.published))
          same (refl, refl, refl, refl, refl, refl, created, g, c, out)

  module _ (w w' : World D S) (user_id guild_id : String) (content : Bytes) (now : Times)
      (m : MessageModel) where
    with_id-ok :
        (o : Outcome)
        → with_id users guilds messages server codec w user_id guild_id content now o
          ≡ some (ok m, w')
        → (n : ℕ) × (o ≡ some (ok n, w'.generator, w'.clock))
          × (m.id ≡ show64 n)
          × ((generate_seq_id server w.redis guild_id).0 ≡ ok m.seq_id)
          × (m.user_id ≡ user_id)
          × (m.guild_id ≡ guild_id)
          × (m.content ≡ content)
          × (m.created_at ≡ now.created)
          × (messages.create w.db m ≡ (ok tt, w'.db))
          × (w'.redis
              ≡ publish_message server codec
                  (generate_seq_id server w.redis guild_id).1
                  m
                  (username_of (users.find_by_id w.db user_id))
                  now.published)
    unfolding with_id
    with_id-ok none h = cc
    with_id-ok (some (err e, g, clock)) h = (let k = some_inj _ _ h in cc)
    with_id-ok (some (ok n, g, clock)) h =
        let (seq, id, user, guild, same, time, created, eg, ec, out) =
          with_seq-ok (record w { generator = g; clock = clock }) w' user_id guild_id content now m
            n (generate_seq_id server w.redis guild_id) (some_inj _ _ h) in
        (n, rw (eg, ec) refl, id, seq, user, guild, same, time, created, out)

    checks-ok :
        (u : Unit {0})
        → checks users guilds messages server codec w.db user_id guild_id content ≡ ok u
        → (0 < length content)
          × (length content ≤ max_content)
          × (is_member guilds w.db user_id guild_id ≡ ok true)
    unfolding checks
    checks-ok u h =
        let (v, valid, rest) = >>=_ok {E = Error E R} (check_content content) _ u h in
        let (nonempty, bounded) = check_content-ok content v valid in
        (nonempty, bounded, check_member-ok (is_member guilds w.db user_id guild_id) u rest)

    after_checks-ok :
        (r : Result (Error E R) (Unit {0}))
        → after_checks users guilds messages server codec w user_id guild_id content now r
          ≡ some (ok m, w')
        → (r ≡ ok tt)
          × (with_id users guilds messages server codec w user_id guild_id content now
                (next_id w.generator w.clock)
              ≡ some (ok m, w'))
    unfolding after_checks
    after_checks-ok (err e) h = (let k = some_inj _ _ h in cc)
    after_checks-ok (ok u) h = (refl, h)

    -- Where SendMessage returns a message, its content is neither empty nor too long, its user is a
    -- member of the guild, its identifier is the next of the generator, its sequence number is the
    -- next of the guild, it is saved, and a copy of it with the user's name is published for the guild,
    -- unless it cannot be serialized.
    pub send_message-Sent :
        send_message users guilds messages server codec w user_id guild_id content now
          ≡ some (ok m, w')
        → Sent w user_id guild_id content now m w'
    unfolding send_message
    send_message-Sent h =
        let (passed, rest) =
          after_checks-ok (checks users guilds messages server codec w.db user_id guild_id content)
            h in
        let (nonempty, bounded, member) = checks-ok tt passed in
        let (n, issued, id, seq, user, guild, same, time, created, out) =
          with_id-ok (next_id w.generator w.clock) rest in
        record {
          nonempty = nonempty;
          bounded = bounded;
          member = member;
          user = user;
          guild = guild;
          same_content = same;
          time = time;
          number = n;
          issued = issued;
          id = id;
          seq = seq;
          is_saved = created;
          published =
              subst
                (Published server codec (generate_seq_id server w.redis guild_id).1 m
                  (username_of (users.find_by_id w.db user_id)) now.published)
                (sym out)
                (publish_message-Published server codec (generate_seq_id server w.redis guild_id).1
                  m (username_of (users.find_by_id w.db user_id)) now.published);
        }
