-- ===== src/Services/Message/Failing.antt =====
-- Where SendMessage fails.
use chat_room.Prelude.{
  ℕ, ◌≡◌, ◌⊎◌, inl, inr, refl, sym, ap, ◌∙◌, String, Option, none, some, Result, ok, err, arith,
}
use chat_room.Snowflake.{Outcome, next_id}
use chat_room.Redis.{Server, generate_seq_id}
use chat_room.Gateway.Connection.{Bytes}
use chat_room.Gateway.Handler.{Codec}
use chat_room.Services.{IUserRepository, IGuildRepository}
use chat_room.Services.Message.{
  World, Times, Error, save_failed, MessageModel, IMessageRepository, saved, store, with_seq,
  with_id, checks, after_checks, send_message,
}

-- The error of a save that failed.
abbrev pub IsSaveFailed : {E R : Type 0} → Error E R → Type 0
IsSaveFailed {E} {R} e = (x : E) × ◌≡◌ {A = Error E R} e (save_failed x)

some_inj : {A : Type 0} (x y : A) → ◌≡◌ {A = Option A} (some x) (some y) → x ≡ y
some_inj x y h = ground (arith, h)

module _ {D S E R P : Type 0} (users : IUserRepository D E) (guilds : IGuildRepository D E)
    (messages : IMessageRepository D E) (server : Server S R) (codec : Codec P) where
  module _ (w w' : World D S) (user_id guild_id : String) (content : Bytes) (now : Times)
      (e : Error E R) where
    saved-err :
        (m : MessageModel) (r : Result E (Unit {0}))
        → ◌≡◌ {A = Result (Error E R) MessageModel} (saved m r) (err e)
        → IsSaveFailed e
    unfolding saved
    saved-err m (ok u) h = cc
    saved-err m (err x) h = (x, ground (arith, h))

    with_seq-err :
        (v : World D S) (id : ℕ) (r : Result R ℕ × S)
        → v.db ≡ w.db
        → with_seq users guilds messages server codec v user_id guild_id content now id r
          ≡ (err e, w')
        → (w'.db ≡ w.db) ⊎ IsSaveFailed e
    unfolding with_seq store
    with_seq-err v id (err x, redis) same h = inl (sym (ap (λ p. p.1.db) h) ∙ same)
    with_seq-err v id (ok seq, redis) same h = inr (saved-err _ _ (ap (λ p. p.0) h))

    with_id-err :
        (o : Outcome)
        → with_id users guilds messages server codec w user_id guild_id content now o
          ≡ some (err e, w')
        → (w'.db ≡ w.db) ⊎ IsSaveFailed e
    unfolding with_id
    with_id-err none h = cc
    with_id-err (some (err x, g, clock)) h = inl (sym (ap (λ p. p.1.db) (some_inj _ _ h)))
    with_id-err (some (ok n, g, clock)) h =
        with_seq-err (record w { generator = g; clock = clock }) n
          (generate_seq_id server w.redis guild_id) refl (some_inj _ _ h)

    after_checks-err :
        (r : Result (Error E R) (Unit {0}))
        → after_checks users guilds messages server codec w user_id guild_id content now r
          ≡ some (err e, w')
        → (w'.db ≡ w.db) ⊎ IsSaveFailed e
    unfolding after_checks
    after_checks-err (err x) h = inl (sym (ap (λ p. p.1.db) (some_inj _ _ h)))
    after_checks-err (ok u) h = with_id-err (next_id w.generator w.clock) h

    -- Where SendMessage fails, the database is as it was, or it was the save that failed.
    pub send_message-err :
        send_message users guilds messages server codec w user_id guild_id content now
          ≡ some (err e, w')
        → (w'.db ≡ w.db) ⊎ IsSaveFailed e
    unfolding send_message
    send_message-err h =
        after_checks-err (checks users guilds messages server codec w.db user_id guild_id content) h
