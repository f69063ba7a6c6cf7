-- ===== src/Services/Message.antt =====
-- internal/service/message.go. The content of a message is its bytes, which `len` counts. The
-- writes to the database and to Redis Pub/Sub run at once; neither sees what the other does, so the
-- order in which they are written here does not matter.
pub mod Publishing
pub mod Sending
pub mod Failing
pub mod Ordering
pub mod Query
pub mod Paging
pub mod Samples
mod Examples
use Prim.Native.String.{◌++◌}
use chat_room.Prelude.{
  ℕ, zero, suc, ◌+◌, String, Bool, true, false, ◌||◌, Option, none, some, List, [], ◌∷◌, map,
  if◌then◌else◌, Result, ok, err, ◌>>=◌, str_eq, ltb, leb, length, take,
}
use chat_room.Prelude.Int.{ℤ, pos, negsuc}
use chat_room.Prelude.Decimal.{show64}
use chat_room.Prelude.Dict.{Dict, lookup, insert}
use chat_room.Snowflake
use chat_room.Snowflake.{Generator, Clock, Outcome, next_id}
use chat_room.Redis.{Server, generate_seq_id, publish}
use chat_room.Gateway.Connection.{Bytes}
use chat_room.Gateway.Handler.{WsMessage, Kind, Codec, is_empty, max_content}
use chat_room.Services.{User, IUserRepository, IGuildRepository}
use chat_room.Services.Guild
use chat_room.Services.Guild.{is_member}

pub record MessageModel : Type 0 where
  pub id : String
  pub user_id : String
  pub guild_id : String
  pub content : Bytes
  pub seq_id : ℕ
  pub created_at : ℕ

-- IMessageRepository over a database D.
pub record IMessageRepository (D E : Type 0) : Type 0 where
  pub create : D → MessageModel → Result E (Unit {0}) × D
  pub find_by_guild : D → String → ℤ → ℕ → Result E (List MessageModel)
  pub find_by_id : D → String → Result E (Option MessageModel)

-- The two readings of time.Now in a call: for the message, and for what is published.
pub record Times : Type 0 where
  pub created : ℕ
  pub published : ℕ

-- What the service works on: the database, Redis, the generator and its clock.
pub record World (D S : Type 0) : Type 0 where
  pub db : D
  pub redis : S
  pub generator : Generator
  pub clock : Clock

pub data Error (E R : Type 0) : Type 0 where
  invalid_content not_in_guild : Error E R
  check_failed : Guild.Error E → Error E R
  id_failed : Snowflake.Error → Error E R
  seq_failed : R → Error E R
  save_failed : E → Error E R

module _ {E R : Type 0} where
  check_content : Bytes → Result (Error E R) (Unit {0})
  check_content content =
      if is_empty content || ltb max_content (length content) then err invalid_content else ok tt

  check_member : Result (Guild.Error E) Bool → Result (Error E R) (Unit {0})
  check_member (err e) = err (check_failed e)
  check_member (ok false) = err not_in_guild
  check_member (ok true) = ok tt

-- The name that is shown, "Unknown" where the user is not found.
pub username_of : {E : Type 0} → Result E (Option User) → String
username_of (ok (some user)) = user.user_name
username_of (ok none) = "Unknown"
username_of (err e) = "Unknown"

-- The message that publishMessage serializes.
unfoldable pub to_ws_message : MessageModel → String → ℕ → WsMessage
to_ws_message m username now = record {
  message_id = m.id;
  user_id = m.user_id;
  guild_id = m.guild_id;
  content = m.content;
  seq_id = m.seq_id;
  timestamp = now;
  kind = Kind.text;
  username = username;
}

abbrev pub guild_channel : String → String
guild_channel guild_id = "guild:" ++ guild_id

module _ {S R P : Type 0} (server : Server S R) (codec : Codec P) where
  publish_bytes : S → String → Result P Bytes → S
  publish_bytes s guild_id (err e) = s
  publish_bytes s guild_id (ok data_) = (publish server s (guild_channel guild_id) data_).1

  -- publishMessage, whose error SendMessage only prints.
  pub publish_message : S → MessageModel → String → ℕ → S
  unfolding publish_bytes to_ws_message
  publish_message s m username now =
      publish_bytes s m.guild_id (codec.marshal (to_ws_message m username now))

saved : {E R : Type 0} → MessageModel → Result E (Unit {0}) → Result (Error E R) MessageModel
saved m (ok u) = ok m
saved m (err e) = err (save_failed e)

module _ {D S E R P : Type 0} (users : IUserRepository D E) (guilds : IGuildRepository D E)
    (messages : IMessageRepository D E) (server : Server S R) (codec : Codec P) where
  -- The two writes.
  store : World D S → MessageModel → ℕ → Result (Error E R) MessageModel × World D S
  unfolding saved username_of publish_message
  store w m now =
      let (r, db) = messages.create w.db m in
      let redis =
        publish_message server codec w.redis m (username_of (users.find_by_id w.db m.user_id))
          now in
      (saved m r, record w { db = db; redis = redis })

  with_seq :
      World D S
      → String
      → String
      → Bytes
      → Times
      → ℕ
      → Result R ℕ × S
      → Result (Error E R) MessageModel × World D S
  unfolding store
  with_seq w user_id guild_id content now id (err e, redis) =
      (err (seq_failed e), record w { redis = redis })
  with_seq w user_id guild_id content now id (ok seq, redis) =
      store (record w { redis = redis })
        (record {
          id = show64 id;
          user_id = user_id;
          guild_id = guild_id;
          content = content;
          seq_id = seq;
          created_at = now.created;
        })
        now.published

  -- none while the generator waits for the clock
  with_id :
      World D S
      → String
      → String
      → Bytes
      → Times
      → Outcome
      → Option (Result (Error E R) MessageModel × World D S)
  unfolding with_seq
  with_id w user_id guild_id content now none = none
  with_id w user_id guild_id content now (some (err e, g, clock)) =
      some (err (id_failed e), record w { generator = g; clock = clock })
  with_id w user_id guild_id content now (some (ok id, g, clock)) = some (
      with_seq (record w { generator = g; clock = clock }) user_id guild_id content now id
        (generate_seq_id server w.redis guild_id))

  pub checks : D → String → String → Bytes → Result (Error E R) (Unit {0})
  unfolding check_content check_member
  checks d user_id guild_id content = do
    u ← check_content content
    check_member (is_member guilds d user_id guild_id)

  after_checks :
      World D S
      → String
      → String
      → Bytes
      → Times
      → Result (Error E R) (Unit {0})
      → Option (Result (Error E R) MessageModel × World D S)
  unfolding with_id
  after_checks w user_id guild_id content now (err e) = some (err e, w)
  after_checks w user_id guild_id content now (ok u) =
      with_id w user_id guild_id content now (next_id w.generator w.clock)

  unfoldable pub send_message :
      World D S
      → String
      → String
      → Bytes
      → Times
      → Option (Result (Error E R) MessageModel × World D S)
  unfolding checks after_checks
  send_message w user_id guild_id content now =
      after_checks w user_id guild_id content now (checks w.db user_id guild_id content)

-- A page holds 50 messages where no limit is given, and at most 100.
pub page_size : ℤ → ℕ
page_size (negsuc n) = 50
page_size (pos zero) = 50
page_size (pos (suc n)) = if ltb 100 (suc n) then 100 else suc n

-- messages[:limit] where there are more, and whether there are.
cut : ℕ → List MessageModel → List MessageModel × Bool
cut limit ms = let more = ltb limit (length ms) in (if more then take limit ms else ms, more)

-- The users of the messages, each once, in the order in which they come first; `seen` holds those
-- that were met.
user_ids : Dict Bool → List MessageModel → List String
user_ids seen [] = []
user_ids seen (m ∷ ms) = elim (lookup m.user_id seen) [
  | some b ↦ user_ids seen ms
  | none ↦ m.user_id ∷ user_ids (insert m.user_id true seen) ms
]

pub record MessageWithUser : Type 0 where
  pub message : MessageModel
  pub username : String

name_in : Dict User → MessageModel → MessageWithUser
name_in found m = record {
  message = m;
  username = elim (lookup m.user_id found) [ none ↦ "Unknown" | some user ↦ user.user_name ];
}

or_empty : {E : Type 0} → Result E (Dict User) → Dict User
or_empty (ok found) = found
or_empty (err e) = []

module _ {D E : Type 0} (users : IUserRepository D E) (messages : IMessageRepository D E) where
  pub get_messages : D → String → ℤ → ℤ → Result E (List MessageModel × Bool)
  unfolding cut
  get_messages d guild_id last_seq_id limit = do
    ms ← messages.find_by_guild d guild_id last_seq_id (page_size limit + 1)
    ok (cut (page_size limit) ms)

  with_users : D → List MessageModel → Bool → List MessageWithUser × Bool
  unfolding or_empty name_in user_ids
  with_users d [] more = ([], false)
  with_users d (m ∷ ms) more =
      (map (name_in (or_empty (users.find_by_ids d (user_ids [] (m ∷ ms))))) (m ∷ ms), more)

  pub get_messages_with_user : D → String → ℤ → ℤ → Result E (List MessageWithUser × Bool)
  unfolding with_users
  get_messages_with_user d guild_id last_seq_id limit = do
    page ← get_messages d guild_id last_seq_id limit
    ok (with_users d page.0 page.1)

  -- A message that is not found, or that the database fails to read, is left out.
  keep : Result E (Option MessageModel) → List MessageModel → List MessageModel
  keep (ok (some m)) ms = m ∷ ms
  keep (ok none) ms = ms
  keep (err e) ms = ms

  pub batch_get_messages : D → List String → List MessageModel
  unfolding keep
  batch_get_messages d [] = []
  batch_get_messages d (id ∷ ids) = keep (messages.find_by_id d id) (batch_get_messages d ids)
