-- ===== src/Services/Guild.antt =====
-- internal/service/guild.go. The invite codes that are drawn at random are a sequence, and the UUID
-- of a new guild is an argument.
pub mod Membership
pub mod Codes
mod Examples
use chat_room.Prelude.{
  ℕ, zero, suc, ◌+◌, String, Bool, true, false, Option, none, some, List, [], ◌∷◌, if◌then◌else◌,
  Result, ok, err, ◌>>=◌, str_eq,
}
use chat_room.Services.{User, GuildModel, IUserRepository, IGuildRepository}

pub data Error (E : Type 0) : Type 0 where
  user_not_found guild_not_found invalid_invite_code already_member : Error E
  -- "failed to generate unique invite code after maximum attempts"
  no_unique_code : Error E
  failed : E → Error E

-- An error of the database is passed on, and a record that is missing is the error given.
pub required : {E A : Type 0} → Error E → Result E (Option A) → Result (Error E) A
required e (ok (some a)) = ok a
required e (ok none) = err e
required e (err x) = err (failed x)

pub passed : {E A : Type 0} → Result E A → Result (Error E) A
passed (ok a) = ok a
passed (err x) = err (failed x)

-- The loop over the guilds of a user.
pub has_guild : List GuildModel → String → Bool
has_guild [] guild_id = false
has_guild (g ∷ gs) guild_id = if str_eq g.id guild_id then true else has_guild gs guild_id

abbrev pub max_attempts : ℕ
max_attempts = 10

module _ {D E : Type 0} (guilds : IGuildRepository D E) where
  -- A code that the database has asks for another attempt.
  after_lookup :
      String → Result (Error E) String → Result E (Option GuildModel) → Result (Error E) String
  after_lookup code again (ok none) = ok code
  after_lookup code again (ok (some g)) = again
  after_lookup code again (err x) = err (failed x)

  -- The loop, with the attempts left.
  draw : (ℕ → String) → D → ℕ → ℕ → Result (Error E) String
  unfolding after_lookup
  draw codes d zero i = err no_unique_code
  draw codes d (suc left) i =
      after_lookup (codes i) (draw codes d left (i + 1)) (guilds.find_by_invite_code d (codes i))

  pub generate_unique_invite_code : (ℕ → String) → D → Result (Error E) String
  unfolding draw
  generate_unique_invite_code codes d = draw codes d max_attempts 0

  unfoldable pub is_member : D → String → String → Result (Error E) Bool
  unfolding passed has_guild
  is_member d user_id guild_id = do
    gs ← passed (guilds.get_member_guilds d user_id)
    ok (has_guild gs guild_id)

  -- A member is added, or the error is passed on.
  with_member : {A : Type 0} → D → String → String → A → Result (Error E) A × D
  unfolding passed
  with_member d guild_id user_id a =
      let (r, d') = guilds.add_member d guild_id user_id in (passed r >>= λ u. ok a, d')

  after_create : GuildModel → String → Result E (Unit {0}) × D → Result (Error E) GuildModel × D
  unfolding with_member
  after_create guild user_id (err x, d) = (err (failed x), d)
  after_create guild user_id (ok u, d) = with_member d guild.id user_id guild

module _ {D E : Type 0} (users : IUserRepository D E) (guilds : IGuildRepository D E) where
  -- The guild that CreateGuild saves.
  new_guild : (ℕ → String) → D → String → String → String → Result (Error E) GuildModel
  unfolding required generate_unique_invite_code
  new_guild codes d uuid user_id name = do
    user ← required user_not_found (users.find_by_id d user_id)
    code ← generate_unique_invite_code guilds codes d
    ok (record { id = uuid; name = name; owner_id = user.id; invite_code = code })

  save_guild : D → String → Result (Error E) GuildModel → Result (Error E) GuildModel × D
  unfolding after_create
  save_guild d user_id (err e) = (err e, d)
  save_guild d user_id (ok guild) = after_create guilds guild user_id (guilds.create d guild)

  pub create_guild : (ℕ → String) → D → String → String → String → Result (Error E) GuildModel × D
  unfolding new_guild save_guild
  create_guild codes d uuid user_id name =
      save_guild d user_id (new_guild codes d uuid user_id name)

  -- The user and the guild that JoinGuild brings together, once its checks are passed.
  joining : D → String → String → Result (Error E) (User × GuildModel)
  unfolding required is_member
  joining d user_id invite_code = do
    user ← required user_not_found (users.find_by_id d user_id)
    guild ← required invalid_invite_code (guilds.find_by_invite_code d invite_code)
    member ← is_member guilds d user.id guild.id
    if member then err already_member else ok (user, guild)

  add_joining : D → Result (Error E) (User × GuildModel) → Result (Error E) (Unit {0}) × D
  unfolding with_member
  add_joining d (err e) = (err e, d)
  add_joining d (ok (user, guild)) = with_member guilds d guild.id user.id tt

  pub join_guild : D → String → String → Result (Error E) (Unit {0}) × D
  unfolding joining add_joining
  join_guild d user_id invite_code = add_joining d (joining d user_id invite_code)

  pub get_user_guilds : D → String → Result (Error E) (List GuildModel)
  unfolding required passed
  get_user_guilds d user_id = do
    user ← required user_not_found (users.find_by_id d user_id)
    passed (guilds.get_member_guilds d user_id)

  pub get_guild_members : D → String → Result (Error E) (List User)
  unfolding required passed
  get_guild_members d guild_id = do
    guild ← required guild_not_found (guilds.find_by_id d guild_id)
    passed (guilds.get_guild_members d guild_id)
