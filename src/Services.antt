-- ===== src/Services.antt =====
-- internal/service, over the interfaces of internal/repository: guilds and messages. A record that
-- gorm does not find (gorm.ErrRecordNotFound) is none. Reads leave the database as it is. The text
-- that fmt.Errorf puts round an error is not modelled.
pub mod Guild
pub mod Message
pub mod Auth
use chat_room.Prelude.{ℕ, String, Bool, Option, List, Result}
use chat_room.Prelude.Dict.{Dict}
use chat_room.Prelude.Int.{ℤ}

-- The times at which a record was made or changed are left out of it.
pub record User : Type 0 where
  pub id : String
  pub user_name : String
  pub password_hash : String
  pub email : String
  pub avatar_url : String
  pub status : String
  pub hub_id : String

pub record GuildModel : Type 0 where
  pub id : String
  pub name : String
  pub owner_id : String
  pub invite_code : String

-- IUserRepository, as far as these services call it, over a database D.
pub record IUserRepository (D E : Type 0) : Type 0 where
  pub find_by_id : D → String → Result E (Option User)
  pub find_by_ids : D → List String → Result E (Dict User)

-- IGuildRepository, likewise.
pub record IGuildRepository (D E : Type 0) : Type 0 where
  pub create : D → GuildModel → Result E (Unit {0}) × D
  pub find_by_id : D → String → Result E (Option GuildModel)
  pub find_by_invite_code : D → String → Result E (Option GuildModel)
  pub add_member : D → String → String → Result E (Unit {0}) × D
  pub get_member_guilds : D → String → Result E (List GuildModel)
  pub get_guild_members : D → String → Result E (List User)
