-- ===== src/Grpc/Guilds.antt =====
-- internal/pkg/grpc/guild_server.go. The times of a guild and of a member's joining are left out.
use chat_room.Prelude.{
  ℕ, ◌%◌, ◌^◌, String, Bool, Option, none, some, List, if◌then◌else◌, Result, ok, err, length,
  str_eq,
}
use chat_room.Services.{GuildModel}
use chat_room.Grpc.{Code, Status, required}

-- IGuildRepository, as far as this server calls it; the members are the identifiers of their users.
pub record IGuildRepository (D E : Type 0) : Type 0 where
  pub find_by_id : D → String → Result E (Option GuildModel)
  pub get_members : D → String → Result E (List String)
  pub is_member : D → String → String → Result E Bool

module _ {E : Type 0} (describe : E → String) where
  -- A guild that is not found is an error of the repository too.
  found : Result E (Option GuildModel) → Result Status GuildModel
  found (ok (some g)) = ok g
  found (ok none) = err (record { code = Code.not_found; message = "guild not found" })
  found (err e) = err (record { code = Code.not_found; message = "guild not found" })

  -- The users of a guild, with their number as an int32.
  counted : Result E (List String) → Result Status (List String × ℕ)
  counted (ok users) = ok (users, length users % 2 ^ 32)
  counted (err e) = err (record { code = Code.internal; message = describe e })

  answered : Result E Bool → Result Status Bool
  answered (ok b) = ok b
  answered (err e) = err (record { code = Code.internal; message = describe e })

module _ {D E : Type 0} (guilds : IGuildRepository D E) (describe : E → String) where
  pub get_guild : D → String → Result Status GuildModel
  unfolding found
  get_guild d guild_id =
      if str_eq guild_id ""
      then err (required "guild_id is required")
      else found describe (guilds.find_by_id d guild_id)

  pub get_guild_members : D → String → Result Status (List String × ℕ)
  unfolding counted
  get_guild_members d guild_id =
      if str_eq guild_id ""
      then err (required "guild_id is required")
      else counted describe (guilds.get_members d guild_id)

  pub check_membership : D → String → String → Result Status Bool
  unfolding answered
  check_membership d user_id guild_id =
      if str_eq user_id ""
      then err (required "user_id is required")
      else if str_eq guild_id ""
      then err (required "guild_id is required")
      else answered describe (guilds.is_member d guild_id user_id)
