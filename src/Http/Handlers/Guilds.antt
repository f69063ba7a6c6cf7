-- ===== src/Http/Handlers/Guilds.antt =====
-- internal/handler/guild.go
pub mod Once
use chat_room.Prelude.{String, Bool, true, false, List, Result, ok, err, if◌then◌else◌, str_eq}
use chat_room.Services.{User, GuildModel}
use chat_room.Services.Guild
use chat_room.Services.Guild.{
  user_not_found, guild_not_found, invalid_invite_code, already_member, no_unique_code, failed,
}
use chat_room.Http.{
  Context, Handler, Ended, error, guild, guilds, members, joined, get_string, unauthorized,
  internal_server_error,
}
use chat_room.Http.Handlers.{
  IGuildService, respond, bad_request, ok_status, created_status, not_found, conflict,
}

module _ {W E : Type 0} where
  created : Context → Result (Guild.Error E) GuildModel × W → Ended W
  created c (ok g, w) = respond w c created_status (guild g)
  created c (err e, w) = respond w c internal_server_error (error "Failed to create guild")

  joining : Context → Result (Guild.Error E) (Unit {0}) × W → Ended W
  joining c (ok u, w) = respond w c ok_status joined
  joining c (err invalid_invite_code, w) = respond w c not_found (error "invalid invite code")
  joining c (err already_member, w) =
      respond w c conflict (error "user is already a member of this guild")
  joining c (err user_not_found, w) =
      respond w c internal_server_error (error "Failed to join guild")
  joining c (err guild_not_found, w) =
      respond w c internal_server_error (error "Failed to join guild")
  joining c (err no_unique_code, w) =
      respond w c internal_server_error (error "Failed to join guild")
  joining c (err (failed e), w) = respond w c internal_server_error (error "Failed to join guild")

  listed : W → Context → Result (Guild.Error E) (List GuildModel) → Ended W
  listed w c (ok gs) = respond w c ok_status (guilds gs)
  listed w c (err e) = respond w c internal_server_error (error "Failed to retrieve guilds")

  shown : W → Context → Result (Guild.Error E) (List User) → Ended W
  shown w c (ok us) = respond w c ok_status (members us)
  shown w c (err guild_not_found) = respond w c not_found (error "guild not found")
  shown w c (err user_not_found) =
      respond w c internal_server_error (error "Failed to retrieve members")
  shown w c (err invalid_invite_code) =
      respond w c internal_server_error (error "Failed to retrieve members")
  shown w c (err already_member) =
      respond w c internal_server_error (error "Failed to retrieve members")
  shown w c (err no_unique_code) =
      respond w c internal_server_error (error "Failed to retrieve members")
  shown w c (err (failed e)) =
      respond w c internal_server_error (error "Failed to retrieve members")

module _ {W E : Type 0} (service : IGuildService W E) where
  -- The name of CreateGuildRequest.
  pub create_guild : Result String String → Handler W
  unfolding created
  create_guild (err text) w c = respond w c bad_request (error text)
  create_guild (ok name) w c =
      if str_eq (get_string c "user_id") ""
      then respond w c unauthorized (error "Unauthorized")
      else created c (service.create_guild w (get_string c "user_id") name)

  -- The invite code of the request.
  pub join_guild : Result String String → Handler W
  unfolding joining
  join_guild (err text) w c = respond w c bad_request (error text)
  join_guild (ok invite_code) w c =
      if str_eq (get_string c "user_id") ""
      then respond w c unauthorized (error "Unauthorized")
      else joining c (service.join_guild w (get_string c "user_id") invite_code)

  pub get_user_guilds : Handler W
  unfolding listed
  get_user_guilds w c =
      if str_eq (get_string c "user_id") ""
      then respond w c unauthorized (error "Unauthorized")
      else listed w c (service.get_user_guilds w (get_string c "user_id"))

  pub get_guild_members : Handler W
  unfolding shown
  get_guild_members w c =
      if str_eq (c.param "id") ""
      then respond w c bad_request (error "Guild ID is required")
      else shown w c (service.get_guild_members w (c.param "id"))
