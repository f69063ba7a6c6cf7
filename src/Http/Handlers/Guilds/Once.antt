-- ===== src/Http/Handlers/Guilds/Once.antt =====
-- The handlers of guilds answer once.
use chat_room.Prelude.{refl, Bool-cases, inl, inr, String, List, Result, ok, err, str_eq}
use chat_room.Services.{User, GuildModel}
use chat_room.Services.Guild
use chat_room.Services.Guild.{
  user_not_found, guild_not_found, invalid_invite_code, already_member, no_unique_code, failed,
}
use chat_room.Http.{Context, get_string}
use chat_room.Http.Handlers.{IGuildService, AnswersOnce}
use chat_room.Http.Handlers.Guilds.{
  created, joining, listed, shown, create_guild, join_guild, get_user_guilds, get_guild_members,
}

module _ {W E : Type 0} (c : Context) where
  created_once : (r : Result (Guild.Error E) GuildModel) (w : W) → AnswersOnce c (created c (r, w))
  unfolding created
  created_once (ok g) w = (_, refl)
  created_once (err e) w = (_, refl)

  joining_once : (r : Result (Guild.Error E) (Unit {0})) (w : W) → AnswersOnce c (joining c (r, w))
  unfolding joining
  joining_once (ok u) w = (_, refl)
  joining_once (err user_not_found) w = (_, refl)
  joining_once (err guild_not_found) w = (_, refl)
  joining_once (err invalid_invite_code) w = (_, refl)
  joining_once (err already_member) w = (_, refl)
  joining_once (err no_unique_code) w = (_, refl)
  joining_once (err (failed e)) w = (_, refl)

  listed_once :
      (w : W) (r : Result (Guild.Error E) (List GuildModel)) → AnswersOnce c (listed w c r)
  unfolding listed
  listed_once w (ok gs) = (_, refl)
  listed_once w (err e) = (_, refl)

  shown_once : (w : W) (r : Result (Guild.Error E) (List User)) → AnswersOnce c (shown w c r)
  unfolding shown
  shown_once w (ok us) = (_, refl)
  shown_once w (err user_not_found) = (_, refl)
  shown_once w (err guild_not_found) = (_, refl)
  shown_once w (err invalid_invite_code) = (_, refl)
  shown_once w (err already_member) = (_, refl)
  shown_once w (err no_unique_code) = (_, refl)
  shown_once w (err (failed e)) = (_, refl)

module _ {W E : Type 0} (service : IGuildService W E) (w : W) (c : Context) where
  pub create_guild_once :
      (req : Result String String) → AnswersOnce c (create_guild service req w c)
  unfolding create_guild
  create_guild_once (err text) = (_, refl)
  create_guild_once (ok name) = elim (Bool-cases (str_eq (get_string c "user_id") "")) [
    | inl unknown ↦ rw unknown (_, refl)
    | inr known ↦ rw known (
        created_once c (service.create_guild w (get_string c "user_id") name).0
          (service.create_guild w (get_string c "user_id") name).1)
  ]

  pub join_guild_once : (req : Result String String) → AnswersOnce c (join_guild service req w c)
  unfolding join_guild
  join_guild_once (err text) = (_, refl)
  join_guild_once (ok code) = elim (Bool-cases (str_eq (get_string c "user_id") "")) [
    | inl unknown ↦ rw unknown (_, refl)
    | inr known ↦ rw known (
        joining_once c (service.join_guild w (get_string c "user_id") code).0
          (service.join_guild w (get_string c "user_id") code).1)
  ]

  pub get_user_guilds_once : AnswersOnce c (get_user_guilds service w c)
  unfolding get_user_guilds
  get_user_guilds_once = elim (Bool-cases (str_eq (get_string c "user_id") "")) [
    | inl unknown ↦ rw unknown (_, refl)
    | inr known ↦ rw known (listed_once c w (service.get_user_guilds w (get_string c "user_id")))
  ]

  pub get_guild_members_once : AnswersOnce c (get_guild_members service w c)
  unfolding get_guild_members
  get_guild_members_once = elim (Bool-cases (str_eq (c.param "id") "")) [
    | inl missing ↦ rw missing (_, refl)
    | inr given ↦ rw given (shown_once c w (service.get_guild_members w (c.param "id")))
  ]
