-- ===== src/Services/Guild/Membership.antt =====
-- Who is a member of a guild after it is created or joined.
use mathlib.Core.Path.{subst}
use chat_room.Prelude.{
  ℕ, ◌<◌, ◌≡◌, refl, sym, ◌∙◌, ap, String, Bool, true, false, ◌&&◌, ◌||◌, Option, none, some, List,
  Result, ok, err, ◌>>=◌, >>=_ok, arith, str_eq, eq_refl, if◌then◌else◌,
}
use chat_room.Services.{User, GuildModel, IUserRepository, IGuildRepository}
use chat_room.Services.Guild.Codes.{generate_unique_invite_code-ok}
use chat_room.Services.Guild.{
  Error, user_not_found, invalid_invite_code, already_member, required, passed, has_guild,
  is_member, with_member, after_create, new_guild, save_guild, create_guild, joining, add_joining,
  join_guild, generate_unique_invite_code,
}

abbrev pub is_some : {A : Type 0} → Option A → Bool
is_some none = false
is_some (some a) = true

-- Documented behaviour of the database, over the memberships that it holds and the row that it
-- stores for the id of a guild: GetMemberGuilds joins the two tables.
pub record Documented {D E : Type 0} (users : IUserRepository D E) (guilds : IGuildRepository D E)
    : Type 1 where
  pub member : D → String → String → Bool
  pub row : D → String → Option GuildModel
  pub user_found :
      (d : D) (u : String) (user : User) → users.find_by_id d u ≡ ok (some user) → user.id ≡ u
  pub guild_found :
      (d : D) (code : String) (g : GuildModel)
      → guilds.find_by_invite_code d code ≡ ok (some g)
      → is_some (row d g.id) ≡ true
  pub listed :
      (d : D) (u : String) (gs : List GuildModel) (g : String)
      → guilds.get_member_guilds d u ≡ ok gs
      → has_guild gs g ≡ (member d g u && is_some (row d g))
  pub created :
      (d d' : D) (g : GuildModel) (h u : String)
      → guilds.create d g ≡ (ok tt, d')
      → (row d' h ≡ (if str_eq g.id h then some g else row d h)) × (member d' h u ≡ member d h u)
  pub added :
      (d d' : D) (g u h v : String)
      → guilds.add_member d g u ≡ (ok tt, d')
      → (member d' h v ≡ ((str_eq g h && str_eq u v) || member d h v)) × (row d' h ≡ row d h)

required-ok :
    {E A : Type 0} (e : Error E) (r : Result E (Option A)) (a : A)
    → required e r ≡ ok a
    → r ≡ ok (some a)
unfolding required
required-ok e (ok (some b)) a h = ground (arith, h)
required-ok e (ok none) a h = cc
required-ok e (err x) a h = cc

passed-ok : {E A : Type 0} (r : Result E A) (a : A) → passed r ≡ ok a → r ≡ ok a
unfolding passed
passed-ok (ok b) a h = ground (arith, h)
passed-ok (err x) a h = cc

member_test :
    {E : Type 0} (b : Bool) (p q : User × GuildModel)
    → ◌≡◌ {A = Result (Error E) (User × GuildModel)} (if b then err already_member else ok p) (ok q)
    → (b ≡ false) × (p ≡ q)
member_test true p q h = cc
member_test false p q h = (refl, ground (arith, h))

module _ {D E : Type 0} (users : IUserRepository D E) (guilds : IGuildRepository D E) where
  passed_then :
      {A : Type 0} (r : Result E (Unit {0})) (d d' : D) (a b : A)
      → ◌≡◌ {A = Result (Error E) A × D} (passed r >>= λ u. ok a, d) (ok b, d')
      → ◌≡◌ {A = Result E (Unit {0}) × D} (r, d) (ok tt, d') × (a ≡ b)
  unfolding passed
  passed_then (ok u) d d' a b h = (ground (arith, h), ground (arith, h))
  passed_then (err x) d d' a b h = cc

  add_joining-ok :
      (d d' : D) (r : Result (Error E) (User × GuildModel))
      → add_joining users guilds d r ≡ (ok tt, d')
      → (user : User) × (guild : GuildModel) × (r ≡ ok (user, guild))
        × (guilds.add_member d guild.id user.id ≡ (ok tt, d'))
  unfolding add_joining with_member
  add_joining-ok d d' (err e) h = cc
  add_joining-ok d d' (ok (user, guild)) h =
      (user, guild, refl, (passed_then (guilds.add_member d guild.id user.id).0 _ d' tt tt h).0)

  joining-ok :
      (d : D) (u code : String) (user : User) (guild : GuildModel)
      → joining users guilds d u code ≡ ok (user, guild)
      → (users.find_by_id d u ≡ ok (some user))
        × (guilds.find_by_invite_code d code ≡ ok (some guild))
        × (is_member guilds d user.id guild.id ≡ ok false)
  unfolding joining
  joining-ok d u code user guild h =
      let (v, found, h1) =
        >>=_ok (required user_not_found (users.find_by_id d u)) _ (user, guild) h in
      let (g, invited, h2) =
        >>=_ok (required invalid_invite_code (guilds.find_by_invite_code d code)) _ (user, guild)
          h1 in
      let (b, checked, h3) = >>=_ok (is_member guilds d v.id g.id) _ (user, guild) h2 in
      let (fresh, same) = member_test b (v, g) (user, guild) h3 in
      subst
        (λ p.
          (users.find_by_id d u ≡ ok (some p.0))
          × (guilds.find_by_invite_code d code ≡ ok (some p.1))
          × (is_member guilds d p.0.id p.1.id ≡ ok false))
        same
        (
          required-ok user_not_found (users.find_by_id d u) v found,
          required-ok invalid_invite_code (guilds.find_by_invite_code d code) g invited,
          checked ∙ ap ok fresh,
        )

  module _ (doc : Documented users guilds) where
    is_member-member :
        (d : D) (u g : String) (b : Bool)
        → is_member guilds d u g ≡ ok b
        → b ≡ (doc.member d g u && is_some (doc.row d g))
    unfolding is_member
    is_member-member d u g b h =
        let (gs, found, k) = >>=_ok (passed (guilds.get_member_guilds d u)) _ b h in
        let same : has_guild gs g ≡ b = ground (arith, k) in
        sym same ∙ doc.listed d u gs g (passed-ok (guilds.get_member_guilds d u) gs found)

    after_create-ok :
        (d' : D) (u : String) (g guild : GuildModel) (r : Result E (Unit {0}) × D)
        → after_create guilds g u r ≡ (ok guild, d')
        → (g ≡ guild) × (d1 : D) × (r ≡ (ok tt, d1)) × (guilds.add_member d1 g.id u ≡ (ok tt, d'))
    unfolding after_create with_member
    after_create-ok d' u g guild (err x, d1) h = cc
    after_create-ok d' u g guild (ok o, d1) h =
        let (added, same) = passed_then (guilds.add_member d1 g.id u).0 _ d' g guild h in
        (same, d1, refl, added)

    save_guild-ok :
        (d d' : D) (u : String) (r : Result (Error E) GuildModel) (guild : GuildModel)
        → save_guild users guilds d u r ≡ (ok guild, d')
        → (d1 : D) × (r ≡ ok guild)
          × (guilds.create d guild ≡ (ok tt, d1))
          × (guilds.add_member d1 guild.id u ≡ (ok tt, d'))
    unfolding save_guild
    save_guild-ok d d' u (err x) guild h = cc
    save_guild-ok d d' u (ok g) guild h =
        let (same, d1, saved, added) = after_create-ok d' u g guild (guilds.create d g) h in
        (d1, ap ok same, rw (← same) saved, rw (← same) added)

    -- A guild as it is made: with a code that is among the first ten drawn and that no guild has.
    abbrev pub Made : (ℕ → String) → D → String → String → String → GuildModel → Type 0
    Made codes d uuid u name guild =
        (guild.id ≡ uuid)
        × (guild.name ≡ name)
        × (guild.owner_id ≡ u)
        × (guilds.find_by_invite_code d guild.invite_code ≡ ok none)
        × (i : ℕ) × (i < 10)
        × (guild.invite_code ≡ codes i)

    new_guild-ok :
        (codes : ℕ → String) (d : D) (uuid u name : String) (guild : GuildModel)
        → new_guild users guilds codes d uuid u name ≡ ok guild
        → Made codes d uuid u name guild
    unfolding new_guild
    new_guild-ok codes d uuid u name guild h =
        let (user, found, h1) = >>=_ok (required user_not_found (users.find_by_id d u)) _ guild h in
        let (code, drawn, h2) = >>=_ok (generate_unique_invite_code guilds codes d) _ guild h1 in
        let made : record { id = uuid; name = name; owner_id = user.id; invite_code = code }
            ≡ guild =
          ground (arith, h2) in
        let (j, l, e, free) = generate_unique_invite_code-ok guilds codes d code drawn in
        subst (Made codes d uuid u name) made (
          refl,
          refl,
          doc.user_found d u user (required-ok user_not_found (users.find_by_id d u) user found),
          free,
          j,
          l,
          sym e,
        )

    -- A user who joins by an invite code was no member of the guild that has the code, and becomes
    -- one; nobody else's membership changes.
    pub join_guild-member :
        (d d' : D) (u code : String) (h v : String)
        → join_guild users guilds d u code ≡ (ok tt, d')
        → (guild : GuildModel) × (guilds.find_by_invite_code d code ≡ ok (some guild))
          × (doc.member d guild.id u ≡ false)
          × (doc.member d' h v ≡ ((str_eq guild.id h && str_eq u v) || doc.member d h v))
    unfolding join_guild
    join_guild-member d d' u code h v e =
        let (user, guild, joined, added) = add_joining-ok d d' (joining users guilds d u code) e in
        let (found, invited, stranger) = joining-ok d u code user guild joined in
        let same : user.id ≡ u = doc.user_found d u user found in
        let here : is_some (doc.row d guild.id) ≡ true = doc.guild_found d code guild invited in
        let checked = is_member-member d user.id guild.id false stranger in
        (
          guild,
          invited,
          (let c = (rw (same, here) at checked) in ground (arith, c)),
          rw (← same) (doc.added d d' guild.id user.id h v added).0,
        )

    -- A guild that is created has the id, the name and the user given, as its owner, and a code among
    -- the first ten drawn that no guild had; it is the row that is stored for its id, and the user
    -- is a member of it.
    pub create_guild-member :
        (codes : ℕ → String) (d d' : D) (uuid u name : String) (guild : GuildModel)
        → create_guild users guilds codes d uuid u name ≡ (ok guild, d')
        → Made codes d uuid u name guild
          × (doc.row d' guild.id ≡ some guild)
          × (doc.member d' guild.id u ≡ true)
    unfolding create_guild
    create_guild-member codes d d' uuid u name guild e =
        let (d1, made, saved, added) =
          save_guild-ok d d' u (new_guild users guilds codes d uuid u name) guild e in
        let member = doc.added d1 d' guild.id u guild.id u added in
        (
          new_guild-ok codes d uuid u name guild made,
          member.1 ∙ ((doc.created d d1 guild guild.id u saved).0 ∙ rw (eq_refl guild.id) refl),
          member.0 ∙ rw (eq_refl guild.id, eq_refl u) refl,
        )
