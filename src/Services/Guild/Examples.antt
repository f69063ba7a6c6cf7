-- ===== src/Services/Guild/Examples.antt =====
-- A database of two tables in which every user exists.
use mathlib.Core.Path.{subst}
use chat_room.Prelude.{
  ◌∙◌, ℕ, ◌≡◌, refl, sym, ap, String, Bool, true, false, ◌&&◌, ◌||◌, Option, none, some, List, [],
  ◌∷◌, ok, arith, str_eq, eq_refl, eq_iff, if◌then◌else◌, zero, suc,
}
use chat_room.Services.{User, GuildModel, IUserRepository, IGuildRepository}
use chat_room.Services.Guild.{has_guild, create_guild, join_guild}
use chat_room.Services.Guild.Membership.{
  Documented, Made, is_some, join_guild-member, create_guild-member,
}

record Database : Type 0 where
  rows : List GuildModel
  pairs : List (String × String)

is_pair : List (String × String) → String → String → Bool
is_pair [] g u = false
is_pair ((h, v) ∷ ps) g u = (str_eq h g && str_eq v u) || is_pair ps g u

search : List GuildModel → String → Option GuildModel
search [] code = none
search (r ∷ rs) code = if str_eq r.invite_code code then some r else search rs code

guilds_of : List (String × String) → String → List GuildModel → List GuildModel
guilds_of ps u [] = []
guilds_of ps u (r ∷ rs) =
    let others = guilds_of ps u rs in if is_pair ps r.id u then r ∷ others else others

abbrev user : String → User
user u = record {
  id = u;
  user_name = u;
  password_hash = "";
  email = "";
  avatar_url = "";
  status = "online";
  hub_id = "hub_001";
}

users : IUserRepository Database (Unit {0})
users = record { find_by_id = λ d u. ok (some (user u)); find_by_ids = λ d us. ok [] }

guilds : IGuildRepository Database (Unit {0})
unfolding is_pair search guilds_of
guilds = record {
  create = λ d g. (ok tt, record d { rows = g ∷ d.rows });
  find_by_id = λ d g. ok none;
  find_by_invite_code = λ d code. ok (search d.rows code);
  add_member = λ d g u. (ok tt, record d { pairs = (g, u) ∷ d.pairs });
  get_member_guilds = λ d u. ok (guilds_of d.pairs u d.rows);
  get_guild_members = λ d g. ok [];
}

search-has_guild :
    (rs : List GuildModel) (code : String) (g : GuildModel)
    → search rs code ≡ some g
    → has_guild rs g.id ≡ true
unfolding search has_guild
search-has_guild [] code g h = cc
search-has_guild (r ∷ rs) code g h =
    ground (arith, eq_iff r.id g.id, eq_refl r.id, search-has_guild rs code g)

has_guild-guilds_of :
    (ps : List (String × String)) (u g : String) (rs : List GuildModel)
    → has_guild (guilds_of ps u rs) g ≡ (is_pair ps g u && has_guild rs g)
unfolding guilds_of has_guild
has_guild-guilds_of ps u g [] = ground arith
has_guild-guilds_of ps u g (r ∷ rs) = ground (arith, eq_iff r.id g, has_guild-guilds_of ps u g rs)

find_id : List GuildModel → String → Option GuildModel
find_id [] id = none
find_id (r ∷ rs) id = if str_eq r.id id then some r else find_id rs id

has_guild-find_id : (rs : List GuildModel) (g : String) → has_guild rs g ≡ is_some (find_id rs g)
unfolding has_guild find_id
has_guild-find_id [] g = refl
has_guild-find_id (r ∷ rs) g = ground (arith, has_guild-find_id rs g)

documented : Documented users guilds
unfolding users guilds is_pair find_id
documented = record {
  member = λ d g u. is_pair d.pairs g u;
  row = λ d g. find_id d.rows g;
  user_found = λ d u user e. ground (arith, e);
  guild_found = λ d code g e.
      sym (has_guild-find_id d.rows g.id) ∙ search-has_guild d.rows code g (ground (arith, e));
  listed = λ d u gs g e.
      (let same : guilds_of d.pairs u d.rows ≡ gs = ground (arith, e) in
        ap (λ x. has_guild x g) (sym same)
        ∙ (has_guild-guilds_of d.pairs u g d.rows
            ∙ ap (λ b. is_pair d.pairs g u && b) (has_guild-find_id d.rows g)));
  created = λ d d' g h u e.
      (let same : record d { rows = g ∷ d.rows } ≡ d' = ap (λ p. p.1) e in
        subst
          (λ x.
            (find_id x.rows h ≡ (if str_eq g.id h then some g else find_id d.rows h))
            × (is_pair x.pairs h u ≡ is_pair d.pairs h u))
          same (refl, refl));
  added = λ d d' g u h v e.
      (let same : record d { pairs = (g, u) ∷ d.pairs } ≡ d' = ap (λ p. p.1) e in
        subst
          (λ x.
            (is_pair x.pairs h v ≡ ((str_eq g h && str_eq u v) || is_pair d.pairs h v))
            × (find_id x.rows h ≡ find_id d.rows h))
          same (refl, refl));
}

abbrev codes : ℕ → String
codes zero = "aaaa"
codes (suc i) = "bbbb"

abbrev den : GuildModel
den = record { id = "g1"; name = "den"; owner_id = "ann"; invite_code = "aaaa" }

abbrev before : Database
before = record { rows = den ∷ []; pairs = ("g1", "ann") ∷ [] }

join_guild-member_example :
    (guild : GuildModel) × (guilds.find_by_invite_code before "aaaa" ≡ ok (some guild))
    × (documented.member before guild.id "bob" ≡ false)
    × (documented.member (record before { pairs = ("g1", "bob") ∷ before.pairs }) "g1" "ann"
        ≡ ((str_eq guild.id "g1" && str_eq "bob" "ann") || documented.member before "g1" "ann"))
unfolding join_guild guilds users search guilds_of is_pair
join_guild-member_example =
    join_guild-member users guilds documented before
      (record before { pairs = ("g1", "bob") ∷ before.pairs }) "bob" "aaaa" "g1" "ann" refl

abbrev lair : GuildModel
lair = record { id = "g2"; name = "lair"; owner_id = "bob"; invite_code = "bbbb" }

abbrev lair_built : Database
lair_built = record { rows = lair ∷ before.rows; pairs = ("g2", "bob") ∷ before.pairs }

create_guild-member_example :
    Made users guilds documented codes before "g2" "bob" "lair" lair
    × (documented.row lair_built "g2" ≡ some lair)
    × (documented.member lair_built "g2" "bob" ≡ true)
unfolding create_guild guilds users search
create_guild-member_example =
    create_guild-member users guilds documented codes before lair_built "g2" "bob" "lair" lair refl
