-- ===== src/Services/Message/Samples.antt =====
-- A guild of two users and a table of messages, with a generator.
use chat_room.Prelude.{ℕ, String, none, List, [], ◌∷◌, ok, err, take}
use chat_room.Prelude.Decimal.{show64}
use chat_room.Prelude.Dict.{Dict}
use chat_room.Snowflake.{Generator}
use chat_room.Services.{GuildModel, IUserRepository, IGuildRepository}
use chat_room.Services.Message.{MessageModel, IMessageRepository, World, Times}

abbrev pub Db : Type 0
Db = List MessageModel

abbrev pub den : GuildModel
den = record { id = "g1"; name = "den"; owner_id = "ann"; invite_code = "aaaa" }

abbrev pub users : IUserRepository Db (Unit {0})
users = record { find_by_id = λ d u. ok none; find_by_ids = λ d us. err tt }

-- Every user is a member of one guild.
abbrev pub guilds : IGuildRepository Db (Unit {0})
guilds = record {
  create = λ d g. (ok tt, d);
  find_by_id = λ d g. ok none;
  find_by_invite_code = λ d code. ok none;
  add_member = λ d g u. (ok tt, d);
  get_member_guilds = λ d u. ok (den ∷ []);
  get_guild_members = λ d g. ok [];
}

abbrev pub messages : IMessageRepository Db (Unit {0})
messages = record {
  create = λ d m. (ok tt, m ∷ d);
  find_by_guild = λ d g last n. ok (take n d);
  find_by_id = λ d id. ok none;
}

-- A generator with no bits for workers, which issues the milliseconds since its epoch.
abbrev pub generator : ℕ → Generator
generator last = record {
  epoch = 1000;
  datacenter_id = 0;
  worker_id = 0;
  worker_id_bits = 0;
  sequence_bits = 0;
  datacenter_bits = 0;
  worker_id_shift = 0;
  datacenter_id_shift = 0;
  timestamp_shift = 0;
  sequence_mask = 0;
  worker_id_mask = 0;
  datacenter_id_mask = 0;
  sequence = 0;
  last_timestamp = last;
}

abbrev pub world : Db → ℕ → List ℕ → World Db (Dict String)
world db last clock = record { db = db; redis = []; generator = generator last; clock = clock }

-- Both readings at one time.
abbrev pub at : ℕ → Times
at now = record { created = now; published = now }

abbrev pub hello : MessageModel
hello = record {
  id = show64 42;
  user_id = "ann";
  guild_id = "g1";
  content = 104 ∷ 105 ∷ [];
  seq_id = 1;
  created_at = 1042;
}
