-- ===== src/Gateway/Manager/Guilds.antt =====
-- What GetConnectionsByGuild collects.
use chat_room.Prelude.{
  ◌⊎◌, str_eq, false, ℕ, ◌≡◌, refl, String, true, some, List, [], ◌∷◌, get_elem?, ◌↔◌, Option-cases,
  inl, inr, eq_iff, Bool-cases, Any,
}
use chat_room.Prelude.Dict.{Dict, lookup, Distinct, Has, Has-lookup, lookup-Has}
use chat_room.Gateway.Connection.{Connection}
use chat_room.Gateway.Manager.{
  Manager, get_connection, get_connections_by_guild, select_guild, in_guild,
}
use chat_room.Gateway.Manager.Live.{Live-user}
use chat_room.Gateway.Manager.Invariant.{IsWellFormed}

-- A place of the heap holds a connection of the guild.
unfoldable pub OfGuild : {W : Type 0} → List (Connection W) → String → ℕ → Type 0
OfGuild {W} heap guild_id ref =
    (c : Connection W) × (get_elem? heap ref ≡ some c) × (c.guild_id ≡ guild_id)

module _ {W : Type 0} (heap : List (Connection W)) (guild_id : String) where
  in_guild-OfGuild : (ref : ℕ) → in_guild heap guild_id ref ≡ true → OfGuild heap guild_id ref
  unfolding in_guild OfGuild
  in_guild-OfGuild ref h = elim (Option-cases (get_elem? heap ref)) [
    | inl e ↦ (let k = (rw (e, in_guild) at h) in cc)
    | inr (c, e) ↦ (c, e, (eq_iff c.guild_id guild_id).0 (rw (e, in_guild) at h))
  ]

  OfGuild-in_guild : (ref : ℕ) → OfGuild heap guild_id ref → in_guild heap guild_id ref ≡ true
  unfolding in_guild OfGuild
  OfGuild-in_guild ref (c, e, g) = rw (e, in_guild) ((eq_iff c.guild_id guild_id).1 g)

  select_guild-Has :
      (d : Dict ℕ) (ref : ℕ)
      → Any (λ r. r ≡ ref) (select_guild heap guild_id d)
      → (u : String) × Has d u ref × OfGuild heap guild_id ref
  unfolding select_guild
  select_guild-Has [] ref h = absurd h
  select_guild-Has ((u, r) ∷ d) ref h = elim (Bool-cases (in_guild heap guild_id r)) [
    | inl e ↦ elim (rw (e, select_guild) at h) [
      | inl same ↦ (u, inl (refl, same), rw same at (in_guild-OfGuild r e))
      | inr rest ↦ later (select_guild-Has d ref rest)
    ]
    | inr e ↦ later (select_guild-Has d ref (rw (e, select_guild) at h))
  ]
    where
      later :
          ((w : String) × Has d w ref × OfGuild heap guild_id ref)
          → (w : String) × Has ((u, r) ∷ d) w ref × OfGuild heap guild_id ref
      later k = (k.0, inr k.1, k.2)

  Has-select_guild :
      (d : Dict ℕ) (u : String) (ref : ℕ)
      → Has d u ref
      → OfGuild heap guild_id ref
      → Any (λ r. r ≡ ref) (select_guild heap guild_id d)
  unfolding select_guild
  Has-select_guild [] u ref h g = absurd h
  Has-select_guild ((v, r) ∷ d) u ref (inl (same, e)) g = rw (OfGuild-in_guild r (rw e g)) (inl e)
  Has-select_guild ((v, r) ∷ d) u ref (inr has) g = elim (Bool-cases (in_guild heap guild_id r)) [
    | inl e ↦ rw e (inr (Has-select_guild d u ref has g))
    | inr e ↦ rw e (Has-select_guild d u ref has g)
  ]

-- No place stands twice.
abbrev pub Unique : List ℕ → Type 0
Unique [] = Unit {0}
Unique (r ∷ rs) = (Any (λ x. x ≡ r) rs → ⊥) × Unique rs

module _ {W : Type 0} (heap : List (Connection W)) (guild_id : String) where
  -- Each user has a connection of their own, so none is collected twice.
  select_guild-Unique :
      (d : Dict ℕ)
      → Distinct d
      → ((u v : String) (ref : ℕ) → Has d u ref → Has d v ref → u ≡ v)
      → Unique (select_guild heap guild_id d)
  unfolding select_guild
  select_guild-Unique [] distinct inj = tt
  select_guild-Unique ((u, r) ∷ d) distinct inj = elim (Bool-cases (in_guild heap guild_id r)) [
    | inl e ↦
        rw e
          (λ h. once (select_guild-Has heap guild_id d r h), select_guild-Unique d distinct.1 tails)
    | inr e ↦ rw e (select_guild-Unique d distinct.1 tails)
  ]
    where
      tails : (v w : String) (ref : ℕ) → Has d v ref → Has d w ref → v ≡ w
      tails v w ref h k = inj v w ref (inr h) (inr k)

      once : (v : String) × Has d v r × OfGuild heap guild_id r → ⊥
      once (v, has, g) =
          let same : u ≡ v = inj u v r (inl (refl, refl)) (inr has) in
          let found : lookup u d ≡ some r = rw same (lookup-Has d v r distinct.1 has) in
          cc (found, distinct.0)

-- The connections collected for a guild are those that the map has for some user and that
-- belong to the guild: none is missing, and none is from elsewhere.
pub get_connections_by_guild_iff :
    {S W : Type 0} (m : Manager S W) (guild_id : String) (ref : ℕ)
    → IsWellFormed m
    → Any (λ r. r ≡ ref) (get_connections_by_guild m guild_id)
      ↔ ((u : String) × (get_connection m u ≡ some ref) × OfGuild m.heap guild_id ref)
unfolding get_connections_by_guild get_connection
get_connections_by_guild_iff m guild_id ref v = (
  λ h.
      let (u, has, g) = select_guild-Has m.heap guild_id m.connections ref h in
      (u, lookup-Has m.connections u ref v.distinct has, g),
  λ h.
      let (u, e, g) = h in
      Has-select_guild m.heap guild_id m.connections u ref (Has-lookup m.connections u ref e) g,
)

pub get_connections_by_guild-Unique :
    {S W : Type 0} (m : Manager S W) (guild_id : String)
    → IsWellFormed m
    → Unique (get_connections_by_guild m guild_id)
unfolding get_connections_by_guild
get_connections_by_guild-Unique m guild_id v =
    select_guild-Unique m.heap guild_id m.connections v.distinct (λ u w ref h k.
      Live-user m.heap u w ref (v.live u ref (lookup-Has m.connections u ref v.distinct h))
        (v.live w ref (lookup-Has m.connections w ref v.distinct k)))

-- A connection that the map has for a user is collected for its own guild, and for no other.
pub collected_or_not :
    {S W : Type 0} (m : Manager S W) (guild_id u : String) (ref : ℕ) (c : Connection W)
    → IsWellFormed m
    → get_connection m u ≡ some ref
    → get_elem? m.heap ref ≡ some c
    → ((str_eq c.guild_id guild_id ≡ true)
        × Any (λ r. r ≡ ref) (get_connections_by_guild m guild_id))
      ⊎ ((str_eq c.guild_id guild_id ≡ false)
          × (Any (λ r. r ≡ ref) (get_connections_by_guild m guild_id) → ⊥))
unfolding OfGuild
collected_or_not m guild_id u ref c v g h = elim (Bool-cases (str_eq c.guild_id guild_id)) [
  | inl same ↦ inl (
    same,
    (get_connections_by_guild_iff m guild_id ref v).1
        (u, g, (c, h, (eq_iff c.guild_id guild_id).0 same)),
  )
  | inr other ↦
      inr (other, λ i. stranger other ((get_connections_by_guild_iff m guild_id ref v).0 i).2)
]
  where
    stranger : str_eq c.guild_id guild_id ≡ false → OfGuild m.heap guild_id ref → ⊥
    stranger other (d, found, same) =
        let agree : d ≡ c = cc (found, h) in
        let is_same : str_eq c.guild_id guild_id ≡ true =
          (eq_iff c.guild_id guild_id).1 (rw agree at same) in
        cc (other, is_same)
