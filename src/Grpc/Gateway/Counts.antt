-- ===== src/Grpc/Gateway/Counts.antt =====
-- What BroadcastToGuild writes, and what it counts.
use chat_room.Prelude.{
  nonempty, ℕ, suc, ◌+◌, ◌^◌, ◌<◌, ◌≤◌, ◌≡◌, ◌≢◌, ◌∙◌, refl, sym, ap, arith, String, Bool,
  Bool-cases, true, false, Option, none, some, inl, inr, Any, List, [], ◌∷◌, if◌then◌else◌, Result,
  ok, err, length, length-append, get_elem?, get_elem?-set_self, get_elem?-set_ne, str_eq,
}
use chat_room.Gateway.Connection.{Bytes, Socket, Connection, WriteError, binary, write_message}
use chat_room.Gateway.Manager.{Manager, get_connection, get_connections_by_guild}
use chat_room.Gateway.Manager.Invariant.{IsWellFormed}
use chat_room.Gateway.Manager.Guilds.{
  Unique, get_connections_by_guild-Unique, get_connections_by_guild_iff, collected_or_not,
}
use chat_room.Gateway.Handler.{WsMessage, Codec}
use chat_room.Grpc.Gateway.{
  Broadcast, excluded, write_at, noted, write_to, write_all, broadcast_bytes, broadcast_to_guild,
}

-- The users that an answer has counted or named.
abbrev pub reported : Broadcast → ℕ
reported b = b.delivered_count + length b.failed_user_ids

module _ {W E : Type 0} (socket : Socket W E) (exclude : List String) (bytes : Bytes) where
  -- The connection after the broadcast.
  abbrev pub written : Connection W → Connection W
  written c = if excluded exclude c.user_id then c else (write_message socket c binary bytes).1

  abbrev pub one_more : Option (Connection W) → ℕ → ℕ
  one_more none n = n
  one_more (some c) n = if excluded exclude c.user_id then n else suc n

  -- How many of the connections are not those of excluded users.
  abbrev pub wanted : List (Connection W) → List ℕ → ℕ
  wanted heap [] = 0
  wanted heap (ref ∷ refs) = one_more (get_elem? heap ref) (wanted heap refs)

  noted-reported :
      (c : Connection W) (r : Result (WriteError E) (Unit {0})) (b : Broadcast)
      → reported b < 2 ^ 31
      → reported (noted socket c r b) ≡ reported b + 1
  unfolding noted
  noted-reported c (ok u) b h = omega arith
  noted-reported c (err e) b h =
      (let k = length-append b.failed_user_ids (c.user_id ∷ []) in omega (arith, k))

  user_id-write_message :
      (c : Connection W) → (write_message socket c binary bytes).1.user_id ≡ c.user_id
  unfolding write_message
  user_id-write_message c = elim (Bool-cases c.closed) [
    | inl shut ↦ rw shut refl
    | inr live ↦ rw live refl
  ]

  -- What one round does, at a connection of the heap.
  abbrev Written :
      Broadcast → List (Connection W) → ℕ → Connection W → Broadcast × List (Connection W) → Type 0
  Written b heap ref c s =
      (reported s.0 ≡ (if excluded exclude c.user_id then reported b else suc (reported b)))
      × (get_elem? s.1 ref ≡ some (written c))
      × ((j : ℕ) → ref ≢ j → get_elem? s.1 j ≡ get_elem? heap j)

  write_to-Written :
      (b : Broadcast) (heap : List (Connection W)) (ref : ℕ) (c : Connection W)
      → reported b < 2 ^ 31
      → get_elem? heap ref ≡ some c
      → Written b heap ref c (write_to socket exclude bytes ref (b, heap))
  unfolding write_to write_at
  write_to-Written b heap ref c small e = elim (Bool-cases (excluded exclude c.user_id)) [
    | inl out ↦ rw (write_to, e, out) (refl, e, λ j ne. refl)
    | inr in_it ↦
        rw (write_to, e, in_it)
          (
            noted-reported c (write_message socket c binary bytes).0 b small ∙ omega arith,
            get_elem?-set_self heap ref (write_message socket c binary bytes).1 c e,
            λ j ne. get_elem?-set_ne heap ref j (write_message socket c binary bytes).1 ne,
          )
  ]

  wanted_same :
      (heap heap' : List (Connection W)) (refs : List ℕ)
      → ((r : ℕ) → Any (λ x. x ≡ r) refs → get_elem? heap' r ≡ get_elem? heap r)
      → wanted heap' refs ≡ wanted heap refs
  wanted_same heap heap' [] same = refl
  wanted_same heap heap' (ref ∷ refs) same =
      ap (λ o. one_more o (wanted heap' refs)) (same ref (inl refl))
      ∙ ap (one_more (get_elem? heap ref)) (wanted_same heap heap' refs (λ r i. same r (inr i)))

  wanted-cons :
      (heap : List (Connection W)) (ref : ℕ) (refs : List ℕ) (c : Connection W) (n : ℕ)
      → get_elem? heap ref ≡ some c
      → (if excluded exclude c.user_id then n else suc n) + wanted heap refs
        ≡ n + wanted heap (ref ∷ refs)
  wanted-cons heap ref refs c n e =
      counted (excluded exclude c.user_id) ∙ ap (λ o. n + one_more o (wanted heap refs)) (sym e)
    where
      counted :
          (b : Bool)
          → (if b then n else suc n) + wanted heap refs
            ≡ n + (if b then wanted heap refs else suc (wanted heap refs))
      counted true = refl
      counted false = omega arith

  if_le : (b : Bool) (n : ℕ) → (if b then n else suc n) ≤ n + 1
  if_le b n = ground arith

  write_all-Written :
      (b : Broadcast) (heap : List (Connection W)) (refs : List ℕ)
      → Unique refs
      → ((r : ℕ) → Any (λ x. x ≡ r) refs → (c : Connection W) × (get_elem? heap r ≡ some c))
      → reported b + length refs < 2 ^ 31
      → let s = write_all socket exclude bytes refs (b, heap) in
        (reported s.0 ≡ reported b + wanted heap refs)
        × ((r : ℕ) (c : Connection W)
            → Any (λ x. x ≡ r) refs
            → get_elem? heap r ≡ some c
            → get_elem? s.1 r ≡ some (written c))
        × ((j : ℕ) → (Any (λ x. x ≡ j) refs → ⊥) → get_elem? s.1 j ≡ get_elem? heap j)
  unfolding write_all
  write_all-Written b heap [] u found small = (omega arith, λ r c i. absurd i, λ j no. refl)
  write_all-Written b heap (ref ∷ refs) u found small =
      let (c, e) = found ref (inl refl) in
      let s = write_to socket exclude bytes ref (b, heap) in
      let (n, self, rest) = write_to-Written b heap ref c (omega arith) e in
      let keep : (r : ℕ) → Any (λ x. x ≡ r) refs → get_elem? s.1 r ≡ get_elem? heap r =
        λ r i. rest r (apart r i) in
      let (n', hit, miss) =
        write_all-Written s.0 s.1 refs u.1
          (λ r i. (let (d, k) = found r (inr i) in (d, keep r i ∙ k)))
          (let le = if_le (excluded exclude c.user_id) (reported b) in omega (arith, n, le)) in
      (
        n' ∙ rw (n, wanted_same heap s.1 refs keep) (wanted-cons heap ref refs c (reported b) e),
        λ r d i k. elim i [
          | inl same ↦
              (let agree : c ≡ d = cc (e, k, same) in rw (← same, ← agree) (miss ref u.0 ∙ self))
          | inr later ↦ hit r d later (keep r later ∙ k)
        ],
        λ j no. miss j (λ i. no (inr i)) ∙ rest j (λ same. no (inl same)),
      )
    where
      apart : (r : ℕ) → Any (λ x. x ≡ r) refs → ref ≢ r
      apart r i same = u.0 (rw same i)

module _ {S W E P : Type 0} (socket : Socket W E) (codec : Codec P) (describe : P → String) where
  is_found :
      (m : Manager S W) (guild_id : String) (r : ℕ)
      → IsWellFormed m
      → Any (λ x. x ≡ r) (get_connections_by_guild m guild_id)
      → (c : Connection W) × (get_elem? m.heap r ≡ some c)
  unfolding get_connection
  is_found m guild_id r v i =
      let (u, entry, of_guild) = (get_connections_by_guild_iff m guild_id r v).0 i in
      let live = v.live u r entry in (live.connection, live.found)

  -- A message that is broadcast to a guild is written to every connection of the guild that the map
  -- has, but for those of excluded users, and to no other; those that are counted as delivered and
  -- those that are named as failed are together as many, if there are fewer than 2^31.
  pub broadcast_to_guild-written :
      (m : Manager S W) (guild_id : String) (msg : WsMessage) (exclude : List String) (out : Bytes)
      (u : String) (ref : ℕ) (c : Connection W)
      → IsWellFormed m
      → guild_id ≢ ""
      → codec.marshal msg ≡ ok out
      → length (get_connections_by_guild m guild_id) < 2 ^ 31
      → get_connection m u ≡ some ref
      → get_elem? m.heap ref ≡ some c
      → (b : Broadcast) × (heap : List (Connection W)) × (broadcast_to_guild socket codec describe m
            guild_id
            (some msg)
            exclude
          ≡ (ok b, record m { heap = heap }))
        × (reported b ≡ wanted socket exclude out m.heap (get_connections_by_guild m guild_id))
        × (get_elem? heap ref
            ≡ some (if str_eq c.guild_id guild_id then written socket exclude out c else c))
  unfolding broadcast_to_guild broadcast_bytes
  broadcast_to_guild-written m guild_id msg exclude out u ref c v ne made small g h =
      let refs : List ℕ = get_connections_by_guild m guild_id in
      let s =
        write_all socket exclude out refs
          (record { delivered_count = 0; failed_user_ids = [] }, m.heap) in
      let (n, hit, miss) =
        write_all-Written socket exclude out (record { delivered_count = 0; failed_user_ids = [] })
          m.heap refs (get_connections_by_guild-Unique m guild_id v)
          (λ r i. is_found m guild_id r v i) (omega (arith, small)) in
      (
        s.0,
        s.1,
        rw (nonempty guild_id ne, made) refl,
        n ∙ omega arith,
        elim (collected_or_not m guild_id u ref c v g h) [
          | inl (same, i) ↦ rw same (hit ref c i h)
          | inr (other, not_in) ↦ rw other (miss ref not_in ∙ h)
        ],
      )
