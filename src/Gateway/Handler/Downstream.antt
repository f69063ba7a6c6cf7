-- ===== src/Gateway/Handler/Downstream.antt =====
-- Who gets a message that is published for a guild.
use chat_room.Prelude.{
  ℕ, ◌≡◌, ◌≢◌, inl, inr, refl, str_eq, ◌==◌, ==_iff, ◌∙◌, String, Bool, true, false, Option, none,
  some, List, [], ◌∷◌, ◌++◌, ltb, if◌then◌else◌, ok, length, Bool-cases, Option-cases, get_elem?,
  get_elem?-set_self, get_elem?-set_ne, set, Any, arith,
}
use chat_room.Gateway.Connection.{
  Bytes, Connection, capacity, try_send, Sent, queued, blocks, panics,
}
use chat_room.Gateway.Manager.{Manager, get_connection, get_connections_by_guild}
use chat_room.Gateway.Manager.Live.{Live}
use chat_room.Gateway.Manager.Invariant.{IsWellFormed}
use chat_room.Gateway.Manager.Guilds.{
  OfGuild, Unique, get_connections_by_guild-Unique, get_connections_by_guild_iff, collected_or_not,
}
use chat_room.Gateway.Handler.{
  WsMessage, Codec, push_serialized, push_to_guild, deliver, handle_downstream_message, push,
  settle, push_all, count,
}

-- A place of the heap holds a connection whose channel is closed.
unfoldable pub Closed : {W : Type 0} → List (Connection W) → ℕ → Type 0
Closed {W} heap ref = (c : Connection W) × (get_elem? heap ref ≡ some c) × (c.send.closed ≡ true)

-- One whose channel is open.
pub Open : {W : Type 0} → List (Connection W) → ℕ → Type 0
Open {W} heap ref = (c : Connection W) × (get_elem? heap ref ≡ some c) × (c.send.closed ≡ false)

-- The connection after a push to it, whose buffer drops what it has no room for.
abbrev pub delivered : {W : Type 0} → Bytes → Connection W → Connection W
delivered bytes c =
    if ltb (length c.send.buffer) capacity
    then record c { send = record c.send { buffer = c.send.buffer ++ bytes ∷ [] } }
    else c

module _ {W : Type 0} (bytes : Bytes) where
  push-Closed :
      (heap : List (Connection W)) (ref : ℕ) → Closed heap ref → push heap ref bytes ≡ none
  unfolding push settle Closed try_send
  push-Closed heap ref (c, e, h) = rw (e, push) (ground arith)

  push-Open :
      (heap : List (Connection W)) (ref : ℕ) (c : Connection W)
      → get_elem? heap ref ≡ some c
      → c.send.closed ≡ false
      → (b : Bool) × (heap' : List (Connection W)) × (push heap ref bytes ≡ some (b, heap'))
        × (get_elem? heap' ref ≡ some (delivered bytes c))
        × ((j : ℕ) → ref ≢ j → get_elem? heap' j ≡ get_elem? heap j)
  unfolding push settle try_send
  push-Open heap ref c e h = elim (Bool-cases (ltb (length c.send.buffer) capacity)) [
    | inl room ↦ (
      true,
      set heap ref with_message,
      rw (e, push, h, try_send, room),
      rw room (get_elem?-set_self heap ref with_message c e),
      λ j ne. get_elem?-set_ne heap ref j with_message ne,
    )
    | inr full ↦ (false, heap, rw (e, push, h, try_send, full), rw full e, λ j ne. refl)
  ]
    where
      with_message : Connection W
      with_message = record c { send = record c.send { buffer = c.send.buffer ++ bytes ∷ [] } }

  settle-Keeps :
      (heap heap' : List (Connection W)) (r ref : ℕ) (c : Connection W) (s : Sent) (b : Bool)
      → settle heap r c s ≡ some (b, heap')
      → r ≢ ref
      → get_elem? heap' ref ≡ get_elem? heap ref
  unfolding settle
  settle-Keeps heap heap' r ref c (queued send) b e ne =
      let (same, changed) : (true ≡ b) × (set heap r (record c { send = send }) ≡ heap') =
        ground (arith, e) in
      rw (← changed) (get_elem?-set_ne heap r ref (record c { send = send }) ne)
  settle-Keeps heap heap' r ref c blocks b e ne = ground (arith, e)
  settle-Keeps heap heap' r ref c panics b e ne = cc

  -- A push leaves the user and the guild of the connection as they are.
  settle-same :
      (heap heap' : List (Connection W)) (ref : ℕ) (c : Connection W) (s : Sent) (b : Bool)
      → settle heap ref c s ≡ some (b, heap')
      → get_elem? heap ref ≡ some c
      → (c' : Connection W) × (get_elem? heap' ref ≡ some c')
        × (c'.user_id ≡ c.user_id)
        × (c'.guild_id ≡ c.guild_id)
  unfolding settle
  settle-same heap heap' ref c (queued send) b e at =
      let (same, changed) : (true ≡ b) × (set heap ref (record c { send = send }) ≡ heap') =
        ground (arith, e) in
      (
        record c { send = send },
        rw (← changed) (get_elem?-set_self heap ref (record c { send = send }) c at),
        refl,
        refl,
      )
  settle-same heap heap' ref c blocks b e at =
      (let same : heap ≡ heap' = cc in (c, rw (← same) at, refl, refl))
  settle-same heap heap' ref c panics b e at = cc

  pub push-same :
      (heap heap' : List (Connection W)) (ref : ℕ) (c : Connection W) (b : Bool)
      → push heap ref bytes ≡ some (b, heap')
      → get_elem? heap ref ≡ some c
      → (c' : Connection W) × (get_elem? heap' ref ≡ some c')
        × (c'.user_id ≡ c.user_id)
        × (c'.guild_id ≡ c.guild_id)
  unfolding push
  push-same heap heap' ref c b e at =
      settle-same heap heap' ref c (try_send c.send bytes) b (rw (at, push) at e) at

  -- A push leaves the other connections as they are.
  push-Keeps :
      (heap heap' : List (Connection W)) (r ref : ℕ) (b : Bool)
      → push heap r bytes ≡ some (b, heap')
      → r ≢ ref
      → get_elem? heap' ref ≡ get_elem? heap ref
  unfolding push
  push-Keeps heap heap' r ref b e ne = elim (Option-cases (get_elem? heap r)) [
    | inl missing ↦ (let k = (rw (missing, push) at e) in ground (arith, k))
    | inr (c, found) ↦
        settle-Keeps heap heap' r ref c (try_send c.send bytes) b (rw (found, push) at e) ne
  ]

  module _ (others : ℕ → List (Connection W) → List (Connection W)) where
    -- If one of the connections that a message is for is closed before its turn comes, the loop
    -- panics, whatever the other goroutines do that leaves that connection closed.
    pub push_all-Closed :
        (heap : List (Connection W)) (refs : List ℕ) (ref n : ℕ)
        → ((r : ℕ) (heap : List (Connection W)) → Closed heap ref → Closed (others r heap) ref)
        → Closed heap ref
        → Any (λ r. r ≡ ref) refs
        → push_all others bytes heap refs n ≡ none
    unfolding push_all Closed
    push_all-Closed heap [] ref n keeps c h = absurd h
    push_all-Closed heap (r ∷ refs) ref n keeps c h = elim (Bool-cases (r == ref)) [
      | inl same ↦ rw (
        push-Closed (others r heap) r (rw (← (==_iff r ref).0 same) at (keeps r heap c)),
        push_all,
      )
      | inr other ↦ after_push (push (others r heap) r bytes) refl (λ b heap1 e.
          push_all-Closed heap1 refs ref (count b n) keeps (kept b heap1 e other) (tail h other))
    ]
      where
        apart : (r == ref) ≡ false → r ≢ ref
        apart other same = cc (other, (==_iff r ref).1 same)

        kept :
            (b : Bool) (heap1 : List (Connection W))
            → push (others r heap) r bytes ≡ some (b, heap1)
            → (r == ref) ≡ false
            → Closed heap1 ref
        kept b heap1 e other =
            let (d, found, shut) = keeps r heap c in
            (d, push-Keeps (others r heap) heap1 r ref b e (apart other) ∙ found, shut)

        tail : Any (λ r. r ≡ ref) (r ∷ refs) → (r == ref) ≡ false → Any (λ r. r ≡ ref) refs
        tail (inl same) other = absurd (apart other same)
        tail (inr i) other = i

        after_push :
            (o : Option (Bool × List (Connection W)))
            → push (others r heap) r bytes ≡ o
            → ((b : Bool) (heap1 : List (Connection W))
                → push (others r heap) r bytes ≡ some (b, heap1)
                → push_all others bytes heap1 refs (count b n) ≡ none)
            → push_all others bytes heap (r ∷ refs) n ≡ none
        after_push none e ih = rw (e, push_all)
        after_push (some (b, heap1)) e ih = rw (e, push_all) (ih b heap1 e)

  push_all-Open :
      (heap : List (Connection W)) (refs : List ℕ) (n : ℕ)
      → Unique refs
      → ((ref : ℕ) → Any (λ r. r ≡ ref) refs → Open heap ref)
      → (n' : ℕ) × (heap' : List (Connection W)) × (push_all (λ r h. h) bytes heap refs n
          ≡ some (n', heap'))
        × ((ref : ℕ) (c : Connection W)
            → Any (λ r. r ≡ ref) refs
            → get_elem? heap ref ≡ some c
            → get_elem? heap' ref ≡ some (delivered bytes c))
        × ((j : ℕ) → (Any (λ r. r ≡ j) refs → ⊥) → get_elem? heap' j ≡ get_elem? heap j)
  unfolding push_all Open
  push_all-Open heap [] n u open_ = (n, heap, refl, λ ref c h. absurd h, λ j h. refl)
  push_all-Open heap (r ∷ refs) n u open_ =
      let (c, found, live) = open_ r (inl refl) in
      let (b, heap1, e, self, rest) = push-Open heap r c found live in
      let (n', heap', e', hit, miss) = push_all-Open heap1 refs (count b n) u.1 (λ ref h.
        let (c', found', live') = open_ ref (inr h) in
        (c', rest ref (apart ref h) ∙ found', live')) in
      (
        n',
        heap',
        rw (e, push_all) e',
        λ ref c' h k. elim h [
          | inl same ↦
              let agree : c ≡ c' = cc (found, k, same) in rw (← same, ← agree) (miss r u.0 ∙ self)
          | inr i ↦ hit ref c' i (rest ref (apart ref i) ∙ k)
        ],
        λ j h. miss j (λ i. h (inr i)) ∙ rest j (λ i. h (inl i)),
      )
    where
      apart : (ref : ℕ) → Any (λ x. x ≡ ref) refs → r ≢ ref
      apart ref h e = u.0 (rw e h)

Live-Open :
    {W : Type 0} (heap : List (Connection W)) (u : String) (ref : ℕ)
    → Live heap u ref
    → Open heap ref
unfolding Open
Live-Open heap u ref l = (l.connection, l.found, l.sendable)

module _ {S W P : Type 0} (codec : Codec P) where
  push_to_guild-ok :
      (others : ℕ → List (Connection W) → List (Connection W)) (m : Manager S W) (msg : WsMessage)
      (out : Bytes) (refs : List ℕ) (n : ℕ) (heap' : List (Connection W))
      → codec.marshal msg ≡ ok out
      → push_all others out m.heap refs 0 ≡ some (n, heap')
      → push_to_guild codec others m msg refs ≡ some (ok n, heap')
  unfolding push_to_guild push_serialized push_all
  push_to_guild-ok others m msg out [] n heap' e h = ground (arith, h)
  push_to_guild-ok others m msg out (ref ∷ refs) n heap' e h = rw (e, push_serialized, h)

  -- While no other goroutine interferes, a message for a guild is pushed to every connection of that
  -- guild that the map has, unless its buffer is full, and to no other.
  pub handle_downstream_message-delivered :
      (m : Manager S W) (payload out : Bytes) (msg : WsMessage) (u : String) (ref : ℕ)
      (c : Connection W)
      → IsWellFormed m
      → codec.unmarshal payload ≡ (ok tt, msg)
      → codec.marshal msg ≡ ok out
      → get_connection m u ≡ some ref
      → get_elem? m.heap ref ≡ some c
      → (n : ℕ) × (heap' : List (Connection W)) × (handle_downstream_message codec
            (λ r heap. heap)
            m
            payload
          ≡ some (ok n, heap'))
        × (get_elem? heap' ref
            ≡ some (if str_eq c.guild_id msg.guild_id then delivered out c else c))
  unfolding handle_downstream_message get_connection OfGuild
  handle_downstream_message-delivered m payload out msg u ref c v e f g h =
      let refs : List ℕ = get_connections_by_guild m msg.guild_id in
      let (n, heap', pushed, hit, miss) =
        push_all-Open out m.heap refs 0 (get_connections_by_guild-Unique m msg.guild_id v) (λ r i.
          let (w, k, of_guild) = (get_connections_by_guild_iff m msg.guild_id r v).0 i in
          Live-Open m.heap w r (is_live w r k)) in
      (
        n,
        heap',
        rw (e, deliver) (push_to_guild-ok (λ r heap. heap) m msg out refs n heap' f pushed),
        elim (collected_or_not m msg.guild_id u ref c v g h) [
          | inl (same, i) ↦ rw same (hit ref c i h)
          | inr (other, not_in) ↦ rw other (miss ref not_in ∙ h)
        ],
      )
    where
      is_live : (w : String) (r : ℕ) → get_connection m w ≡ some r → Live m.heap w r
      is_live w r k = v.live w r k
