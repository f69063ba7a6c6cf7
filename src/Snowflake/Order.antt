-- ===== src/Snowflake/Order.antt =====
-- The identifiers that a generator issues, over any number of calls of NextID, and those of two
-- generators of one cluster.
use mathlib.Core.Path.{subst}
use chat_room.Prelude.{
  ℕ, zero, suc, ◌+◌, ◌*◌, ◌^◌, ◌≤◌, ◌<◌, ◌≡◌, ap, sym, ◌⊎◌, inl, inr, none, some, List, [], ◌∷◌,
  arith, All, ok, err,
}
use chat_room.Snowflake.{Generator, Clock, Outcome, compose, next_id}
use chat_room.Snowflake.Valid.{IsValid}
use chat_room.Snowflake.Fields.{InEra, above, layout, compose-eq-layout}
use chat_room.Snowflake.Step.{Issued, Leaves, next_id-Leaves}

above-lt_left : (k q q' r r' : ℕ) → q < q' → r < 2 ^ k → above q k r < above q' k r'
above-lt_left k q q' r r' h small = carry (2 ^ k) small
  where
    carry : (p : ℕ) → r < p → q * p + r < q' * p + r'
    carry p fits = grind arith

-- The valid generator that a call leaves.
Issued-IsValid :
    (g : Generator) (id : ℕ) (g' : Generator) (rest : Clock)
    → IsValid g
    → Issued g id g' rest
    → IsValid g'
Issued-IsValid g id g' rest v i = rw i.setup (record {
  fits = v.fits;
  worker_id_shift = v.worker_id_shift;
  datacenter_id_shift = v.datacenter_id_shift;
  timestamp_shift = v.timestamp_shift;
  sequence_mask = v.sequence_mask;
  worker_id_mask = v.worker_id_mask;
  datacenter_id_mask = v.datacenter_id_mask;
  worker_id = v.worker_id;
  datacenter_id = v.datacenter_id;
  sequence = i.sequence;
})

-- A later state has a greater layout, whichever field moved.
layout-lt-layout :
    (g : Generator) (time seq : ℕ)
    → IsValid g
    → g.epoch ≤ g.last_timestamp
    → (g.last_timestamp < time) ⊎ ((time ≡ g.last_timestamp) × (seq ≡ g.sequence + 1))
    → layout g < layout (record g { sequence = seq; last_timestamp = time })
unfolding layout
layout-lt-layout g time seq v begun (inl h) =
    above-lt_left g.sequence_bits _ _ g.sequence seq
      (above-lt_left g.worker_id_bits _ _ g.worker_id g.worker_id
        (above-lt_left g.datacenter_bits _ _ g.datacenter_id g.datacenter_id (omega arith)
          v.datacenter_id)
        v.worker_id)
      v.sequence
layout-lt-layout g time seq v begun (inr h) = rw (h.0, h.1) (omega arith)

Issued-InEra :
    (g : Generator) (id : ℕ) (g' : Generator) (rest : Clock)
    → Issued g id g' rest
    → InEra g'.epoch g'.last_timestamp
Issued-InEra g id g' rest i =
    subst (λ (t : ℕ). InEra t g'.last_timestamp) (sym (ap (λ (x : Generator). x.epoch) i.setup))
      i.era

compose-lt-compose :
    (g : Generator) (id : ℕ) (g' : Generator) (rest : Clock)
    → IsValid g
    → InEra g.epoch g.last_timestamp
    → Issued g id g' rest
    → compose g < compose g'
compose-lt-compose g id g' rest v era i =
    rw
      (
        compose-eq-layout g v era,
        compose-eq-layout g' (Issued-IsValid g id g' rest v i) (Issued-InEra g id g' rest i),
      )
      (subst (λ (x : Generator). layout g < layout x) (sym i.setup)
        (layout-lt-layout g g'.last_timestamp g'.sequence v era.begun i.later))

-- n calls of NextID by one caller: the identifiers that they return, up to the first that waits.
after_call : (Generator → Clock → List ℕ) → Outcome → List ℕ
after_call again none = []
after_call again (some (err e, g, rest)) = again g rest
after_call again (some (ok id, g, rest)) = id ∷ again g rest

unfoldable pub generate : ℕ → Generator → Clock → List ℕ
unfolding after_call
generate zero g clock = []
generate (suc n) g clock = after_call (generate n) (next_id g clock)

-- Every element exceeds the one before it, the first one `low`.
abbrev pub AscendsFrom : ℕ → List ℕ → Type 0
AscendsFrom low [] = Unit {0}
AscendsFrom low (x ∷ xs) = (low < x) × AscendsFrom x xs

abbrev pub Ascends : List ℕ → Type 0
Ascends [] = Unit {0}
Ascends (x ∷ xs) = AscendsFrom x xs

-- What holds of a generator between two calls.
record IsRunning (g : Generator) (clock : Clock) : Type 0 where
  valid : IsValid g
  last : g.last_timestamp < 2 ^ 63
  eras : All (InEra g.epoch) clock

Issued-IsRunning :
    (g : Generator) (id : ℕ) (g' : Generator) (rest : Clock)
    → IsValid g
    → Issued g id g' rest
    → IsRunning g' rest
Issued-IsRunning g id g' rest v i = record {
  valid = Issued-IsValid g id g' rest v i;
  last = omega (arith, i.era.epoch_small, i.era.ended);
  eras =
      subst (λ (t : ℕ). All (InEra t) rest) (sym (ap (λ (x : Generator). x.epoch) i.setup)) i.clock;
}

module _ (again : Generator → Clock → List ℕ)
    (later : (g : Generator) (rest : Clock)
      → IsRunning g rest
      → InEra g.epoch g.last_timestamp
      → AscendsFrom (compose g) (again g rest)) where
  after_call-AscendsFrom :
      (g : Generator) (o : Outcome)
      → IsValid g
      → InEra g.epoch g.last_timestamp
      → Leaves g o
      → AscendsFrom (compose g) (after_call again o)
  unfolding after_call
  after_call-AscendsFrom g none v era l = tt
  after_call-AscendsFrom g (some (err e, g', rest)) v era l =
      rw l.1 (later g rest (record { valid = v; last = omega arith; eras = l.2 }) era)
  after_call-AscendsFrom g (some (ok id, g', rest)) v era i = rw i.composed (
    compose-lt-compose g id g' rest v era i,
    later g' rest (Issued-IsRunning g id g' rest v i) (Issued-InEra g id g' rest i),
  )

generate-AscendsFrom :
    (n : ℕ) (g : Generator) (clock : Clock)
    → IsRunning g clock
    → InEra g.epoch g.last_timestamp
    → AscendsFrom (compose g) (generate n g clock)
unfolding generate
generate-AscendsFrom zero g clock r era = tt
generate-AscendsFrom (suc n) g clock r era =
    after_call-AscendsFrom (generate n) (generate-AscendsFrom n) g (next_id g clock) r.valid era
      (next_id-Leaves g clock r.valid r.last r.eras).0

after_call-Ascends :
    (again : Generator → Clock → List ℕ) (g : Generator) (o : Outcome)
    → IsValid g
    → ((g : Generator) (rest : Clock)
        → IsRunning g rest
        → InEra g.epoch g.last_timestamp
        → AscendsFrom (compose g) (again g rest))
    → ((rest : Clock) → All (InEra g.epoch) rest → Ascends (again g rest))
    → Leaves g o
    → Ascends (after_call again o)
unfolding after_call
after_call-Ascends again g none v later same l = tt
after_call-Ascends again g (some (err e, g', rest)) v later same l = rw l.1 (same rest l.2)
after_call-Ascends again g (some (ok id, g', rest)) v later same i =
    rw i.composed (later g' rest (Issued-IsRunning g id g' rest v i) (Issued-InEra g id g' rest i))

-- However many calls a valid generator serves, in whatever milliseconds of its era, fresh or not,
-- and whether the clock runs back or the sequence overflows in between, each identifier that it
-- issues exceeds all that it issued before.
pub generate-Ascends :
    (n : ℕ) (g : Generator) (clock : Clock)
    → IsValid g
    → g.last_timestamp < 2 ^ 63
    → All (InEra g.epoch) clock
    → Ascends (generate n g clock)
unfolding generate
generate-Ascends zero g clock v last eras = tt
generate-Ascends (suc n) g clock v last eras =
    after_call-Ascends (generate n) g (next_id g clock) v (generate-AscendsFrom n)
      (λ rest eras'. generate-Ascends n g rest v last eras') (next_id-Leaves g clock v last eras).0
