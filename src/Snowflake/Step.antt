-- ===== src/Snowflake/Step.antt =====
-- NextID step by step: what a call leaves, on every branch.
use Prim.Native.Nat.{bit_and}
use chat_room.Prelude.{
  ℕ, ◌+◌, ◌%◌, ◌^◌, ◌≤◌, ◌<◌, ◌≡◌, refl, ◌⊎◌, inl, inr, Option, none, some, [], ◌∷◌, arith, All, ok,
  err, Bool-cases, ◌==◌,
}
use chat_room.Words.{add64, slt}
use chat_room.Words.Masks.{two-pow-le, two-pow-pos, bit_and-mask}
use chat_room.Snowflake.{
  Generator, Clock, Outcome, clock_moved_backwards, compose, issue, issue_later, same_millisecond,
  next_id_at, next_id, wait_next_millis,
}
use chat_room.Snowflake.Valid.{IsValid}
use chat_room.Snowflake.Fields.{InEra}

-- The state moved on: a later millisecond, or the next sequence number in the same one.
abbrev pub Later : Generator → Generator → Type 0
Later g g' =
    (g.last_timestamp < g'.last_timestamp)
    ⊎ ((g'.last_timestamp ≡ g.last_timestamp) × (g'.sequence ≡ g.sequence + 1))

-- Only the sequence and the last timestamp changed.
abbrev pub SameSetup : Generator → Generator → Type 0
SameSetup g g' = g' ≡ record g { sequence = g'.sequence; last_timestamp = g'.last_timestamp }

pub record Issued (g : Generator) (id : ℕ) (g' : Generator) (rest : Clock) : Type 0 where
  pub composed : id ≡ compose g'
  pub setup : SameSetup g g'
  pub later : Later g g'
  pub sequence : g'.sequence < 2 ^ g.sequence_bits
  pub era : InEra g.epoch g'.last_timestamp
  pub clock : All (InEra g.epoch) rest

-- Where NextID fails, the first reading of its clock is behind the last timestamp.
abbrev pub FailsBehind : Generator → Clock → Outcome → Type 0
FailsBehind g clock none = Unit {0}
FailsBehind g clock (some (err e, g', rest)) =
    (now : ℕ) × (later : Clock) × (clock ≡ now ∷ later) × (now < g.last_timestamp)
FailsBehind g clock (some (ok id, g', rest)) = Unit {0}

-- What NextID may leave: nothing while it waits, the same generator beside the error of a clock
-- that ran back, or an issued identifier.
abbrev pub Leaves : Generator → Outcome → Type 0
Leaves g none = Unit {0}
Leaves g (some (err e, g', rest)) =
    (e ≡ clock_moved_backwards) × (g' ≡ g) × All (InEra g.epoch) rest
Leaves g (some (ok id, g', rest)) = Issued g id g' rest

module _ (g : Generator) where
  wait_next_millis-lt :
      (last : ℕ) (clock : Clock) (now : ℕ) (rest : Clock)
      → last < 2 ^ 63
      → All (InEra g.epoch) clock
      → wait_next_millis last clock ≡ some (now, rest)
      → (last < now) × InEra g.epoch now × All (InEra g.epoch) rest
  unfolding wait_next_millis
  wait_next_millis-lt last [] now rest h eras e = cc
  wait_next_millis-lt last (x ∷ xs) now rest h eras e =
      ground (arith, wait_next_millis-lt last xs now rest h eras.1)

  -- `(sequence + 1) & mask` is the next number, or 0 after the last one.
  next_sequence :
      IsValid g
      → let s = bit_and (add64 g.sequence 1) g.sequence_mask in
        (s < 2 ^ g.sequence_bits) × ((s ≡ 0) ⊎ (s ≡ g.sequence + 1))
  next_sequence v =
      rw (v.sequence_mask, bit_and-mask g.sequence_bits (add64 g.sequence 1))
        (wrapped (two-pow-le g.sequence_bits 22 (omega (arith, v.fits))))
    where
      wrapped :
          2 ^ g.sequence_bits ≤ 2 ^ 22
          → (add64 g.sequence 1 % 2 ^ g.sequence_bits < 2 ^ g.sequence_bits)
            × ((add64 g.sequence 1 % 2 ^ g.sequence_bits ≡ 0)
                ⊎ (add64 g.sequence 1 % 2 ^ g.sequence_bits ≡ g.sequence + 1))
      wrapped small = grind (arith, v.sequence)

  issue_later-Leaves :
      (seq last : ℕ) (next : Option (ℕ × Clock))
      → IsValid g
      → seq ≡ 0
      → last ≡ g.last_timestamp
      → ((now : ℕ) (rest : Clock)
          → next ≡ some (now, rest)
          → (last < now) × InEra g.epoch now × All (InEra g.epoch) rest)
      → Leaves g (issue_later (record g { sequence = seq }) next)
  unfolding issue_later issue
  issue_later-Leaves seq last none v z e h = tt
  issue_later-Leaves seq last (some (now, rest)) v z e h = record {
    composed = refl;
    setup = refl;
    later = inl (omega (arith, (h now rest refl).0));
    sequence = omega (arith, two-pow-pos g.sequence_bits);
    era = (h now rest refl).1;
    clock = (h now rest refl).2;
  }

  same_millisecond-Leaves :
      (now : ℕ) (clock : Clock)
      → IsValid g
      → InEra g.epoch now
      → now ≡ g.last_timestamp
      → All (InEra g.epoch) clock
      → Leaves g (same_millisecond g now clock)
  unfolding same_millisecond
  same_millisecond-Leaves now clock v era e eras =
      elim (Bool-cases (bit_and (add64 g.sequence 1) g.sequence_mask == 0)) [
        | inl wrapped ↦
            rw (wrapped, same_millisecond)
              (issue_later-Leaves _ g.last_timestamp _ v (ground arith) refl
                (λ t r. wait_next_millis-lt g.last_timestamp clock t r (omega arith) eras))
        | inr room ↦
            rw (room, same_millisecond)
              (record {
                composed = refl;
                setup = refl;
                later = inr (e, ground (arith, next_sequence v));
                sequence = (next_sequence v).0;
                era = era;
                clock = eras;
              })
      ]

  next_id_at-Leaves :
      (now : ℕ) (clock : Clock)
      → IsValid g
      → g.last_timestamp < 2 ^ 63
      → InEra g.epoch now
      → All (InEra g.epoch) clock
      → Leaves g (next_id_at g now clock)
  unfolding next_id_at
  next_id_at-Leaves now clock v h era eras = elim (Bool-cases (slt now g.last_timestamp)) [
    | inl back ↦ rw (back, next_id_at) (refl, refl, eras)
    | inr ahead ↦ elim (Bool-cases (now == g.last_timestamp)) [
      | inl same ↦
          rw (ahead, same, next_id_at) (same_millisecond-Leaves now clock v era (ground arith) eras)
      | inr fresh ↦
          rw (ahead, fresh, next_id_at)
            (record {
              composed = refl;
              setup = refl;
              later = inl (ground arith);
              sequence = two-pow-pos g.sequence_bits;
              era = era;
              clock = eras;
            })
    ]
  ]

  leaves :
      (clock : Clock)
      → IsValid g
      → g.last_timestamp < 2 ^ 63
      → All (InEra g.epoch) clock
      → Leaves g (next_id g clock)
  unfolding next_id
  leaves [] v h eras = tt
  leaves (now ∷ clock) v h eras = next_id_at-Leaves now clock v h eras.0 eras.1

  issued_FailsBehind :
      (clock : Clock) (g' : Generator) (next : Option (ℕ × Clock))
      → FailsBehind g clock (issue_later g' next)
  unfolding issue_later issue
  issued_FailsBehind clock g' none = tt
  issued_FailsBehind clock g' (some (now, rest)) = tt

  next_id_at-FailsBehind :
      (now : ℕ) (clock : Clock)
      → g.last_timestamp < 2 ^ 63
      → InEra g.epoch now
      → FailsBehind g (now ∷ clock) (next_id_at g now clock)
  unfolding next_id_at same_millisecond issue
  next_id_at-FailsBehind now clock h era = elim (Bool-cases (slt now g.last_timestamp)) [
    | inl back ↦ rw (back, next_id_at) (now, clock, refl, ground arith)
    | inr ahead ↦ elim (Bool-cases (now == g.last_timestamp)) [
      | inl same ↦ elim (Bool-cases (bit_and (add64 g.sequence 1) g.sequence_mask == 0)) [
        | inl wrapped ↦
            rw (ahead, same, wrapped, next_id_at)
              (issued_FailsBehind (now ∷ clock)
                (record g { sequence = bit_and (add64 g.sequence 1) g.sequence_mask })
                (wait_next_millis g.last_timestamp clock))
        | inr room ↦ rw (ahead, same, room, next_id_at) tt
      ]
      | inr fresh ↦ rw (ahead, fresh, next_id_at) tt
    ]
  ]

  pub next_id-Leaves :
      (clock : Clock)
      → IsValid g
      → g.last_timestamp < 2 ^ 63
      → All (InEra g.epoch) clock
      → Leaves g (next_id g clock) × FailsBehind g clock (next_id g clock)
  unfolding next_id
  next_id-Leaves [] v h eras = (tt, tt)
  next_id-Leaves (now ∷ clock) v h eras =
      (leaves (now ∷ clock) v h eras, next_id_at-FailsBehind now clock h eras.0)
