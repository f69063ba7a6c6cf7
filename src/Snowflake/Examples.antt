-- ===== src/Snowflake/Examples.antt =====
-- Runs of the generator, and the theorems at concrete generators.
use chat_room.Prelude.{
  ℕ, ◌+◌, ◌*◌, ◌^◌, ◌<◌, ◌≡◌, ◌≢◌, refl, inl, none, some, [], ◌∷◌, arith, ok, err,
}
use chat_room.Snowflake.{
  Config, Generator, default_epoch, compose, parse, next_id, new_generator, invalid_worker_id,
  clock_moved_backwards, wait_next_millis,
}
use chat_room.Snowflake.Valid.{IsValid, new_generator-IsValid, total_bits}
use chat_room.Snowflake.Fields.{InEra, parts, parse-compose}
use chat_room.Snowflake.Order.{Ascends, generate, generate-Ascends}
use chat_room.Snowflake.Unique.{compose_inj, next_id-ne-none}
use chat_room.Snowflake.Overflow.{wide, wide_generator, wide_widths_collide}

-- Worker 5 with the default widths.
abbrev config : Config
config = record {
  epoch = 0;
  datacenter_id = 0;
  worker_id = 5;
  worker_id_bits = 0;
  sequence_bits = 0;
  datacenter_bits = 0;
}

abbrev generator : ℕ → ℕ → Generator
generator time sequence = record {
  epoch = default_epoch;
  datacenter_id = 0;
  worker_id = 5;
  worker_id_bits = 10;
  sequence_bits = 12;
  datacenter_bits = 0;
  worker_id_shift = 12;
  datacenter_id_shift = 22;
  timestamp_shift = 22;
  sequence_mask = 4095;
  worker_id_mask = 1023;
  datacenter_id_mask = 0;
  sequence = sequence;
  last_timestamp = time;
}

made : new_generator config ≡ ok (generator 0 0)
unfolding new_generator
made = refl

-- One second after the epoch.
abbrev second : ℕ
second = 1704067201000

generator-IsValid : IsValid (generator second 4095)
generator-IsValid = omega arith

second-InEra : InEra default_epoch second
second-InEra = omega arith

-- The sequence overflows, and the call waits through two readings.
overflowed :
    next_id (generator second 4095) (second ∷ second ∷ (second + 1) ∷ [])
    ≡ some (ok (1001 * 2 ^ 22 + 5 * 2 ^ 12), generator (second + 1) 0, [])
unfolding next_id compose wait_next_millis
overflowed = refl

backwards :
    next_id (generator second 7) (1704067200999 ∷ [])
    ≡ some (err clock_moved_backwards, generator second 7, [])
unfolding next_id
backwards = refl

rejected : new_generator (record config { worker_id = 1024 }) ≡ err invalid_worker_id
unfolding new_generator
rejected = refl

parse-compose_example :
    (compose (generator second 4095) < 2 ^ 63)
    × (parse (generator second 4095) (compose (generator second 4095))
        ≡ parts (generator second 4095))
parse-compose_example = parse-compose (generator second 4095) generator-IsValid second-InEra

made-IsValid : IsValid (generator 0 0)
unfolding total_bits
made-IsValid = new_generator-IsValid config (generator 0 0) (omega arith) (omega arith) made

generate-Ascends_example :
    Ascends (generate 3 (generator 0 0) (second ∷ second ∷ (second + 1) ∷ []))
generate-Ascends_example =
    generate-Ascends 3 (generator 0 0) (second ∷ second ∷ (second + 1) ∷ []) made-IsValid
      (omega arith) (omega arith)

compose_inj_example : parts (generator second 4095) ≡ parts (generator second 4095)
compose_inj_example =
    compose_inj (generator second 4095) (generator second 4095) generator-IsValid generator-IsValid
      (record { epoch = refl; worker_id_bits = refl; sequence_bits = refl; datacenter_bits = refl })
      second-InEra second-InEra refl

next_id-ne-none_example : next_id (generator second 4095) (second ∷ (second + 1) ∷ []) ≢ none
next_id-ne-none_example =
    next_id-ne-none (generator second 4095) second ((second + 1) ∷ []) (inl refl)

wide_widths_collide_example :
    (new_generator (wide 10 1) ≡ ok (wide_generator 10 1))
    × (new_generator (wide 10 2) ≡ ok (wide_generator 10 2))
    × (compose (record (wide_generator 10 1) { sequence = 0; last_timestamp = second })
        ≡ compose (record (wide_generator 10 2) { sequence = 0; last_timestamp = second }))
wide_widths_collide_example =
    wide_widths_collide 10 1 2 second 0 (omega arith) (omega arith) (omega arith) (omega arith)
