-- ===== src/Snowflake.antt =====
-- utils/snowflake/snowflake.go. Every int64 is a bit pattern below 2 ^ 64 and every uint8 a number
-- below 2 ^ 8. The clock is the list of the millisecond readings that the calls will take; the
-- mutex makes each call of NextID one step.
pub mod Valid
pub mod Step
pub mod Order
pub mod Unique
pub mod Overflow
mod Examples
pub mod Fields
use Prim.Native.Nat.{bit_and, bit_or}
use chat_room.Prelude.{
  ℕ, ◌+◌, ◌%◌, ◌^◌, Bool, ◌||◌, Option, none, some, List, [], ◌∷◌, ltb, ◌==◌, if◌then◌else◌, Result,
  ok, err,
}
use chat_room.Words.{slt, add64, sub64, shl64, sar64, mask64}

-- January 1, 2024 UTC, in milliseconds
abbrev pub default_epoch : ℕ
default_epoch = 1704067200000

abbrev pub default_worker_id_bits : ℕ
default_worker_id_bits = 10

abbrev pub default_sequence_bits : ℕ
default_sequence_bits = 12

pub data Error : Type 0 where
  invalid_worker_id invalid_datacenter_id clock_moved_backwards invalid_bit_allocation : Error

pub record Config : Type 0 where
  pub epoch : ℕ
  pub datacenter_id : ℕ
  pub worker_id : ℕ
  pub worker_id_bits : ℕ
  pub sequence_bits : ℕ
  pub datacenter_bits : ℕ

pub record Generator : Type 0 where
  pub epoch : ℕ
  pub datacenter_id : ℕ
  pub worker_id : ℕ
  pub worker_id_bits : ℕ
  pub sequence_bits : ℕ
  pub datacenter_bits : ℕ
  pub worker_id_shift : ℕ
  pub datacenter_id_shift : ℕ
  pub timestamp_shift : ℕ
  pub sequence_mask : ℕ
  pub worker_id_mask : ℕ
  pub datacenter_id_mask : ℕ
  pub sequence : ℕ
  pub last_timestamp : ℕ

-- a + b, on uint8
abbrev pub add8 : ℕ → ℕ → ℕ
add8 a b = (a + b) % 2 ^ 8

-- NewGenerator up to its first check: a zero field takes its default.
with_defaults : Config → Config
with_defaults c = record {
  epoch = if c.epoch == 0 then default_epoch else c.epoch;
  datacenter_id = c.datacenter_id;
  worker_id = c.worker_id;
  worker_id_bits = if c.worker_id_bits == 0 then default_worker_id_bits else c.worker_id_bits;
  sequence_bits = if c.sequence_bits == 0 then default_sequence_bits else c.sequence_bits;
  datacenter_bits = c.datacenter_bits;
}

-- The fields, shifts and masks that NewGenerator fills in.
unchecked : Config → Generator
unchecked c = record {
  epoch = c.epoch;
  datacenter_id = c.datacenter_id;
  worker_id = c.worker_id;
  worker_id_bits = c.worker_id_bits;
  sequence_bits = c.sequence_bits;
  datacenter_bits = c.datacenter_bits;
  worker_id_shift = c.sequence_bits;
  datacenter_id_shift = add8 c.sequence_bits c.worker_id_bits;
  timestamp_shift = add8 (add8 c.sequence_bits c.worker_id_bits) c.datacenter_bits;
  sequence_mask = mask64 c.sequence_bits;
  worker_id_mask = mask64 c.worker_id_bits;
  datacenter_id_mask = mask64 c.datacenter_bits;
  sequence = 0;
  last_timestamp = 0;
}

-- id > mask || id < 0
abbrev pub out_of_mask : ℕ → ℕ → Bool
out_of_mask id mask = slt mask id || slt id 0

-- The checks of the identifiers against the masks, at the end of NewGenerator.
check_ids : Generator → Result Error Generator
check_ids g =
    if out_of_mask g.worker_id g.worker_id_mask
    then err invalid_worker_id
    else if ltb 0 g.datacenter_bits
    then (if out_of_mask g.datacenter_id g.datacenter_id_mask
        then err invalid_datacenter_id
        else ok g)
    else ok (record g { datacenter_id = 0 })

allocate : Config → Result Error Generator
unfolding unchecked check_ids
allocate c =
    let total_bits = add8 (add8 c.datacenter_bits c.worker_id_bits) c.sequence_bits in
    if ltb 22 total_bits then err invalid_bit_allocation else check_ids (unchecked c)

pub new_generator : Config → Result Error Generator
unfolding with_defaults allocate
new_generator c = allocate (with_defaults c)

-- `none` where no reading is left: the caller still waits.
abbrev pub Clock : Type 0
Clock = List ℕ

current_timestamp : Clock → Option (ℕ × Clock)
current_timestamp [] = none
current_timestamp (now ∷ later) = some (now, later)

-- The loop of waitNextMillis, from the next reading on.
pub wait_next_millis : ℕ → Clock → Option (ℕ × Clock)
wait_next_millis last [] = none
wait_next_millis last (now ∷ later) =
    let again = wait_next_millis last later in if slt last now then some (now, later) else again

-- ((ts - epoch) << tsShift) | (dc << dcShift) | (worker << workerShift) | sequence
unfoldable pub compose : Generator → ℕ
compose g =
    bit_or
      (bit_or
        (bit_or (shl64 (sub64 g.last_timestamp g.epoch) g.timestamp_shift)
          (shl64 g.datacenter_id g.datacenter_id_shift))
        (shl64 g.worker_id g.worker_id_shift))
      g.sequence

-- What a call leaves: its result, the generator and the rest of the clock.
abbrev pub Outcome : Type 0
Outcome = Option (Result Error ℕ × Generator × Clock)

issue : Generator → Clock → Outcome
issue g clock = some (ok (compose g), g, clock)

-- The sequence has wrapped round: the identifier is issued in a later millisecond.
issue_later : Generator → Option (ℕ × Clock) → Outcome
unfolding issue
issue_later g none = none
issue_later g (some (now, clock)) = issue (record g { last_timestamp = now }) clock

same_millisecond : Generator → ℕ → Clock → Outcome
unfolding issue issue_later
same_millisecond g now clock =
    let sequence = bit_and (add64 g.sequence 1) g.sequence_mask in
    let g' = record g { sequence = sequence } in
    if sequence == 0
    then issue_later g' (wait_next_millis g.last_timestamp clock)
    else issue (record g' { last_timestamp = now }) clock

next_id_at : Generator → ℕ → Clock → Outcome
unfolding issue same_millisecond
next_id_at g now clock =
    if slt now g.last_timestamp
    then some (err clock_moved_backwards, g, clock)
    else if now == g.last_timestamp
    then same_millisecond g now clock
    else issue (record g { sequence = 0; last_timestamp = now }) clock

next_id_from : Generator → Option (ℕ × Clock) → Outcome
unfolding next_id_at
next_id_from g none = none
next_id_from g (some (now, clock)) = next_id_at g now clock

unfoldable pub next_id : Generator → Clock → Outcome
unfolding current_timestamp next_id_from
next_id g clock = next_id_from g (current_timestamp clock)

pub get_timestamp : Generator → ℕ → ℕ
get_timestamp g id = add64 (sar64 id g.timestamp_shift) g.epoch

pub get_datacenter_id : Generator → ℕ → ℕ
get_datacenter_id g id = bit_and (sar64 id g.datacenter_id_shift) g.datacenter_id_mask

pub get_worker_id : Generator → ℕ → ℕ
get_worker_id g id = bit_and (sar64 id g.worker_id_shift) g.worker_id_mask

pub get_sequence : Generator → ℕ → ℕ
get_sequence g id = bit_and id g.sequence_mask

pub record Parts : Type 0 where
  pub timestamp : ℕ
  pub datacenter_id : ℕ
  pub worker_id : ℕ
  pub sequence : ℕ

-- Parse, which repeats the expressions of the four getters.
pub parse : Generator → ℕ → Parts
parse g id = record {
  sequence = bit_and id g.sequence_mask;
  worker_id = bit_and (sar64 id g.worker_id_shift) g.worker_id_mask;
  datacenter_id = bit_and (sar64 id g.datacenter_id_shift) g.datacenter_id_mask;
  timestamp = add64 (sar64 id g.timestamp_shift) g.epoch;
}
