-- ===== src/Snowflake/Unique.antt =====
-- Two generators, and the sum of the widths that NewGenerator computes in a uint8.
use Prim.Native.Nat.{bit_and}
use chat_room.Prelude.{ℕ, ◌≡◌, ◌≢◌, ap, ◌∙◌, sym, none, [], ◌∷◌, arith, true, Any, inl, inr}
use chat_room.Words.{slt, add64, sar64}
use chat_room.Snowflake.{
  Generator, Clock, compose, parse, next_id, wait_next_millis, next_id_at, same_millisecond,
  issue_later,
}
use chat_room.Snowflake.Valid.{IsValid}
use chat_room.Snowflake.Fields.{InEra, parts, parse-compose}

-- The epoch and the widths that the generators of one cluster share.
pub record SameWidths (g h : Generator) : Type 0 where
  pub epoch : g.epoch ≡ h.epoch
  pub worker_id_bits : g.worker_id_bits ≡ h.worker_id_bits
  pub sequence_bits : g.sequence_bits ≡ h.sequence_bits
  pub datacenter_bits : g.datacenter_bits ≡ h.datacenter_bits

parse-SameWidths :
    (g h : Generator) (id : ℕ) → IsValid g → IsValid h → SameWidths g h → parse g id ≡ parse h id
unfolding parse
parse-SameWidths g h id v w same = λ i. record {
  timestamp = add64 (sar64 id (timestamp_shift i)) (same.epoch i);
  datacenter_id = bit_and (sar64 id (datacenter_id_shift i)) (datacenter_id_mask i);
  worker_id = bit_and (sar64 id (worker_id_shift i)) (worker_id_mask i);
  sequence = bit_and id (sequence_mask i);
}
  where
    worker_id_shift : g.worker_id_shift ≡ h.worker_id_shift
    worker_id_shift = omega arith

    datacenter_id_shift : g.datacenter_id_shift ≡ h.datacenter_id_shift
    datacenter_id_shift = omega arith

    timestamp_shift : g.timestamp_shift ≡ h.timestamp_shift
    timestamp_shift = omega arith

    sequence_mask : g.sequence_mask ≡ h.sequence_mask
    sequence_mask = rw (v.sequence_mask, w.sequence_mask, same.sequence_bits)

    worker_id_mask : g.worker_id_mask ≡ h.worker_id_mask
    worker_id_mask = rw (v.worker_id_mask, w.worker_id_mask, same.worker_id_bits)

    datacenter_id_mask : g.datacenter_id_mask ≡ h.datacenter_id_mask
    datacenter_id_mask = rw (v.datacenter_id_mask, w.datacenter_id_mask, same.datacenter_bits)

-- Two valid generators with the same epoch and widths, in their era, compose equal identifiers only
-- from equal timestamps, datacenters, workers and sequence numbers.
pub compose_inj :
    (g h : Generator)
    → IsValid g
    → IsValid h
    → SameWidths g h
    → InEra g.epoch g.last_timestamp
    → InEra h.epoch h.last_timestamp
    → compose g ≡ compose h
    → parts g ≡ parts h
compose_inj g h v w same eg eh e =
    sym (parse-compose g v eg).1
    ∙ (parse-SameWidths g h (compose g) v w same ∙ (ap (parse h) e ∙ (parse-compose h w eh).1))

wait_next_millis-ne-none :
    (last : ℕ) (clock : Clock)
    → Any (λ t. slt last t ≡ true) clock
    → wait_next_millis last clock ≢ none
unfolding wait_next_millis
wait_next_millis-ne-none last [] a = absurd a
wait_next_millis-ne-none last (t ∷ clock) (inl h) = rw (h, wait_next_millis) (ground arith)
wait_next_millis-ne-none last (t ∷ clock) (inr h) =
    ground (arith, wait_next_millis-ne-none last clock h)

-- NextID returns as soon as the clock has a reading to start with and, for the case in which the
-- sequence overflows, some later one past the last timestamp.
pub next_id-ne-none :
    (g : Generator) (now : ℕ) (clock : Clock)
    → Any (λ t. slt g.last_timestamp t ≡ true) clock
    → next_id g (now ∷ clock) ≢ none
unfolding next_id next_id_at same_millisecond issue_later
next_id-ne-none g now clock a = ground (arith, wait_next_millis-ne-none g.last_timestamp clock a)
