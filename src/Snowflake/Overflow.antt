-- ===== src/Snowflake/Overflow.antt =====
-- The sum of the widths that NewGenerator computes in a uint8.
use Prim.Native.Nat.{bit_or}
use chat_room.Prelude.{ℕ, ◌+◌, ◌-◌, ◌*◌, ◌%◌, ◌^◌, ◌≤◌, ◌<◌, ◌≡◌, ap, sym, ◌∙◌, arith, ok, false}
use chat_room.Words.{shl64, sub64, mask64}
use chat_room.Words.Masks.{two-pow-add, two-pow-le}
use chat_room.Snowflake.{
  Config, Generator, compose, new_generator, unchecked, default_epoch, out_of_mask,
}
use chat_room.Snowflake.Valid.{mask64-eq}

-- A Config without a datacenter whose two widths add up to 256.
pub wide : ℕ → ℕ → Config
wide bits worker = record {
  epoch = 0;
  datacenter_id = 0;
  worker_id = worker;
  worker_id_bits = bits;
  sequence_bits = 256 - bits;
  datacenter_bits = 0;
}

-- The generator that NewGenerator makes of it.
pub wide_generator : ℕ → ℕ → Generator
unfolding unchecked wide
wide_generator bits worker = unchecked (record (wide bits worker) { epoch = default_epoch })

shl64-zero : (x k : ℕ) → 64 ≤ k → shl64 x k ≡ 0
shl64-zero x k h = omega (
  arith,
  ap (λ (t : ℕ). x * 2 ^ t) rejoin,
  ap (λ (t : ℕ). x * t) (two-pow-add (k - 64) 64),
  mul-mod_zero (x * 2 ^ (k - 64)),
)
  where
    rejoin : k ≡ k - 64 + 64
    rejoin = omega arith

    mul-mod_zero : (y : ℕ) → y * 2 ^ 64 % 2 ^ 64 ≡ 0
    mul-mod_zero y = omega arith

worker_fits :
    (bits worker : ℕ) → bits ≤ 22 → worker < 2 ^ bits → out_of_mask worker (mask64 bits) ≡ false
worker_fits bits worker small h = rw (mask64-eq bits small) (ground (arith, two-pow-le bits 22))

new_generator-wide :
    (bits worker : ℕ)
    → 0 < bits
    → bits ≤ 22
    → worker < 2 ^ bits
    → new_generator (wide bits worker) ≡ ok (wide_generator bits worker)
unfolding new_generator wide wide_generator
new_generator-wide bits worker pos small h = ground (arith, worker_fits bits worker small h)

-- The timestamp and datacenter fields of both.
common : ℕ → ℕ → ℕ
unfolding wide_generator
common bits time =
    let g = wide_generator bits 0 in
    bit_or (shl64 (sub64 time g.epoch) g.timestamp_shift)
      (shl64 g.datacenter_id g.datacenter_id_shift)

-- The uint8 sum of the widths wraps round to 0, so NewGenerator accepts the Config although it
-- allots 256 bits. The worker is then shifted out of every identifier, and two workers in the same
-- state issue the same one.
pub wide_widths_collide :
    (bits a b time seq : ℕ)
    → 0 < bits
    → bits ≤ 22
    → a < 2 ^ bits
    → b < 2 ^ bits
    → (new_generator (wide bits a) ≡ ok (wide_generator bits a))
      × (new_generator (wide bits b) ≡ ok (wide_generator bits b))
      × (compose (record (wide_generator bits a) { sequence = seq; last_timestamp = time })
          ≡ compose (record (wide_generator bits b) { sequence = seq; last_timestamp = time }))
unfolding compose wide_generator common
wide_widths_collide bits a b time seq pos small ha hb = (
  new_generator-wide bits a pos small ha,
  new_generator-wide bits b pos small hb,
  ap (λ (t : ℕ). bit_or (bit_or (common bits time) t) seq)
      (shl64-zero a (256 - bits) (omega arith) ∙ sym (shl64-zero b (256 - bits) (omega arith))),
)
