-- ===== src/Snowflake/Fields.antt =====
-- The bit fields of an identifier: `compose` as arithmetic, and `parse` as its inverse.
use Prim.Native.Nat.{bit_or, bit_and}
use native.Mathlib.Nat.{mul-add-mod_self_right, mod-eq_of_lt}
use chat_room.Prelude.{ℕ, ◌+◌, ◌-◌, ◌*◌, ◌/◌, ◌%◌, ◌^◌, ◌≤◌, ◌<◌, ◌≡◌, ap, ◌∙◌, arith}
use chat_room.Words.{shl64, sub64, sar64, add64}
use chat_room.Words.Masks.{two-pow-pos, two-pow-le, two-pow-add, bit_and-mask, bit_or-sum}
use chat_room.Snowflake.{Generator, Parts, compose, parse}
use chat_room.Snowflake.Valid.{IsValid}

-- The 41 bits of milliseconds that the layout has room for, from the generator's epoch on.
pub record InEra (epoch time : ℕ) : Type 0 where
  pub epoch_small : epoch < 2 ^ 62
  pub begun : epoch ≤ time
  pub ended : time < epoch + 2 ^ 41

-- q fields above one of k bits
abbrev pub above : ℕ → ℕ → ℕ → ℕ
above q k r = q * 2 ^ k + r

unfoldable pub layout : Generator → ℕ
layout g =
    above
      (above (above (g.last_timestamp - g.epoch) g.datacenter_bits g.datacenter_id) g.worker_id_bits
        g.worker_id)
      g.sequence_bits g.sequence

shifted-lt : (q k m : ℕ) → q < 2 ^ m → q * 2 ^ k < 2 ^ (m + k)
shifted-lt q k m h = rw (two-pow-add m k) (scaled (2 ^ k) (2 ^ m) (two-pow-pos k) h)
  where
    scaled : (p n : ℕ) → 0 < p → q < n → q * p < n * p
    scaled p n pos h = grind arith

above-lt : (q k r m : ℕ) → q < 2 ^ m → r < 2 ^ k → above q k r < 2 ^ (m + k)
above-lt q k r m hq hr = rw (two-pow-add m k) (scaled (2 ^ k) (2 ^ m) hr hq)
  where
    scaled : (p n : ℕ) → r < p → q < n → q * p + r < n * p
    scaled p n small h = grind arith

above-above : (q k r l : ℕ) → above q k r * 2 ^ l ≡ above q (k + l) (r * 2 ^ l)
above-above q k r l = rw (two-pow-add k l) (omega arith)

shl64-small : (x k m : ℕ) → x < 2 ^ m → m + k ≤ 63 → shl64 x k ≡ x * 2 ^ k
shl64-small x k m h fits =
    mod-eq_of_lt (omega (arith, shifted-lt x k m h, two-pow-le (m + k) 63 fits))

-- Three `|` of shifted fields are one number in mixed radix.
pack :
    (t dc w s d k l : ℕ)
    → t < 2 ^ 41
    → dc < 2 ^ d
    → w < 2 ^ k
    → s < 2 ^ l
    → d + k + l ≤ 22
    → bit_or (bit_or (bit_or (shl64 t (d + (k + l))) (shl64 dc (k + l))) (shl64 w l)) s
      ≡ above (above (above t d dc) k w) l s
pack t dc w s d k l ht hdc hw hs fits = rw (
  shl64-small t (d + (k + l)) 41 ht (omega arith),
  shl64-small dc (k + l) d hdc (omega arith),
  shl64-small w l k hw (omega arith),
  bit_or-sum (d + (k + l)) t (dc * 2 ^ (k + l)) (shifted-lt dc (k + l) d hdc),
  ← above-above t d dc (k + l),
  bit_or-sum (k + l) (above t d dc) (w * 2 ^ l) (shifted-lt w l k hw),
  ← above-above (above t d dc) k w l,
  bit_or-sum l (above (above t d dc) k w) s hs,
)

pub compose-eq-layout :
    (g : Generator) → IsValid g → InEra g.epoch g.last_timestamp → compose g ≡ layout g
unfolding compose layout
compose-eq-layout g v era =
    rw (v.worker_id_shift, v.datacenter_id_shift, v.timestamp_shift, elapsed)
      (pack _ g.datacenter_id g.worker_id g.sequence _ _ _ (omega arith) v.datacenter_id v.worker_id
        v.sequence v.fits)
  where
    elapsed : sub64 g.last_timestamp g.epoch ≡ g.last_timestamp - g.epoch
    elapsed = omega arith

above-div : (q k r : ℕ) → r < 2 ^ k → above q k r / 2 ^ k ≡ q
above-div q k r h = quotient (2 ^ k) h
  where
    quotient : (p : ℕ) → r < p → (q * p + r) / p ≡ q
    quotient p small = grind arith

above-mod : (q k r : ℕ) → r < 2 ^ k → above q k r % 2 ^ k ≡ r
above-mod q k r h = mul-add-mod_self_right q (2 ^ k) r ∙ mod-eq_of_lt h

above_assoc : (q k r l s : ℕ) → above (above q k r) l s ≡ above q (k + l) (above r l s)
above_assoc q k r l s = omega (arith, above-above q k r l)

sar64-small : (x k : ℕ) → x < 2 ^ 63 → sar64 x k ≡ x / 2 ^ k
sar64-small x k h = ground arith

-- Each mask and shift takes its own field out of the packed number.
unpack :
    (t dc w s d k l : ℕ)
    → t < 2 ^ 41
    → dc < 2 ^ d
    → w < 2 ^ k
    → s < 2 ^ l
    → d + k + l ≤ 22
    → let id = above (above (above t d dc) k w) l s in
      (id < 2 ^ 63)
      × (id % 2 ^ l ≡ s)
      × (id / 2 ^ l % 2 ^ k ≡ w)
      × (id / 2 ^ (k + l) % 2 ^ d ≡ dc)
      × (id / 2 ^ (d + (k + l)) ≡ t)
unpack t dc w s d k l ht hdc hw hs fits = (
  omega (
    arith,
    above-lt (above (above t d dc) k w) l s (41 + d + k)
        (above-lt (above t d dc) k w (41 + d) (above-lt t d dc 41 ht hdc) hw) hs,
    two-pow-le (41 + d + k + l) 63 (omega arith),
  ),
  above-mod (above (above t d dc) k w) l s hs,
  rw (above-div (above (above t d dc) k w) l s hs) (above-mod (above t d dc) k w hw),
  rw (above_assoc (above t d dc) k w l s, above-div (above t d dc) (k + l) (above w l s) low)
      (above-mod t d dc hdc),
  rw (above_assoc (above t d dc) k w l s, above_assoc t d dc (k + l) (above w l s))
      (above-div t (d + (k + l)) (above dc (k + l) (above w l s))
        (above-lt dc (k + l) (above w l s) d hdc low)),
)
  where
    low : above w l s < 2 ^ (k + l)
    low = above-lt w l s k hw hs

-- The fields of a packed identifier, at the widths of its generator.
fields :
    (g : Generator)
    → IsValid g
    → InEra g.epoch g.last_timestamp
    → (layout g < 2 ^ 63)
      × (layout g % 2 ^ g.sequence_bits ≡ g.sequence)
      × (layout g / 2 ^ g.sequence_bits % 2 ^ g.worker_id_bits ≡ g.worker_id)
      × (layout g / 2 ^ (g.worker_id_bits + g.sequence_bits) % 2 ^ g.datacenter_bits
          ≡ g.datacenter_id)
      × (layout g / 2 ^ (g.datacenter_bits + (g.worker_id_bits + g.sequence_bits))
          ≡ g.last_timestamp - g.epoch)
unfolding layout
fields g v era =
    unpack _ g.datacenter_id g.worker_id g.sequence g.datacenter_bits g.worker_id_bits
      g.sequence_bits (omega arith) v.datacenter_id v.worker_id v.sequence v.fits

masked : (x k mask : ℕ) → mask ≡ 2 ^ k - 1 → bit_and x mask ≡ x % 2 ^ k
masked x k mask e = rw e (bit_and-mask k x)

shifted : (x k shift : ℕ) → shift ≡ k → x < 2 ^ 63 → sar64 x shift ≡ x / 2 ^ k
shifted x k shift e h = rw e (sar64-small x k h)

pub parts : Generator → Parts
parts g = record {
  timestamp = g.last_timestamp;
  datacenter_id = g.datacenter_id;
  worker_id = g.worker_id;
  sequence = g.sequence;
}

parse-layout :
    (g : Generator) → IsValid g → InEra g.epoch g.last_timestamp → parse g (layout g) ≡ parts g
unfolding parse parts
parse-layout g v era = λ i. record {
  timestamp = timestamp i;
  datacenter_id = datacenter_id i;
  worker_id = worker_id i;
  sequence = sequence i;
}
  where
    small : layout g < 2 ^ 63
    small = (fields g v era).0

    timestamp : add64 (sar64 (layout g) g.timestamp_shift) g.epoch ≡ g.last_timestamp
    timestamp =
        rw (shifted (layout g) _ _ v.timestamp_shift small, (fields g v era).4) (omega arith)

    datacenter_id :
        bit_and (sar64 (layout g) g.datacenter_id_shift) g.datacenter_id_mask ≡ g.datacenter_id
    datacenter_id =
        masked _ g.datacenter_bits _ v.datacenter_id_mask
        ∙ ap (λ (t : ℕ). t % 2 ^ g.datacenter_bits)
            (shifted (layout g) _ _ v.datacenter_id_shift small)
        ∙ (fields g v era).3

    worker_id : bit_and (sar64 (layout g) g.worker_id_shift) g.worker_id_mask ≡ g.worker_id
    worker_id =
        masked _ g.worker_id_bits _ v.worker_id_mask
        ∙ ap (λ (t : ℕ). t % 2 ^ g.worker_id_bits) (shifted (layout g) _ _ v.worker_id_shift small)
        ∙ (fields g v era).2

    sequence : bit_and (layout g) g.sequence_mask ≡ g.sequence
    sequence = masked _ g.sequence_bits _ v.sequence_mask ∙ (fields g v era).1

-- The identifier that a valid generator composes in its era is a non-negative int64, and Parse
-- returns what it was composed of: the timestamp, the two identifiers and the sequence.
pub parse-compose :
    (g : Generator)
    → IsValid g
    → InEra g.epoch g.last_timestamp
    → (compose g < 2 ^ 63) × (parse g (compose g) ≡ parts g)
parse-compose g v era = rw (compose-eq-layout g v era) ((fields g v era).0, parse-layout g v era)
