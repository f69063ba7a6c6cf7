-- ===== src/Snowflake/Valid.antt =====
-- What NewGenerator promises of a generator, and what the era of its clock is.
use chat_room.Prelude.{
  ℕ, ◌+◌, ◌-◌, ◌^◌, ◌≤◌, ◌<◌, ◌≡◌, refl, Bool, true, arith, ◌==◌, ok, zero, suc, ◌&&◌, false, ◌⊎◌,
  sym, inl, inr,
}
use chat_room.Words.{mask64}
use chat_room.Words.Masks.{two-pow-le, two-pow-pos}
use chat_room.Snowflake.{
  Config, Generator, add8, with_defaults, unchecked, check_ids, allocate, new_generator,
  out_of_mask,
}

pub record IsValid (g : Generator) : Type 0 where
  pub fits : g.datacenter_bits + g.worker_id_bits + g.sequence_bits ≤ 22
  pub worker_id_shift : g.worker_id_shift ≡ g.sequence_bits
  pub datacenter_id_shift : g.datacenter_id_shift ≡ g.worker_id_bits + g.sequence_bits
  pub timestamp_shift : g.timestamp_shift ≡ g.datacenter_bits + (g.worker_id_bits + g.sequence_bits)
  pub sequence_mask : g.sequence_mask ≡ 2 ^ g.sequence_bits - 1
  pub worker_id_mask : g.worker_id_mask ≡ 2 ^ g.worker_id_bits - 1
  pub datacenter_id_mask : g.datacenter_id_mask ≡ 2 ^ g.datacenter_bits - 1
  pub worker_id : g.worker_id < 2 ^ g.worker_id_bits
  pub datacenter_id : g.datacenter_id < 2 ^ g.datacenter_bits
  pub sequence : g.sequence < 2 ^ g.sequence_bits

-- The fields of a Config are words: three int64 and three uint8.
pub record IsConfig (c : Config) : Type 0 where
  pub epoch : c.epoch < 2 ^ 64
  pub datacenter_id : c.datacenter_id < 2 ^ 64
  pub worker_id : c.worker_id < 2 ^ 64
  pub worker_id_bits : c.worker_id_bits < 2 ^ 8
  pub sequence_bits : c.sequence_bits < 2 ^ 8
  pub datacenter_bits : c.datacenter_bits < 2 ^ 8

-- Over the few widths that pass the check, every mask by evaluation.
all_masks : ℕ → Bool
all_masks n = elim n [ zero ↦ true | suc (k → ih) ↦ mask64 k == 2 ^ k - 1 && ih ]

all_masks_sound : (n k : ℕ) → all_masks n ≡ true → k < n → mask64 k ≡ 2 ^ k - 1
unfolding all_masks
all_masks_sound zero k h lt = elim lt [ ]
all_masks_sound (suc n) k h lt = ground (arith, all_masks_sound n k)

all_masks_22 : all_masks 23 ≡ true
unfolding all_masks
all_masks_22 = refl

pub mask64-eq : (k : ℕ) → k ≤ 22 → mask64 k ≡ 2 ^ k - 1
mask64-eq k h = all_masks_sound 23 k all_masks_22 (omega arith)

-- The signed test against a mask of at most 22 ones leaves the numbers below 2 ^ k.
in_mask : (id k : ℕ) → id < 2 ^ 64 → k ≤ 22 → out_of_mask id (2 ^ k - 1) ≡ false → id < 2 ^ k
in_mask id k h fits e = ground (arith, two-pow-le k 22, two-pow-pos k)

-- Both ways in which the last checks pass, without and with a datacenter field.
check_ids-cases :
    (g h : Generator)
    → check_ids g ≡ ok h
    → (out_of_mask g.worker_id g.worker_id_mask ≡ false)
      × (((g.datacenter_bits ≡ 0) × (h ≡ record g { datacenter_id = 0 }))
          ⊎ ((out_of_mask g.datacenter_id g.datacenter_id_mask ≡ false) × (h ≡ g)))
unfolding check_ids
check_ids-cases g h e = ground arith

module _ (c : Config) (w : IsConfig c)
    (fits : c.datacenter_bits + c.worker_id_bits + c.sequence_bits ≤ 22) where
  filled-IsValid :
      (dc : ℕ)
      → c.worker_id < 2 ^ c.worker_id_bits
      → dc < 2 ^ c.datacenter_bits
      → IsValid (record (unchecked c) { datacenter_id = dc })
  unfolding unchecked
  filled-IsValid dc worker datacenter = record {
    fits = fits;
    worker_id_shift = refl;
    datacenter_id_shift = omega arith;
    timestamp_shift = omega arith;
    sequence_mask = mask64-eq c.sequence_bits (omega arith);
    worker_id_mask = mask64-eq c.worker_id_bits (omega arith);
    datacenter_id_mask = mask64-eq c.datacenter_bits (omega arith);
    worker_id = worker;
    datacenter_id = datacenter;
    sequence = two-pow-pos c.sequence_bits;
  }

  unmask : (id k : ℕ) → id < 2 ^ 64 → k ≤ 22 → out_of_mask id (mask64 k) ≡ false → id < 2 ^ k
  unmask id k small h e = in_mask id k small h (rw (sym (mask64-eq k h)) e)

  unmask_datacenter :
      (g : Generator)
      → c.worker_id < 2 ^ c.worker_id_bits
      → ((c.datacenter_bits ≡ 0) × (g ≡ record (unchecked c) { datacenter_id = 0 }))
        ⊎ ((out_of_mask c.datacenter_id (mask64 c.datacenter_bits) ≡ false) × (g ≡ unchecked c))
      → IsValid g
  unfolding unchecked
  unmask_datacenter g worker (inl (none_set, e)) =
      rw e (filled-IsValid 0 worker (two-pow-pos c.datacenter_bits))
  unmask_datacenter g worker (inr (in_range, e)) = rw e (
      filled-IsValid c.datacenter_id worker
        (unmask c.datacenter_id c.datacenter_bits w.datacenter_id (omega arith) in_range))

  check_ids-IsValid : (g : Generator) → check_ids (unchecked c) ≡ ok g → IsValid g
  unfolding unchecked
  check_ids-IsValid g e =
      let cases = check_ids-cases (unchecked c) g e in
      unmask_datacenter g (unmask c.worker_id c.worker_id_bits w.worker_id (omega arith) cases.0)
        cases.1

allocate-IsValid :
    (c : Config) (g : Generator)
    → IsConfig c
    → c.datacenter_bits + c.worker_id_bits + c.sequence_bits < 2 ^ 8
    → allocate c ≡ ok g
    → IsValid g
unfolding allocate
allocate-IsValid c g w small e =
    let cases = accepted c g e in check_ids-IsValid c w (omega (arith, cases.0)) g cases.1
  where
    accepted :
        (c : Config) (g : Generator)
        → allocate c ≡ ok g
        → (add8 (add8 c.datacenter_bits c.worker_id_bits) c.sequence_bits ≤ 22)
          × (check_ids (unchecked c) ≡ ok g)
    accepted c g e = ground arith

-- The widths that NewGenerator works with, after the defaults.
unfoldable pub total_bits : Config → ℕ
unfolding with_defaults
total_bits c = let c' = with_defaults c in c'.datacenter_bits + c'.worker_id_bits + c'.sequence_bits

with_defaults-IsConfig : (c : Config) → IsConfig c → IsConfig (with_defaults c)
unfolding with_defaults
with_defaults-IsConfig c w = ground arith

-- NewGenerator returns a valid generator, whatever the Config, as long as the sum of the widths
-- fits the uint8 that it is computed in.
pub new_generator-IsValid :
    (c : Config) (g : Generator)
    → IsConfig c
    → total_bits c < 2 ^ 8
    → new_generator c ≡ ok g
    → IsValid g
unfolding new_generator total_bits
new_generator-IsValid c g w small e =
    allocate-IsValid (with_defaults c) g (with_defaults-IsConfig c w) small e
