-- ===== src/Words.antt =====
-- Go's int64 and uint64 as bit patterns below 2 ^ 64, with the operators that the sources apply to
-- them. The laws of `&` and `|` at every width are in the child module.
pub mod Masks
use Prim.Native.Nat.{bit_and, bit_or, bit_xor}
use chat_room.Prelude.{ℕ, ◌+◌, ◌-◌, ◌*◌, ◌/◌, ◌%◌, ◌^◌, Bool, ltb, if◌then◌else◌}

-- a < b, on int64
abbrev pub slt : ℕ → ℕ → Bool
slt a b = ltb ((a + 2 ^ 63) % 2 ^ 64) ((b + 2 ^ 63) % 2 ^ 64)

abbrev pub add64 : ℕ → ℕ → ℕ
add64 a b = (a + b) % 2 ^ 64

-- `-` on ℕ stops at 0, so the modulus is added first
abbrev pub sub64 : ℕ → ℕ → ℕ
sub64 a b = (a + 2 ^ 64 - b) % 2 ^ 64

-- x << k; a count of 64 or more gives 0, as in Go
abbrev pub shl64 : ℕ → ℕ → ℕ
shl64 x k = x * 2 ^ k % 2 ^ 64

-- x >> k on int64: the sign is shifted in
abbrev pub sar64 : ℕ → ℕ → ℕ
sar64 x k = if ltb x (2 ^ 63) then x / 2 ^ k else 2 ^ 64 - 1 - (2 ^ 64 - 1 - x) / 2 ^ k

-- -1
abbrev pub minus_one : ℕ
minus_one = 2 ^ 64 - 1

-- -1 ^ (-1 << bits), a mask of `bits` ones
abbrev pub mask64 : ℕ → ℕ
mask64 bits = bit_xor minus_one (shl64 minus_one bits)
