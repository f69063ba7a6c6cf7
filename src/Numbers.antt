-- ===== src/Numbers.antt =====
-- utils/math.go at an unsigned type of w bits, and Abs at int64. A division by zero panics in Go and
-- is none. Gcd and QucikPow are while loops, and recur on the accessibility of their counter.
pub mod Euclid
pub mod Power
mod Examples
use mathlib.Core.Logic.{dite}
use mathlib.Core.WellFounded.{Acc}
use native.Mathlib.Decide.{dec_lt}
use chat_room.Prelude.{
  ℕ, zero, suc, ◌+◌, ◌-◌, ◌*◌, ◌/◌, ◌%◌, ◌^◌, ◌<◌, Bool, Option, none, some, ◌==◌, if◌then◌else◌,
  arith,
}
use chat_room.Prelude.Order.{lt_wf}
use chat_room.Words.{slt, sub64}

-- Abs, on int64
pub abs64 : ℕ → ℕ
abs64 x = if slt x 0 then sub64 0 x else x

-- The loop of Gcd.
gcd_loop : (a b : ℕ) → Acc ◌<◌ b → ℕ
gcd_loop a zero w = a
gcd_loop a (suc b) (Acc.intro _ smaller) =
    gcd_loop (suc b) (a % suc b) (smaller (a % suc b) (omega arith))

unfoldable pub gcd : ℕ → ℕ → ℕ
unfolding gcd_loop lt_wf
gcd a b = gcd_loop a b (lt_wf.apply b)

-- x / y and x % y
abbrev pub divmod : ℕ → ℕ → Option (ℕ × ℕ)
divmod x zero = none
divmod x (suc y) = some (x / suc y, x % suc y)

abbrev pub quotient : Option (ℕ × ℕ) → Option ℕ
quotient none = none
quotient (some (q, r)) = some q

module _ (w : ℕ) where
  unfoldable pub lcm : ℕ → ℕ → Option ℕ
  lcm a b = quotient (divmod (a * b % 2 ^ w) (gcd a b))

  -- `res * x % mod` and `x * x % mod`, for a modulus that is not 0
  times : ℕ → ℕ → ℕ → ℕ
  times m x y = x * y % 2 ^ w % m

  -- The loop of QucikPow, for a modulus that is not 0.
  pow_loop : ℕ → ℕ → ℕ → (n : ℕ) → Acc ◌<◌ n → ℕ
  unfolding times
  pow_loop m res x zero w = res
  pow_loop m res x (suc n) (Acc.intro _ smaller) =
      pow_loop m (if suc n % 2 == 1 then times m res x else res) (times m x x) (suc n / 2)
        (smaller (suc n / 2) (omega arith))

  -- The modulus 0 is used where the loop has a round.
  unfoldable pub qucik_pow : ℕ → ℕ → ℕ → Option ℕ
  unfolding pow_loop lt_wf
  qucik_pow x zero m = some 1
  qucik_pow x (suc n) zero = none
  qucik_pow x (suc n) (suc m) = some (pow_loop (suc m) 1 x (suc n) (lt_wf.apply (suc n)))
