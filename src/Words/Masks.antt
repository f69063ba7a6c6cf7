-- ===== src/Words/Masks.antt =====
-- `&` with a mask of low ones is a remainder, and `|` of two disjoint fields is a sum.
use Prim.Native.Nat.{bit_and, bit_or, min, max, digits, bit_and-bitwise, bit_or-bitwise}
use Prim.Native.Nat.add
use native.Mathlib.Nat.{
  pow-suc, one-le-pow, mul-add-mod_self_right, mod-eq_of_lt, mod-lt, div-add-mod,
}
use chat_room.Prelude.{ℕ, zero, suc, ◌+◌, ◌-◌, ◌*◌, ◌/◌, ◌%◌, ◌^◌, ◌≤◌, ◌<◌, ◌≡◌, refl, ap, arith}

-- The digit recursion of a native operation does not depend on its fuel.
digits_any_fuel :
    (low : ℕ → ℕ) (op : ℕ → ℕ → ℕ) (n m a b : ℕ)
    → a ≤ n
    → a ≤ m
    → digits low op n a b ≡ digits low op m a b
digits_any_fuel low op zero zero a b p q = refl
digits_any_fuel low op (suc n) (suc m) zero b p q = refl
digits_any_fuel low op zero (suc m) zero b p q = refl
digits_any_fuel low op (suc n) zero zero b p q = refl
digits_any_fuel low op zero m (suc a) b p q = absurd (omega arith)
digits_any_fuel low op (suc n) zero (suc a) b p q = absurd (omega arith)
digits_any_fuel low op (suc n) (suc m) (suc a) b p q =
    ap (λ (t : ℕ). t * 2 + op (suc a % 2) (b % 2))
      (digits_any_fuel low op n m (suc a / 2) (b / 2) (omega arith) (omega arith))

or_digit : (a b : ℕ) → bit_or a b ≡ bit_or (a / 2) (b / 2) * 2 + max (a % 2) (b % 2)
or_digit zero b = omega (arith, bit_or-bitwise 0 b, bit_or-bitwise 0 (b / 2))
or_digit (suc a) b = omega (
  arith,
  bit_or-bitwise (suc a) b,
  bit_or-bitwise (suc a / 2) (b / 2),
  digits_any_fuel (λ y. y) max a (suc a / 2) (suc a / 2) (b / 2) (omega arith) (omega arith),
)

and_digit : (a b : ℕ) → bit_and a b ≡ bit_and (a / 2) (b / 2) * 2 + min (a % 2) (b % 2)
and_digit zero b = omega (arith, bit_and-bitwise 0 b, bit_and-bitwise 0 (b / 2))
and_digit (suc a) b = omega (
  arith,
  bit_and-bitwise (suc a) b,
  bit_and-bitwise (suc a / 2) (b / 2),
  digits_any_fuel (λ y. 0) min a (suc a / 2) (suc a / 2) (b / 2) (omega arith) (omega arith),
)

-- The law for a remainder by twice as much, one digit at a time.
mod_digit : (p a : ℕ) → 0 < p → a % (p * 2) ≡ a / 2 % p * 2 + a % 2
mod_digit p a h = omega (
  arith,
  ap (λ (t : ℕ). t % (p * 2)) (regroup),
  mul-add-mod_self_right (a / 2 / p) (p * 2) (a / 2 % p * 2 + a % 2),
  mod-eq_of_lt {n = a / 2 % p * 2 + a % 2} {m = p * 2} (small),
)
  where
    small : a / 2 % p * 2 + a % 2 < p * 2
    small = omega (arith, mod-lt (a / 2) h)

    regroup : a ≡ a / 2 / p * (p * 2) + (a / 2 % p * 2 + a % 2)
    regroup = omega (arith, div-add-mod (a / 2) p)

and_none : (n a : ℕ) → a ≤ n → bit_and a 0 ≡ 0
and_none n zero h = refl
and_none zero (suc a) h = absurd (omega arith)
and_none (suc n) (suc a) h =
    omega (arith, and_digit (suc a) 0, and_none n (suc a / 2) (omega arith))

or_none : (n a : ℕ) → a ≤ n → bit_or a 0 ≡ a
or_none n zero h = refl
or_none zero (suc a) h = absurd (omega arith)
or_none (suc n) (suc a) h = omega (arith, or_digit (suc a) 0, or_none n (suc a / 2) (omega arith))

pub two-pow-pos : (k : ℕ) → 0 < 2 ^ k
two-pow-pos k = one-le-pow k 2 (omega arith)

pub two-pow-add : (a b : ℕ) → 2 ^ (a + b) ≡ 2 ^ a * 2 ^ b
two-pow-add zero b = omega (arith, add.zero b, ap (λ (t : ℕ). 2 ^ t) (add.zero b))
two-pow-add (suc a) b = omega (
  arith,
  ap (λ (t : ℕ). 2 ^ t) (add.suc a b),
  pow-suc 2 (a + b),
  pow-suc 2 a,
  two-pow-add a b,
  ap (λ (t : ℕ). t * 2 ^ b) (pow-suc 2 a),
)

pub two-pow-le : (a b : ℕ) → a ≤ b → 2 ^ a ≤ 2 ^ b
two-pow-le a b h = omega (
  arith,
  two-pow-add a (b - a),
  ap (λ (t : ℕ). 2 ^ t) (rejoin),
  le-mul (2 ^ a) (2 ^ (b - a)) (two-pow-pos (b - a)),
)
  where
    rejoin : a + (b - a) ≡ b
    rejoin = omega arith

    le-mul : (x y : ℕ) → 0 < y → x ≤ x * y
    le-mul x y h = grind arith

half_mask : (k : ℕ) → (2 ^ suc k - 1) / 2 ≡ 2 ^ k - 1
half_mask k = omega (arith, pow-suc 2 k, two-pow-pos k)

-- `a & (2^k - 1)` keeps the k low bits.
pub bit_and-mask : (k a : ℕ) → bit_and a (2 ^ k - 1) ≡ a % 2 ^ k
bit_and-mask zero a = omega (arith, and_none a a)
bit_and-mask (suc k) a = omega (
  arith,
  pow-suc 2 k,
  two-pow-pos k,
  and_digit a (2 ^ suc k - 1),
  ap (λ (t : ℕ). bit_and (a / 2) t) (half_mask k),
  mod_digit (2 ^ k) a (two-pow-pos k),
  ap (λ (t : ℕ). a % t) (pow-suc 2 k),
  bit_and-mask k (a / 2),
)

-- `(q << k) | r` is a sum where r has k bits.
pub bit_or-sum : (k q r : ℕ) → r < 2 ^ k → bit_or (q * 2 ^ k) r ≡ q * 2 ^ k + r
bit_or-sum zero q r h = ground (arith, or_none (q * 1) (q * 1))
bit_or-sum (suc k) q r h = omega (
  arith,
  or_digit (q * 2 ^ suc k) r,
  double,
  ap (λ (t : ℕ). bit_or (t / 2) (r / 2)) double,
  ap (λ (t : ℕ). bit_or t (r / 2)) half,
  bit_or-sum k q (r / 2) (omega (arith, pow-suc 2 k)),
)
  where
    double : q * 2 ^ suc k ≡ q * 2 ^ k * 2
    double = omega (arith, ap (λ (t : ℕ). q * t) (pow-suc 2 k))

    half : q * 2 ^ k * 2 / 2 ≡ q * 2 ^ k
    half = omega arith
