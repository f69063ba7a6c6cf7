-- ===== src/Numbers/Power.antt =====
-- QucikPow against the power that it stands for.
use mathlib.Core.WellFounded.{Acc}
use native.Mathlib.Nat
use native.Mathlib.Nat.{mod-eq_of_lt, mod-mod, mod-lt}
use mathlib.Core.Bool.{true, false}
use chat_room.Prelude.{
  ℕ, zero, suc, ◌+◌, ◌*◌, ◌/◌, ◌%◌, ◌^◌, ◌<◌, ◌≤◌, ◌≡◌, refl, ap, ◌∙◌, sym, Bool-cases, ◌⊎◌, inl,
  inr, ◌==◌, if◌then◌else◌, none, some, arith,
}
use chat_room.Prelude.Order.{lt_wf}
use chat_room.Numbers.{times, pow_loop, qucik_pow}

mod-mul_left : (a b m : ℕ) → a % m * b % m ≡ a * b % m
mod-mul_left a b m =
    sym (Nat.add-mul-mod_self_left (a % m * b) m (a / m * b)) ∙ ap (λ t. t % m) split
  where
    split : a % m * b + m * (a / m * b) ≡ a * b
    split = rw (← Nat.mul_assoc m (a / m) b, ← Nat.add-mul, Nat.mod-add-div)

mod-mul_right : (a b m : ℕ) → a * (b % m) % m ≡ a * b % m
mod-mul_right a b m = rw (Nat.mul_comm a (b % m), Nat.mul_comm a b) (mod-mul_left b a m)

pow-mod : (a m k : ℕ) → (a % m) ^ k % m ≡ a ^ k % m
pow-mod a m zero = rw (Nat.pow-zero, Nat.pow-zero)
pow-mod a m (suc k) = rw (
  Nat.pow-suc,
  Nat.pow-suc,
  mod-mul_right ((a % m) ^ k) a m,
  ← mod-mul_left ((a % m) ^ k) a m,
  pow-mod a m k,
  mod-mul_left (a ^ k) a m,
)

pow-double : (x n : ℕ) → (x * x) ^ n ≡ x ^ (n + n)
pow-double x zero = rw (Nat.pow-zero, zero_twice, Nat.pow-zero)
  where
    zero_twice : zero + zero ≡ zero
    zero_twice = omega arith
pow-double x (suc n) =
    rw (twice, Nat.pow-suc, Nat.pow-suc, Nat.pow-suc, pow-double x n, Nat.mul_assoc)
  where
    twice : suc n + suc n ≡ suc (suc (n + n))
    twice = omega arith

mul-pow-mod : (c y m k : ℕ) → c * (y % m) ^ k % m ≡ c * y ^ k % m
mul-pow-mod c y m k =
    sym (mod-mul_right c ((y % m) ^ k) m)
    ∙ (ap (λ t. c * t % m) (pow-mod y m k) ∙ mod-mul_right c (y ^ k) m)

-- One round, without overflow.
half : ℕ → ℕ → ℕ → ℕ → ℕ
half m res x n = (if n % 2 == 1 then res * x % m else res) * (x * x % m) ^ (n / 2) % m

half-pow : (m res x n : ℕ) → half m res x n ≡ res * x ^ n % m
unfolding half
half-pow m res x n = elim (Bool-cases (n % 2 == 1)) [
  | inl e ↦ rw (
    e,
    mod-mul_left (res * x) ((x * x % m) ^ (n / 2)) m,
    mul-pow-mod (res * x) (x * x) m (n / 2),
    pow-double x (n / 2),
    Nat.mul_assoc,
    ← Nat.pow-succ' x (n / 2 + n / 2),
    odd e,
  )
  | inr e ↦ rw (e, mul-pow-mod res (x * x) m (n / 2), pow-double x (n / 2), even e)
]
  where
    odd : n % 2 == 1 ≡ true → suc (n / 2 + n / 2) ≡ n
    odd e = ground arith

    even : n % 2 == 1 ≡ false → n / 2 + n / 2 ≡ n
    even e = ground arith

times_small : (w m x y : ℕ) → x * y < 2 ^ w → times w m x y ≡ x * y % m
unfolding times
times_small w m x y h = rw (Nat.mod-eq_of_lt h)

module _ (w m : ℕ) (pos : 0 < m) (fits : m * m ≤ 2 ^ w) where
  -- The answer of the loop is the power up to multiples of the modulus.
  loop-pow :
      (res x n : ℕ) (acc : Acc ◌<◌ n)
      → res ≤ m
      → x * x < 2 ^ w
      → res * x < 2 ^ w
      → pow_loop w m res x n acc % m ≡ res * x ^ n % m
  unfolding pow_loop
  loop-pow res x zero acc small sq pr = rw (Nat.pow-zero, Nat.mul-one)
  loop-pow res x (suc n) (Acc.intro _ smaller) small sq pr =
      rw (pow_loop, times_small w m x x sq, times_small w m res x pr)
        (loop-pow (if suc n % 2 == 1 then res * x % m else res) (x * x % m) (suc n / 2)
            (smaller (suc n / 2) (omega arith)) res_small
            (small_product (x * x % m) (omega (arith, below)))
            (small_product (if suc n % 2 == 1 then res * x % m else res) res_small)
          ∙ unfold half in half-pow m res x (suc n))
    where
      below : x * x % m < m
      below = Nat.mod-lt (x * x) pos

      small_product : (a : ℕ) → a ≤ m → a * (x * x % m) < 2 ^ w
      small_product a h =
          omega (arith, Nat.mul-le-mul_right (x * x % m) h, Nat.mul-lt-mul_of_pos_left below pos)

      res_small : (if suc n % 2 == 1 then res * x % m else res) ≤ m
      res_small = ground (arith, Nat.mod-lt (res * x) pos)

  -- After a round, or from a start below the modulus, the answer is below the modulus.
  loop-lt : (res x n : ℕ) (acc : Acc ◌<◌ n) → (0 < n) ⊎ (res < m) → pow_loop w m res x n acc < m
  unfolding pow_loop times
  loop-lt res x zero acc (inl h) = absurd (omega arith)
  loop-lt res x zero acc (inr h) = h
  loop-lt res x (suc n) (Acc.intro _ smaller) h =
      loop-lt (if suc n % 2 == 1 then times w m res x else res) (times w m x x) (suc n / 2)
        (smaller (suc n / 2) (omega arith)) (later (Bool-cases (suc n % 2 == 1)))
    where
      later :
          ((suc n % 2 == 1) ≡ true) ⊎ ((suc n % 2 == 1) ≡ false)
          → (0 < suc n / 2) ⊎ ((if suc n % 2 == 1 then times w m res x else res) < m)
      later (inl e) = inr (rw e (Nat.mod-lt (res * x % 2 ^ w) pos))
      later (inr e) = inl (ground arith)

-- Where the square of the modulus is at most 2 ^ w and that of the number is less, QucikPow computes
-- the power of the number by the modulus: it is 1 for the exponent 0, also where the modulus is 0 or
-- 1, and for any other exponent a modulus of 0 panics, and another leaves the power's remainder.
pub qucik_pow-pow :
    (w x n m : ℕ)
    → m * m ≤ 2 ^ w
    → x * x < 2 ^ w
    → qucik_pow w x n m ≡ (if n == 0 then some 1 else if m == 0 then none else some (x ^ n % m))
unfolding qucik_pow
qucik_pow-pow w x zero zero fits sq = refl
qucik_pow-pow w x zero (suc m) fits sq = refl
qucik_pow-pow w x (suc n) zero fits sq = ground arith
qucik_pow-pow w x (suc n) (suc m) fits sq =
    ap some (
      sym (
        Nat.mod-eq_of_lt
          (loop-lt w (suc m) pos fits 1 x (suc n) (lt_wf.apply (suc n)) (inl (omega arith))))
      ∙ (loop-pow w (suc m) pos fits 1 x (suc n) (lt_wf.apply (suc n)) (omega arith) sq
            (omega (arith, self))
          ∙ rw (Nat.one-mul) refl))
    ∙ nonzero
  where
    nonzero :
        some (x ^ suc n % suc m)
        ≡ (if suc n == 0 then some 1 else if suc m == 0 then none else some (x ^ suc n % suc m))
    nonzero = ground arith

    pos : 0 < suc m
    pos = omega arith

    self : x ≤ x * x
    self = grind arith
