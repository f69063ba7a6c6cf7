-- ===== src/Numbers/Euclid.antt =====
-- What Gcd and Lcm compute.
use mathlib.Core.WellFounded.{Acc}
use native.Mathlib.Nat
use Prim.Native.Nat.{◌∣◌}
use chat_room.Prelude.{ℕ, zero, suc, ◌*◌, ◌/◌, ◌%◌, ◌^◌, ◌<◌, ◌≡◌, refl, ◌↔◌, some, arith}
use chat_room.Prelude.Order.{lt_wf}
use chat_room.Numbers.{gcd_loop, gcd, lcm, divmod}

gcd_loop-dvd : (a b d : ℕ) (w : Acc ◌<◌ b) → (d ∣ gcd_loop a b w) ↔ ((d ∣ a) × (d ∣ b))
unfolding gcd_loop
gcd_loop-dvd a zero d w = (λ h. (h, Nat.dvd-zero d), λ h. h.0)
gcd_loop-dvd a (suc b) d (Acc.intro _ smaller) =
    let ih = gcd_loop-dvd (suc b) (a % suc b) d (smaller (a % suc b) (omega arith)) in
    (
      λ h. let (l, r) = ih.0 h in ((Nat.dvd-mod_iff d l).0 r, l),
      λ h. ih.1 (h.1, (Nat.dvd-mod_iff d h.1).1 h.0),
    )

-- A number divides the answer of Gcd exactly when it divides both arguments: the answer is their
-- greatest common divisor.
pub dvd-gcd_iff : (a b d : ℕ) → (d ∣ gcd a b) ↔ ((d ∣ a) × (d ∣ b))
unfolding gcd
dvd-gcd_iff a b d = gcd_loop-dvd a b d (lt_wf.apply b)

gcd_pos : (a b : ℕ) → 0 < a → 0 < gcd a b
gcd_pos a b h = Nat.pos_of_dvd_of_pos ((dvd-gcd_iff a b (gcd a b)).0 (Nat.dvd_refl (gcd a b))).0 h

divmod_pos : (x y : ℕ) → 0 < y → divmod x y ≡ some (x / y, x % y)
divmod_pos x zero h = absurd (omega arith)
divmod_pos x (suc y) h = refl

-- Where the product of the arguments does not overflow and the first is not 0, Lcm answers a number
-- that both divide, and that times their greatest common divisor is their product.
pub lcm-dvd :
    (w a b : ℕ)
    → 0 < a
    → a * b < 2 ^ w
    → (l : ℕ) × (lcm w a b ≡ some l) × (a ∣ l) × (b ∣ l) × (l * gcd a b ≡ a * b)
unfolding lcm
lcm-dvd w a b pos small =
    let (da, db) = (dvd-gcd_iff a b (gcd a b)).0 (Nat.dvd_refl (gcd a b)) in
    (
      a * b / gcd a b,
      rw (Nat.mod-eq_of_lt small, divmod_pos (a * b) (gcd a b) (gcd_pos a b pos)),
      rw (Nat.mul-div_assoc (gcd a b) a db) (Nat.dvd-mul_right a (b / gcd a b)),
      rw (Nat.mul_comm a b, Nat.mul-div_assoc (gcd a b) b da) (Nat.dvd-mul_right b (a / gcd a b)),
      Nat.div-mul_cancel (gcd a b) (Nat.dvd-mul_right_of_dvd (gcd a b) da b),
    )
