-- ===== src/Numbers/Examples.antt =====
-- The theorems at small words, and runs of the functions.
use Prim.Native.Nat.{◌∣◌}
use chat_room.Prelude.{◌≡◌, ◌↔◌, ◌^◌, ◌%◌, refl, none, some, arith, if◌then◌else◌, ◌==◌}
use chat_room.Numbers.{abs64, gcd, lcm, qucik_pow}
use chat_room.Numbers.Euclid.{dvd-gcd_iff}
use chat_room.Numbers.Power.{qucik_pow-pow}

dvd-gcd_iff_example : (6 ∣ gcd 84 30) ↔ ((6 ∣ 84) × (6 ∣ 30))
dvd-gcd_iff_example = dvd-gcd_iff 84 30 6

qucik_pow-pow_example :
    qucik_pow 8 3 5 13 ≡ (if 5 == 0 then some 1 else if 13 == 0 then none else some (3 ^ 5 % 13))
qucik_pow-pow_example = qucik_pow-pow 8 3 5 13 (omega arith) (omega arith)

-- The product wraps round before it is divided, although the multiple itself fits.
lcm_wraps : lcm 8 48 36 ≡ some 16
unfolding lcm gcd
lcm_wraps = refl

-- The least int64 has no absolute value.
abs_least : abs64 (2 ^ 63) ≡ 2 ^ 63
unfolding abs64
abs_least = refl
