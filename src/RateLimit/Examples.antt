-- ===== src/RateLimit/Examples.antt =====
-- A limiter over one counter for each key.
use chat_room.Prelude.{ℕ, ◌+◌, ◌-◌, ◌≡◌, refl, true, false, some, [], ◌∷◌, ok, arith}
use Prim.Native.Nat.{min}
use chat_room.Prelude.Int.{ℤ, pos, negsuc}
use chat_room.RateLimit.{
  Counters, TokenBucketLimiter, minute, allow, allow_n, bucket_time, get_bucket_key, divide,
}
use chat_room.RateLimit.Window.{Documented, Answers, trues, allow-Answers}

abbrev size : ℤ → ℕ
size (pos n) = n
size (negsuc n) = 0

-- A server with one counter for all keys.
abbrev single : Counters ℕ (Unit {0})
single = record {
  incr_by_and_expire = λ s k n ttl. (ok (pos (s + size n)), s + size n);
  get = λ s k. (ok (some (pos s)), s);
  del = λ s ks. (ok tt, 0);
}

single-Documented : Documented single
single-Documented = record {
  counter = λ s k. s;
  counts = λ s s' k n ttl r e. (ground (arith, e), ground (arith, e));
}

abbrev strict : TokenBucketLimiter
strict = record { fallback = false }

allow-Answers_example : trues (true ∷ true ∷ false ∷ []) ≡ min 3 (2 - 0)
unfolding bucket_time divide Answers allow allow_n get_bucket_key single-Documented
allow-Answers_example =
    allow-Answers single strict single-Documented "ann" 2 minute 100 (6000 ∷ 6001 ∷ 6059 ∷ [])
      (true ∷ true ∷ false ∷ []) 0 refl (refl, (refl, (refl, tt)))
      (1, refl, (2, refl, (3, refl, tt)))
