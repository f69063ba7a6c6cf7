-- ===== src/Http/Limits/Examples.antt =====
-- Three requests in one minute under a limit of two.
use Prim.Native.Nat.{min}
use chat_room.Prelude.{true, ℕ, ◌+◌, ◌-◌, ◌≡◌, refl, [], ◌∷◌, ok, some, arith}
use chat_room.Prelude.Int.{ℤ, pos, negsuc}
use chat_room.RateLimit.{Counters, TokenBucketLimiter}
use chat_room.RateLimit.Window.{Documented}
use chat_room.RateLimit.Minutes.{Works}
use chat_room.Http.{Body}
use chat_room.Http.Sample.{request}
use chat_room.Http.Limits.Counts.{serve, successes, rate_limit-successes}

abbrev size : ℤ → ℕ
size (pos n) = n
size (negsuc n) = 0

-- A server with one counter for all keys.
abbrev single : Counters ℕ (Unit {0})
single = record {
  incr_by_and_expire = λ s k n ttl. (ok (pos (s + size n)), s + size n);
  get = λ s k. (ok (some (pos s)), s);
  del = λ s ks. (ok tt, 0);
}

documented : Documented single
documented = record {
  counter = λ s k. s;
  counts = λ s s' k n ttl r e. (ground (arith, e), ground (arith, e));
}

works : Works single
works = record {
  incremented = λ s k n ttl. (pos (s + size n), s + size n, refl);
  read = λ s k. (ok (some (pos s)), refl);
}

-- The limiter of MiddlewareManager.
abbrev open_limiter : TokenBucketLimiter
open_limiter = record { fallback = true }

rate_limit-successes_example :
    successes (
      serve single
        (λ s c. Body.joined)
        open_limiter
        (pos 2)
        (λ t. t)
        request
        0
        (6000 ∷ 6001 ∷ 6059 ∷ []))
    ≡ min 3 (2 - 0)
unfolding documented
rate_limit-successes_example =
    rate_limit-successes single (λ s c. Body.joined) open_limiter documented works 2 100 (λ t. t)
      request (6000 ∷ 6001 ∷ 6059 ∷ []) 0 (refl, (refl, (refl, tt)))
