-- ===== src/RateLimit/Minutes.antt =====
-- A window of one minute: no call panics.
use chat_room.Prelude.{ℕ, ◌+◌, ◌/◌, ◌≡◌, String, Bool, not, Option, some, Result, ok, arith}
use chat_room.Prelude.Int.{ℤ, pos, ltb_ℤ}
use chat_room.RateLimit.{
  Counters, TokenBucketLimiter, second, minute, get_bucket_key, bucket_name, bucket_time, divide,
  allow_n, allow, count_in, decide, look_in, remaining, get_remaining,
}
use chat_room.RateLimit.Window.{bucket}

-- Commands that succeed, and a read that changes nothing.
pub record Works {S E : Type 0} (server : Counters S E) : Type 0 where
  pub incremented :
      (s : S) (k : String) (n : ℤ) (ttl : ℕ)
      → (r : ℤ) × (s' : S) × (server.incr_by_and_expire s k n ttl ≡ (ok r, s'))
  pub read : (s : S) (k : String) → (r : Result E (Option ℤ)) × (server.get s k ≡ (r, s))

pub minute_bucket : (now : ℕ) → bucket_time now minute ≡ some (now / 60)
unfolding bucket_time divide
minute_bucket now = ground arith

module _ {S E : Type 0} (server : Counters S E) (works : Works server) where
  pub allow_some :
      (l : TokenBucketLimiter) (s : S) (now : ℕ) (key : String) (limit : ℤ)
      → (b : Bool) × (s' : S) × (allow server l s now key limit minute ≡ some (ok b, s'))
  unfolding allow allow_n get_bucket_key bucket_name count_in decide
  allow_some l s now key limit =
      let (r, s', e) = works.incremented s (bucket key (now / 60)) (pos 1) (minute + second) in
      (not (ltb_ℤ limit r), s', rw e)

  -- While Redis answers, it does not matter what a limiter does where Redis fails.
  pub allow_same :
      (l k : TokenBucketLimiter) (s : S) (now : ℕ) (key : String) (limit : ℤ)
      → allow server l s now key limit minute ≡ allow server k s now key limit minute
  unfolding allow allow_n get_bucket_key bucket_name count_in decide
  allow_same l k s now key limit =
      let (r, s', e) = works.incremented s (bucket key (now / 60)) (pos 1) (minute + second) in
      rw e (λ i. some (decide server l limit (ok r), s'))

  pub get_remaining_some :
      (l : TokenBucketLimiter) (s : S) (now : ℕ) (key : String) (limit : ℤ)
      → (r : Result E ℤ) × (get_remaining server l s now key limit minute ≡ some (r, s))
  unfolding get_remaining get_bucket_key bucket_name look_in
  get_remaining_some l s now key limit =
      let (r, e) = works.read s (bucket key (now / 60)) in (remaining server l limit r, rw e)
