-- ===== src/Http/Limits.antt =====
-- RateLimit and RateLimiterByEndpoint of internal/api/middleware.go, over the interface of
-- middleware/ratelimit/ratelimit.go, which `bucket_limiter` implements. What they log is not modelled.
pub mod Counts
mod Examples
use Prim.Native.String.{◌++◌}
use chat_room.Prelude.{ℕ, ◌/◌, String, Bool, true, false, Option, none, some, Result, ok, err}
use chat_room.Prelude.Int.{ℤ, pos}
use chat_room.RateLimit.{
  Counters, TokenBucketLimiter, RateLimitConfig, RateLimitRule, minute, second, allow,
  get_remaining, get_rule_for_endpoint,
}
use chat_room.Http.{
  Context, Handler, Ended, returned, panicked, error, limited, get_key, json, abort,
  internal_server_error,
}

-- ratelimit.Limiter, as far as the middleware calls it, at a time. none is a panic.
pub record Limiter (S E : Type 0) : Type 0 where
  pub allow : S → ℕ → String → ℤ → ℕ → Option ((Bool × Option E) × S)
  pub get_remaining : S → ℕ → String → ℤ → ℕ → Option ((ℤ × Option E) × S)

-- Go's two results for a result of the model.
both : {E A : Type 0} → A → Result E A → A × Option E
both default (ok a) = (a, none)
both default (err e) = (default, some e)

module _ {S E A : Type 0} where
  answered : A → Option (Result E A × S) → Option ((A × Option E) × S)
  unfolding both
  answered default none = none
  answered default (some (r, s)) = some (both default r, s)

-- TokenBucketLimiter
pub bucket_limiter : {S E : Type 0} → Counters S E → TokenBucketLimiter → Limiter S E
unfolding answered
bucket_limiter server l = record {
  allow = λ s now key limit window. answered false (allow server l s now key limit window);
  get_remaining =
      λ s now key limit window. answered (pos 0) (get_remaining server l s now key limit window);
}

abbrev pub too_many_requests : ℕ
too_many_requests = 429

module _ {S E : Type 0} (limiter : Limiter S E) (now later : ℕ) (next : Handler S) where
  too_many : Context → ℕ → Option ((ℤ × Option E) × S) → S → Ended S
  too_many c retry_after none s = panicked s c
  too_many c retry_after (some ((left, e), s')) s =
      returned s' (abort (json c too_many_requests (limited retry_after left)))

  -- What follows the call of Allow, at a later time.
  after_allow : S → Context → String → ℤ → ℕ → ℕ → Option ((Bool × Option E) × S) → Ended S
  unfolding too_many
  after_allow s c key limit window retry_after none = panicked s c
  after_allow s c key limit window retry_after (some ((true, e), s')) = next s' c
  after_allow s c key limit window retry_after (some ((false, some e), s')) =
      returned s' (abort (json c internal_server_error (error "rate limit check failed")))
  after_allow s c key limit window retry_after (some ((false, none), s')) =
      too_many c retry_after (limiter.get_remaining s' later key limit window) s'

  limit_request : S → Context → String → ℤ → ℕ → ℕ → Ended S
  unfolding after_allow
  limit_request s c key limit window retry_after =
      after_allow s c key limit window retry_after (limiter.allow s now key limit window)

-- The key of a user who is known, or else of an address.
pub limit_key : Context → Option String → String
limit_key c (some user_id) = "user:" ++ user_id
limit_key c none = "ip:" ++ c.client_ip

pub endpoint_key : Context → Option String → String → String
endpoint_key c (some user_id) endpoint = "user:" ++ (user_id ++ (":" ++ endpoint))
endpoint_key c none endpoint = "ip:" ++ (c.client_ip ++ (":" ++ endpoint))

module _ {S E : Type 0} (limiter : Limiter S E) (now later : ℕ) (next : Handler S) where
  pub rate_limit : ℤ → S → Context → Ended S
  unfolding limit_request limit_key
  rate_limit limit_per_minute s c =
      limit_request limiter now later next s c (limit_key c (get_key c "user_id")) limit_per_minute
        minute 60

  with_rule : RateLimitRule → String → S → Context → Ended S
  unfolding limit_request endpoint_key
  with_rule rule endpoint s c =
      limit_request limiter now later next s c (endpoint_key c (get_key c "user_id") endpoint)
        rule.limit rule.window (rule.window / second)

  pub rate_limiter_by_endpoint : RateLimitConfig → String → S → Context → Ended S
  unfolding with_rule
  rate_limiter_by_endpoint config endpoint =
      with_rule (get_rule_for_endpoint endpoint config) endpoint
