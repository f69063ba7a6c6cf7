-- ===== src/RateLimit.antt =====
-- middleware/ratelimit/ratelimit.go. The go-redis client is the parameter `Counters`, over the state
-- S of the server. Times are int64 seconds after 1970, windows int64 nanoseconds, neither negative.
-- Window.Seconds() and the like are floats that are cut to integers: below a window of thousands of
-- hours that is division. What the limiter logs is not modelled.
pub mod Window
pub mod Minutes
mod Examples
use Prim.Native.String.{◌++◌}
use chat_room.Prelude.{
  ℕ, ◌+◌, ◌-◌, ◌*◌, ◌/◌, ◌%◌, String, Bool, true, false, not, Option, none, some, List, [], ◌∷◌,
  ◌==◌, leb, if◌then◌else◌, Result, ok, err, str_eq,
}
use chat_room.Prelude.Decimal.{show}
use chat_room.Prelude.Int.{ℤ, pos, ltb_ℤ, ◌-ℤ◌}

-- The commands that the limiter sends: a pipeline of IncrBy and Expire, Get, and Del.
pub record Counters (S E : Type 0) : Type 0 where
  pub incr_by_and_expire : S → String → ℤ → ℕ → Result E ℤ × S
  pub get : S → String → Result E (Option ℤ) × S
  pub del : S → List String → Result E (Unit {0}) × S

pub record TokenBucketLimiter : Type 0 where
  -- allow requests when Redis fails
  pub fallback : Bool

-- nanoseconds
abbrev pub second : ℕ
second = 1000000000

abbrev pub minute : ℕ
minute = 60 * second

abbrev pub hour : ℕ
hour = 60 * minute

-- A division of Go's, which panics, that is none, where the divisor is zero.
pub divide : ℕ → ℕ → Option ℕ
divide a b = if b == 0 then none else some (a / b)

pub bucket_time : ℕ → ℕ → Option ℕ
unfolding divide
bucket_time now window =
    if leb window minute
    then divide now (window / second)
    else if leb window hour
    then divide (now / 60) (window / minute)
    else divide (now / 3600) (window / hour)

bucket_name : String → Option ℕ → Option String
bucket_name key none = none
bucket_name key (some time) = some ("ratelimit:" ++ (key ++ (":" ++ show time)))

pub get_bucket_key : String → ℕ → ℕ → Option String
unfolding bucket_name bucket_time
get_bucket_key key now window = bucket_name key (bucket_time now window)

module _ {S E : Type 0} (server : Counters S E) (l : TokenBucketLimiter) where
  decide : ℤ → Result E ℤ → Result E Bool
  decide limit (err e) = if l.fallback then ok true else err e
  decide limit (ok count) = ok (not (ltb_ℤ limit count))

  count_in : S → ℤ → ℤ → ℕ → Option String → Option (Result E Bool × S)
  unfolding decide
  count_in s n limit window none = none
  count_in s n limit window (some bucket) =
      let (r, s') = server.incr_by_and_expire s bucket n (window + second) in
      some (decide limit r, s')

  -- AllowN; none is a panic.
  pub allow_n : S → ℕ → String → ℤ → ℤ → ℕ → Option (Result E Bool × S)
  unfolding count_in get_bucket_key
  allow_n s now key n limit window = count_in s n limit window (get_bucket_key key now window)

  pub allow : S → ℕ → String → ℤ → ℕ → Option (Result E Bool × S)
  unfolding allow_n
  allow s now key limit window = allow_n s now key (pos 1) limit window

  remaining : ℤ → Result E (Option ℤ) → Result E ℤ
  remaining limit (err e) = err e
  remaining limit (ok none) = ok limit
  remaining limit (ok (some count)) =
      ok (if ltb_ℤ (limit -ℤ count) (pos 0) then pos 0 else limit -ℤ count)

  look_in : S → ℤ → Option String → Option (Result E ℤ × S)
  unfolding remaining
  look_in s limit none = none
  look_in s limit (some bucket) = let (r, s') = server.get s bucket in some (remaining limit r, s')

  pub get_remaining : S → ℕ → String → ℤ → ℕ → Option (Result E ℤ × S)
  unfolding look_in get_bucket_key
  get_remaining s now key limit window = look_in s limit (get_bucket_key key now window)

abbrev windows : List ℕ
windows = minute ∷ hour ∷ 24 * hour ∷ []

prepend : Option String → Option (List String) → Option (List String)
prepend none keys = none
prepend (some k) none = none
prepend (some k) (some keys) = some (k ∷ keys)

-- The buckets of now and of one window before, for each window; a window is a number of seconds.
reset_keys : String → ℕ → List ℕ → Option (List String)
unfolding prepend
reset_keys key now [] = some []
reset_keys key now (window ∷ more) =
    prepend (get_bucket_key key now window)
      (prepend (get_bucket_key key (now - window / second) window) (reset_keys key now more))

module _ {S E : Type 0} (server : Counters S E) where
  delete_keys : S → Option (List String) → Option (Result E (Unit {0}) × S)
  delete_keys s none = none
  delete_keys s (some keys) = some (server.del s keys)

  pub reset : S → ℕ → String → Option (Result E (Unit {0}) × S)
  unfolding delete_keys reset_keys
  reset s now key = delete_keys s (reset_keys key now windows)

-- GetRuleForEndpoint
pub record RateLimitConfig : Type 0 where
  pub register_per_minute : ℤ
  pub login_per_minute : ℤ
  pub message_per_minute : ℤ
  pub api_per_minute : ℤ

pub record RateLimitRule : Type 0 where
  pub limit : ℤ
  pub window : ℕ

pub get_rule_for_endpoint : String → RateLimitConfig → RateLimitRule
get_rule_for_endpoint endpoint config =
    if str_eq endpoint "register"
    then record { limit = config.register_per_minute; window = minute }
    else if str_eq endpoint "login"
    then record { limit = config.login_per_minute; window = minute }
    else if str_eq endpoint "message"
    then record { limit = config.message_per_minute; window = minute }
    else if str_eq endpoint "api"
    then record { limit = config.api_per_minute; window = minute }
    else record { limit = pos 100; window = minute }
