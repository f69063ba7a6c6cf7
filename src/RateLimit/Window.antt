-- ===== src/RateLimit/Window.antt =====
-- How many requests one bucket lets through.
use chat_room.Prelude.{
  ℕ, suc, ◌+◌, ◌-◌, ◌≡◌, ◌<◌, ◌∙◌, String, Bool, true, false, not, Option, none, some, List, [],
  ◌∷◌, leb, Result, ok, err, arith, All, length,
}
use Prim.Native.Nat.{min}
use Prim.Native.String.{◌++◌}
use chat_room.Prelude.Decimal.{show}
use chat_room.Prelude.Int.{ℤ, pos, ltb_ℤ}
use chat_room.RateLimit.{
  Counters, TokenBucketLimiter, second, get_bucket_key, bucket_name, bucket_time, divide, allow_n,
  allow, count_in, decide,
}

-- Documented behaviour of the commands that succeed, over the counter that each key has; a key that
-- is absent counts 0. Redis lets a key expire, which a law for one bucket leaves out: each request
-- sets the expiry to a second after the window.
pub record Documented {S E : Type 0} (server : Counters S E) : Type 1 where
  pub counter : S → String → ℕ
  pub counts :
      (s s' : S) (k : String) (n ttl : ℕ) (r : ℤ)
      → server.incr_by_and_expire s k (pos n) ttl ≡ (ok r, s')
      → (r ≡ pos (counter s k + n)) × (counter s' k ≡ counter s k + n)

abbrev pub trues : List Bool → ℕ
trues [] = 0
trues (true ∷ bs) = suc (trues bs)
trues (false ∷ bs) = trues bs

trues_step :
    (b : Bool) (bs : List Bool) (n limit c c' : ℕ)
    → b ≡ leb (c + 1) limit
    → c' ≡ c + 1
    → trues bs ≡ min n (limit - c')
    → trues (b ∷ bs) ≡ min (suc n) (limit - c)
trues_step true bs n limit c c' h e ih = ground arith
trues_step false bs n limit c c' h e ih = ground arith

-- The key of the bucket with that number.
abbrev pub bucket : String → ℕ → String
bucket key q = "ratelimit:" ++ (key ++ (":" ++ show q))

module _ {S E : Type 0} (server : Counters S E) (l : TokenBucketLimiter) where
  decide-ok :
      (limit : ℤ) (r : Result E ℤ) (b : Bool) (s s' : S)
      → l.fallback ≡ false
      → ◌≡◌ {A = Option (Result E Bool × S)} (some (decide server l limit r, s)) (some (ok b, s'))
      → (c : ℤ) × ◌≡◌ {A = Result E ℤ × S} (r, s) (ok c, s') × (b ≡ not (ltb_ℤ limit c))
  unfolding decide
  decide-ok limit (ok c) b s s' f e = (c, ground (arith, e), ground (arith, e))
  decide-ok limit (err x) b s s' f e = (let k = (rw f at e) in cc)

  module _ (doc : Documented server) (key : String) (limit window q : ℕ) where
    allow-counter :
        (s s' : S) (now : ℕ) (b : Bool)
        → l.fallback ≡ false
        → bucket_time now window ≡ some q
        → allow server l s now key (pos limit) window ≡ some (ok b, s')
        → (b ≡ leb (doc.counter s (bucket key q) + 1) limit)
          × (doc.counter s' (bucket key q) ≡ doc.counter s (bucket key q) + 1)
    unfolding allow allow_n get_bucket_key count_in bucket_name
    allow-counter s s' now b f t e =
        let (c, done, answer) =
          decide-ok (pos limit)
            (server.incr_by_and_expire s (bucket key q) (pos 1) (window + second)).0 b _ s' f
            (rw (t, bucket_name, count_in) at e) in
        let (counted, after) = doc.counts s s' (bucket key q) 1 (window + second) c done in
        (rw counted at answer ∙ ground arith, after)

    -- Single requests at these times get these answers.
    unfoldable pub Answers : S → List ℕ → List Bool → Type 0
    Answers s [] [] = Unit {0}
    Answers s [] (b ∷ bs) = ⊥
    Answers s (now ∷ times) [] = ⊥
    Answers s (now ∷ times) (b ∷ bs) =
        (s' : S) × (allow server l s now key (pos limit) window ≡ some (ok b, s'))
        × Answers s' times bs

    -- Of the requests that come in one bucket of time, while Redis answers and the limiter is not
    -- to let requests pass when it fails, as many are allowed as the limit leaves after those that
    -- were counted before, and no more.
    pub allow-Answers :
        (times : List ℕ) (bs : List Bool) (s : S)
        → l.fallback ≡ false
        → All (λ t. bucket_time t window ≡ some q) times
        → Answers s times bs
        → trues bs ≡ min (length times) (limit - doc.counter s (bucket key q))
    unfolding Answers
    allow-Answers [] [] s f t a = ground arith
    allow-Answers [] (b ∷ bs) s f t a = absurd a
    allow-Answers (now ∷ times) [] s f t a = absurd a
    allow-Answers (now ∷ times) (b ∷ bs) s f t (s', called, a) =
        let (answer, counted) = allow-counter s s' now b f t.0 called in
        let ih = allow-Answers times bs s' f t.1 a in
        trues_step b bs (length times) limit (doc.counter s (bucket key q))
          (doc.counter s' (bucket key q)) answer counted ih

-- A window below one second makes the division in the bucket's number panic.
pub allow-subsecond :
    {S E : Type 0} (server : Counters S E) (l : TokenBucketLimiter) (s : S) (now : ℕ) (key : String)
    (n limit : ℤ) (window : ℕ)
    → window < second
    → allow_n server l s now key n limit window ≡ none
unfolding allow_n get_bucket_key bucket_time divide count_in bucket_name
allow-subsecond server l s now key n limit window h = ground arith
