-- ===== src/Http/Limits/Counts.antt =====
-- How many requests of one user or address get through in a minute.
use chat_room.Prelude.{
  ℕ, suc, ◌-◌, ◌/◌, ◌≡◌, refl, ap, ◌∙◌, String, Bool, true, false, ◌==◌, some, List, [], ◌∷◌,
  if◌then◌else◌, ok, All, length,
}
use Prim.Native.Nat.{min}
use chat_room.Prelude.Int.{ℤ, pos}
use chat_room.RateLimit.{Counters, TokenBucketLimiter, minute, allow, bucket_time}
use chat_room.RateLimit.Minutes.{Works, allow_some, allow_same, get_remaining_some, minute_bucket}
use chat_room.RateLimit.Window.{Documented, Answers, trues, bucket, allow-Answers}
use chat_room.Http.{
  Context, Handler, returned, panicked, hangs, Body, Response, get_key, json, abort, limited,
}
use chat_room.Http.Limits.{
  bucket_limiter, both, answered, after_allow, limit_request, limit_key, rate_limit,
  too_many_requests,
}

-- The statuses of the responses that a request got.
abbrev statuses_of : List Response → List ℕ
statuses_of [] = []
statuses_of (r ∷ rs) = r.status ∷ statuses_of rs

-- How many of the statuses are 200.
abbrev pub successes : List (List ℕ) → ℕ
successes [] = 0
successes ([] ∷ ss) = successes ss
successes ((status ∷ more) ∷ ss) = if status == 200 then suc (successes ss) else successes ss

count_one :
    (b : Bool) (rest : List (List ℕ)) (bs : List Bool)
    → successes rest ≡ trues bs
    → successes (((if b then 200 else too_many_requests) ∷ []) ∷ rest) ≡ trues (b ∷ bs)
count_one true rest bs h = ap suc h
count_one false rest bs h = h

in_bucket :
    (q : ℕ) (times : List ℕ)
    → All (λ t. t / 60 ≡ q) times
    → All (λ t. bucket_time t minute ≡ some q) times
in_bucket q [] h = tt
in_bucket q (t ∷ times) h = (minute_bucket t ∙ ap some h.0, in_bucket q times h.1)

module _ {S E : Type 0} (server : Counters S E) (body : S → Context → Body)
    (l : TokenBucketLimiter) where
  -- A handler that answers 200 and leaves the counters alone.
  abbrev answering : Handler S
  answering s c = returned s (json c 200 (body s c))

  strict : TokenBucketLimiter
  strict = record { fallback = false }

  -- The statuses of requests that come one after another at some times, without responses yet; what
  -- is left of the limit is asked for a moment later each time.
  pub serve : ℤ → (ℕ → ℕ) → Context → S → List ℕ → List (List ℕ)
  serve limit later c s [] = []
  serve limit later c s (now ∷ times) =
      elim (rate_limit (bucket_limiter server l) now (later now) answering limit s
        (record c { responses = [] })) [
          | returned s' c' ↦ statuses_of c'.responses ∷ serve limit later c s' times
          | panicked s' c' ↦ []
          | hangs ↦ []
        ]

  -- A later answer counts what is left of the limit.
  module _ (doc : Documented server) (works : Works server) (limit q : ℕ) (later : ℕ → ℕ)
      (c : Context) where
    abbrev key : String
    key = limit_key c (get_key c "user_id")

    abbrev fresh : Context
    fresh = record c { responses = [] }

    request_status :
        (s s' : S) (now : ℕ) (b : Bool)
        → allow server l s now key (pos limit) minute ≡ some (ok b, s')
        → (c' : Context) × (rate_limit
              (bucket_limiter server l)
              now
              (later now)
              answering
              (pos limit)
              s
              fresh
            ≡ returned s' c')
          × (statuses_of c'.responses ≡ (if b then 200 else too_many_requests) ∷ [])
    unfolding rate_limit limit_request bucket_limiter answered both after_allow limit_key
    request_status s s' now true e = (json fresh 200 (body s' fresh), rw e, refl)
    request_status s s' now false e =
        let (r, left) = get_remaining_some server works l s' (later now) key (pos limit) in
        (
          abort (json fresh too_many_requests (limited 60 (both (pos 0) r).0)),
          rw (e, after_allow, left),
          refl,
        )

    serve-Answers :
        (times : List ℕ) (s : S)
        → (bs : List Bool) × Answers server strict doc key limit minute q s times bs
          × (successes (serve (pos limit) later c s times) ≡ trues bs)
    unfolding serve Answers
    serve-Answers [] s = ([], tt, refl)
    serve-Answers (now ∷ times) s =
        let (b, s', e) = allow_some server works strict s now key (pos limit) in
        let (c', ran, answer) =
          request_status s s' now b (allow_same server works l strict s now key (pos limit) ∙ e) in
        let (bs, as_asked, counted) = serve-Answers times s' in
        (
          b ∷ bs,
          (s', e, as_asked),
          rw (serve, ran, answer) (count_one b (serve (pos limit) later c s' times) bs counted),
        )

    -- The requests of one user, or of one unknown user's address, that RateLimit lets through to a
    -- handler that answers 200 are in each minute as many as the limit leaves after those that were
    -- counted before, and no more, while Redis answers, whatever the limiter does where it fails.
    pub rate_limit-successes :
        (times : List ℕ) (s : S)
        → All (λ t. t / 60 ≡ q) times
        → successes (serve (pos limit) later c s times)
          ≡ min (length times) (limit - doc.counter s (bucket key q))
    unfolding strict
    rate_limit-successes times s same =
        let (bs, as_asked, counted) = serve-Answers times s in
        counted
        ∙ allow-Answers server strict doc key limit minute q times bs s refl
            (in_bucket q times same) as_asked
