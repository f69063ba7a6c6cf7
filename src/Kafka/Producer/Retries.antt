-- ===== src/Kafka/Producer/Retries.antt =====
-- How often ProduceWithRetry sends a message, and how long it sleeps in between.
use mathlib.Core.List.{append-nil, append_assoc}
use chat_room.Prelude.{
  ℕ, zero, suc, ◌+◌, ◌*◌, ◌%◌, ◌^◌, ◌<◌, ◌≤◌, ◌≡◌, ap, ◌∙◌, Bool, false, String, Option, none, some,
  List, [], ◌∷◌, ◌++◌, arith, Result, ok, err,
}
use chat_room.Prelude.Int.{pos}
use chat_room.Kafka.Producer.{
  ProducerMessage, Sarama, exhausted, doubled, attempts, after_attempt, produce_with_retry,
}

-- n sleeps, each twice as long as the one before.
unfoldable pub backoffs : ℕ → ℕ → List ℕ
backoffs zero b = []
backoffs (suc n) b = b ∷ backoffs n (doubled b)

module _ {K E : Type 0} (sarama : Sarama K E) (message : ProducerMessage) where
  -- n calls of the client that all fail lead from one state of the brokers to another.
  abbrev pub Fails : ℕ → K → K → Type 0
  Fails zero k l = k ≡ l
  Fails (suc n) k l = (e : E) × (m : K) × (sarama.send_message k message ≡ (err e, m)) × Fails n m l

  module _ (done : ℕ → Bool) where
    attempts-live :
        (left attempt backoff : ℕ) (last : Option E) (slept : List ℕ) (k : K)
        → done attempt ≡ false
        → attempts sarama done message (suc left) attempt backoff last slept k
          ≡ after_attempt
              (attempts sarama done message left (attempt + 1))
              left
              backoff
              slept
              (sarama.send_message k message)
    unfolding attempts
    attempts-live left attempt backoff last slept k live = rw (live, attempts)

    -- An attempt with an answer of the client.
    attempts-sent :
        (left attempt backoff : ℕ) (last : Option E) (slept : List ℕ) (k : K)
        (answer : Result E (ℕ × ℕ) × K)
        → done attempt ≡ false
        → sarama.send_message k message ≡ answer
        → attempts sarama done message (suc left) attempt backoff last slept k
          ≡ after_attempt
              (attempts sarama done message left (attempt + 1))
              left
              backoff
              slept
              answer
    attempts-sent left attempt backoff last slept k answer live sent =
        attempts-live left attempt backoff last slept k live
        ∙ ap (after_attempt (attempts sarama done message left (attempt + 1)) left backoff slept)
            sent

    attempts-ok :
        (n left attempt backoff : ℕ) (last : Option E) (slept : List ℕ) (k l m : K) (at : ℕ × ℕ)
        → n < left
        → ((i : ℕ) → attempt ≤ i → i ≤ attempt + n → done i ≡ false)
        → Fails n k l
        → sarama.send_message l message ≡ (ok at, m)
        → attempts sarama done message left attempt backoff last slept k
          ≡ (ok at, m, slept ++ backoffs n backoff)
    unfolding backoffs after_attempt
    attempts-ok n zero attempt backoff last slept k l m at h live f sent = absurd (omega arith)
    attempts-ok zero (suc left) attempt backoff last slept k l m at h live f sent =
        attempts-sent left attempt backoff last slept k (ok at, m)
          (live attempt (omega arith) (omega arith)) (rw f sent)
        ∙ rw append-nil
    attempts-ok (suc n) (suc zero) attempt backoff last slept k l m at h live f sent =
        absurd (omega arith)
    attempts-ok (suc n) (suc (suc more)) attempt backoff last slept k l m at h live f sent =
        let (e, k', failed, rest) = f in
        attempts-sent (suc more) attempt backoff last slept k (err e, k')
          (live attempt (omega arith) (omega arith)) failed
        ∙ (attempts-ok n (suc more) (attempt + 1) (doubled backoff) (some e) (slept ++ backoff ∷ [])
              k' l m at (omega arith) (λ i lo hi. live i (omega arith) (omega arith)) rest sent
            ∙ rw (append_assoc slept (backoff ∷ []) (backoffs n (doubled backoff))))

    attempts-exhausted :
        (n attempt backoff : ℕ) (last : Option E) (slept : List ℕ) (k l m : K) (e : E)
        → ((i : ℕ) → attempt ≤ i → i ≤ attempt + n → done i ≡ false)
        → Fails n k l
        → sarama.send_message l message ≡ (err e, m)
        → attempts sarama done message (suc n) attempt backoff last slept k
          ≡ (err (exhausted (some e)), m, slept ++ backoffs n backoff)
    unfolding backoffs after_attempt attempts
    attempts-exhausted zero attempt backoff last slept k l m e live f sent =
        attempts-sent 0 attempt backoff last slept k (err e, m)
          (live attempt (omega arith) (omega arith)) (rw f sent)
        ∙ rw append-nil
    attempts-exhausted (suc n) attempt backoff last slept k l m e live f sent =
        let (x, k', failed, rest) = f in
        attempts-sent (suc n) attempt backoff last slept k (err x, k')
          (live attempt (omega arith) (omega arith)) failed
        ∙ (attempts-exhausted n (attempt + 1) (doubled backoff) (some x) (slept ++ backoff ∷ []) k'
              l m e (λ i lo hi. live i (omega arith) (omega arith)) rest sent
            ∙ rw (append_assoc slept (backoff ∷ []) (backoffs n (doubled backoff))))

module _ {K E : Type 0} (sarama : Sarama K E) (done : ℕ → Bool) (retry_backoff_ms r : ℕ)
    (topic : String) (key : Option (List ℕ)) (value : List ℕ) where
  -- A message that fails to be sent n times, no more than the retries allowed, and is then accepted,
  -- is sent n + 1 times in all, with n sleeps that double, and its place is answered.
  pub produce_with_retry-ok :
      (n : ℕ) (k l m : K) (at : ℕ × ℕ)
      → n ≤ r
      → ((i : ℕ) → i ≤ n → done i ≡ false)
      → Fails sarama (record { topic = topic; key = key; value = value }) n k l
      → sarama.send_message l (record { topic = topic; key = key; value = value }) ≡ (ok at, m)
      → produce_with_retry sarama done retry_backoff_ms k topic key value (pos r)
        ≡ (ok at, m, backoffs n (retry_backoff_ms * 1000000 % 2 ^ 64))
  unfolding produce_with_retry
  produce_with_retry-ok n k l m at h live f sent =
      attempts-ok sarama (record { topic = topic; key = key; value = value }) done n (suc r) 0
        (retry_backoff_ms * 1000000 % 2 ^ 64) none [] k l m at (omega arith)
        (λ i lo hi. live i (omega arith)) f sent

  -- A message whose first r + 1 attempts all fail, r being the retries allowed, is given up with the
  -- last error, after r sleeps and no further attempt.
  pub produce_with_retry-exhausted :
      (k l m : K) (e : E)
      → ((i : ℕ) → i ≤ r → done i ≡ false)
      → Fails sarama (record { topic = topic; key = key; value = value }) r k l
      → sarama.send_message l (record { topic = topic; key = key; value = value }) ≡ (err e, m)
      → produce_with_retry sarama done retry_backoff_ms k topic key value (pos r)
        ≡ (err (exhausted (some e)), m, backoffs r (retry_backoff_ms * 1000000 % 2 ^ 64))
  unfolding produce_with_retry
  produce_with_retry-exhausted k l m e live f sent =
      attempts-exhausted sarama (record { topic = topic; key = key; value = value }) done r 0
        (retry_backoff_ms * 1000000 % 2 ^ 64) none [] k l m e (λ i lo hi. live i (omega arith)) f
        sent
