-- ===== src/Kafka/Producer.antt =====
-- internal/pkg/kafka/producer.go. The sarama SyncProducer is the parameter `Sarama`, over the
-- state K of the brokers. A context is the sequence of answers that its checks get, and a sleep is
-- noted in a list. Durations are int64 nanoseconds, as bit patterns.
pub mod Retries
pub mod Sending
mod Examples
use chat_room.Prelude.{
  ℕ, zero, suc, ◌+◌, ◌*◌, ◌%◌, ◌^◌, String, Bool, true, false, Option, none, some, List, [], ◌∷◌,
  ◌++◌, Result, ok, err,
}
use chat_room.Prelude.Int.{ℤ, pos, negsuc}

-- sarama.ProducerMessage; the key is absent where it is nil.
pub record ProducerMessage : Type 0 where
  pub topic : String
  pub key : Option (List ℕ)
  pub value : List ℕ

pub record Sarama (K E : Type 0) : Type 0 where
  pub send_message : K → ProducerMessage → Result E (ℕ × ℕ) × K

pub data Error (E : Type 0) : Type 0 where
  -- "failed to send message to topic", round the client's error
  send_failed : E → Error E
  -- ctx.Err()
  cancelled : Error E
  -- "failed to send message after n attempts", round the last failure to send; none where no
  -- attempt was made
  exhausted : Option E → Error E

-- The number of rounds of `for attempt := 0; attempt <= maxRetries; attempt++`.
abbrev pub rounds : ℤ → ℕ
rounds (pos n) = suc n
rounds (negsuc n) = 0

-- backoff *= 2
abbrev pub doubled : ℕ → ℕ
doubled backoff = backoff * 2 % 2 ^ 64

-- The end of a round: return on success; else sleep, unless the last attempt is made, and go on.
after_attempt :
    {K E : Type 0}
    → (ℕ → Option E → List ℕ → K → Result (Error E) (ℕ × ℕ) × K × List ℕ)
    → ℕ
    → ℕ
    → List ℕ
    → Result E (ℕ × ℕ) × K
    → Result (Error E) (ℕ × ℕ) × K × List ℕ
after_attempt again left backoff slept (ok at, k) = (ok at, k, slept)
after_attempt again zero backoff slept (err e, k) = again backoff (some e) slept k
after_attempt again (suc more) backoff slept (err e, k) =
    again (doubled backoff) (some e) (slept ++ backoff ∷ []) k

module _ {K E : Type 0} (sarama : Sarama K E) where
  sent : Result E (ℕ × ℕ) → Result (Error E) (ℕ × ℕ)
  sent (ok at) = ok at
  sent (err e) = err (send_failed e)

  -- Produce, with the partition and the offset.
  unfoldable pub produce : K → String → Option (List ℕ) → List ℕ → Result (Error E) (ℕ × ℕ) × K
  unfolding sent
  produce k topic key value =
      let (r, k') = sarama.send_message k (record { topic = topic; key = key; value = value }) in
      (sent r, k')

  -- The loop of ProduceWithRetry, with the rounds left. `done` answers the check of the context
  -- before each attempt. The sleeps are returned beside the state.
  attempts :
      (ℕ → Bool)
      → ProducerMessage
      → ℕ
      → ℕ
      → ℕ
      → Option E
      → List ℕ
      → K
      → Result (Error E) (ℕ × ℕ) × K × List ℕ
  unfolding after_attempt
  attempts done message zero attempt backoff last slept k = (err (exhausted last), k, slept)
  attempts done message (suc left) attempt backoff last slept k = elim (done attempt) [
    | true ↦ (err cancelled, k, slept)
    | false ↦
        after_attempt (attempts done message left (attempt + 1)) left backoff slept
          (sarama.send_message k message)
  ]

  unfoldable pub produce_with_retry :
      (ℕ → Bool)
      → ℕ
      → K
      → String
      → Option (List ℕ)
      → List ℕ
      → ℤ
      → Result (Error E) (ℕ × ℕ) × K × List ℕ
  unfolding attempts
  produce_with_retry done retry_backoff_ms k topic key value max_retries =
      attempts done (record { topic = topic; key = key; value = value }) (rounds max_retries) 0
        (retry_backoff_ms * 1000000 % 2 ^ 64) none [] k
