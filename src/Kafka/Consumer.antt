-- ===== src/Kafka/Consumer.antt =====
-- internal/pkg/kafka/consumer.go. The message handler that NewConsumer is given works on a state S;
-- consumer groups, sessions and the printing are sarama's or I/O.
pub mod Retries
pub mod Delivery
mod Examples
use chat_room.Prelude.{
  ℕ, zero, suc, ◌+◌, ◌*◌, ◌%◌, ◌^◌, String, Bool, true, false, Option, none, some, List, [], ◌∷◌,
  ◌++◌, Result, ok, err,
}
use chat_room.Prelude.Int.{ℤ}
use chat_room.Kafka.Producer.{Sarama, Error, rounds, doubled, produce}

pub record ConsumerMessage : Type 0 where
  pub topic : String
  pub partition : ℕ
  pub offset : ℕ
  pub key : Option (List ℕ)
  pub value : List ℕ

pub record ConsumerConfig : Type 0 where
  pub max_retries : ℤ
  pub retry_backoff_ms : ℕ
  pub dlq_topic : String

-- How processing a message ended, other than well.
pub data Failure (X : Type 0) : Type 0 where
  -- ctx.Err(), before an attempt
  cancelled : Failure X
  -- "failed after n retries", round the last error; none where there was no attempt
  gave_up : Option X → Failure X

-- What one call of processMessageWithRetry leaves: its result, the handler's state, and the sleeps.
pub record Processed (S X : Type 0) : Type 0 where
  pub result : Result (Failure X) (Unit {0})
  pub state : S
  pub slept : List ℕ

-- The end of a round: return on success; else sleep, unless the last attempt is made, and go on.
after_attempt :
    {S X : Type 0}
    → (ℕ → Option X → List ℕ → S → Processed S X)
    → ℕ
    → ℕ
    → List ℕ
    → Result X (Unit {0}) × S
    → Processed S X
after_attempt again left backoff slept (ok u, s) = record {
  result = ok tt;
  state = s;
  slept = slept;
}
after_attempt again zero backoff slept (err e, s) = again backoff (some e) slept s
after_attempt again (suc more) backoff slept (err e, s) =
    again (doubled backoff) (some e) (slept ++ backoff ∷ []) s

module _ {S X : Type 0} (handler : S → ConsumerMessage → Result X (Unit {0}) × S)
    (message : ConsumerMessage) (done : ℕ → Bool) where
  -- The loop, with the rounds left. `done` answers the check of the context before each attempt.
  attempts : ℕ → ℕ → ℕ → Option X → List ℕ → S → Processed S X
  unfolding after_attempt
  attempts zero attempt backoff last slept s = record {
    result = err (gave_up last);
    state = s;
    slept = slept;
  }
  attempts (suc left) attempt backoff last slept s = elim (done attempt) [
    | true ↦ record { result = err cancelled; state = s; slept = slept }
    | false ↦ after_attempt (attempts left (attempt + 1)) left backoff slept (handler s message)
  ]

  unfoldable pub process_message_with_retry : ConsumerConfig → S → Processed S X
  unfolding attempts
  process_message_with_retry c s =
      attempts (rounds c.max_retries) 0 (c.retry_backoff_ms * 1000000 % 2 ^ 64) none [] s

-- What ConsumeClaim takes from its select: a message, with the answers of the context while it is
-- processed, a closed channel (the nil message), or the end of the session.
pub data Event : Type 0 where
  received : ConsumerMessage → (ℕ → Bool) → Event
  no_more session_done : Event

-- The states that a claim works on, and the messages that it has marked, oldest first.
pub record Claim (S K : Type 0) : Type 0 where
  pub state : S
  pub brokers : K
  pub marked : List ConsumerMessage

module _ {S X K E : Type 0} (handler : S → ConsumerMessage → Result X (Unit {0}) × S)
    (sarama : Sarama K E) (c : ConsumerConfig) where
  -- sendToDLQ, whose error the caller only prints
  unfoldable pub send_to_dlq : K → ConsumerMessage → Result (Error E) (ℕ × ℕ) × K
  send_to_dlq k m = produce sarama k c.dlq_topic m.key m.value

  after_processing : Claim S K → ConsumerMessage → Processed S X → Claim S K
  after_processing s m p = elim p.result [
    | ok u ↦ record s { state = p.state }
    | err e ↦ record s { state = p.state; brokers = (send_to_dlq s.brokers m).1 }
  ]

  mark_message : Claim S K → ConsumerMessage → Claim S K
  mark_message s m = record s { marked = s.marked ++ m ∷ [] }

  unfoldable pub handle_message : Claim S K → ConsumerMessage → (ℕ → Bool) → Claim S K
  unfolding after_processing mark_message
  handle_message s m done =
      mark_message (after_processing s m (process_message_with_retry handler m done c s.state)) m

  -- The loop of ConsumeClaim, over the events that it takes.
  unfoldable pub consume_claim : List Event → Claim S K → Claim S K
  consume_claim [] s = s
  consume_claim (received m done ∷ events) s = consume_claim events (handle_message s m done)
  consume_claim (no_more ∷ events) s = s
  consume_claim (session_done ∷ events) s = s
