-- ===== src/Kafka/Consumer/Examples.antt =====
-- A consumer whose handler fails a given number of times, and brokers that keep what they get.
use chat_room.Prelude.{
  ℕ, zero, suc, ◌≡◌, refl, Bool, true, false, List, [], ◌∷◌, ◌++◌, length, none, arith, Result, ok,
  err,
}
use chat_room.Prelude.Int.{pos}
use chat_room.Kafka.Producer.{ProducerMessage, Sarama}
use chat_room.Kafka.Producer.Retries.{backoffs}
use chat_room.Kafka.Consumer.{
  ConsumerMessage, ConsumerConfig, Claim, received, no_more, process_message_with_retry,
  handle_message, consume_claim,
}
use chat_room.Kafka.Consumer.Retries.{first_backoff, process_message-ok}
use chat_room.Kafka.Consumer.Delivery.{
  taken, dead_lettered, marked-consume_claim, handle_message-gave_up,
}

-- The state counts the failures left.
abbrev flaky : ℕ → ConsumerMessage → Result ℕ (Unit {0}) × ℕ
flaky zero m = (ok tt, 0)
flaky (suc n) m = (err n, n)

abbrev log : Sarama (List ProducerMessage) (Unit {0})
log = record { send_message = λ k m. (ok (0, length k), k ++ m ∷ []) }

abbrev greeting : ConsumerMessage
greeting = record {
  topic = "messages";
  partition = 0;
  offset = 7;
  key = none;
  value = 104 ∷ 105 ∷ [];
}

abbrev defaults : ConsumerConfig
defaults = record { max_retries = pos 3; retry_backoff_ms = 100; dlq_topic = "dlq" }

abbrev live : ℕ → Bool
live k = false

abbrev stopped : ℕ → Bool
stopped k = true

abbrev claim : ℕ → Claim ℕ (List ProducerMessage)
claim n = record { state = n; brokers = []; marked = [] }

process_message-ok_example :
    process_message_with_retry flaky greeting live defaults 2
    ≡ record { result = ok tt; state = 0; slept = backoffs 2 (first_backoff defaults) }
process_message-ok_example =
    process_message-ok flaky greeting defaults 3 refl live 2 2 0 0 (omega arith) (λ k h. refl)
      (1, 1, refl, (0, 0, refl, refl)) refl

marked-consume_claim_example :
    (consume_claim flaky log defaults (received greeting live ∷ no_more ∷ []) (claim 1)).marked
    ≡ taken (received greeting live ∷ no_more ∷ [])
marked-consume_claim_example =
    marked-consume_claim flaky log defaults (received greeting live ∷ no_more ∷ []) (claim 1)

handle_message-gave_up_example :
    handle_message flaky log defaults (claim 9) greeting live
    ≡ dead_lettered flaky log defaults (claim 9) greeting 5
handle_message-gave_up_example =
    handle_message-gave_up flaky log defaults (claim 9) greeting live 3 6 5 5 refl (λ k h. refl)
      (8, 8, refl, (7, 7, refl, (6, 6, refl, refl))) refl
