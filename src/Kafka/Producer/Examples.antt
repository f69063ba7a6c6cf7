-- ===== src/Kafka/Producer/Examples.antt =====
-- Brokers that refuse so many messages before they accept one.
use chat_room.Prelude.{ℕ, zero, suc, String, Result, ok, err}
use chat_room.Kafka.Producer.{Sarama}

answer : ℕ → Result String (ℕ × ℕ) × ℕ
answer zero = (ok (0, 7), zero)
answer (suc n) = (err "down", n)

abbrev brokers : Sarama ℕ String
brokers = record { send_message = λ n message. answer n }
