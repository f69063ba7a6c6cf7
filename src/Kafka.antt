-- ===== src/Kafka.antt =====
-- internal/pkg/kafka: the producer and the consumer with its retries and its dead letter queue.
pub mod Producer
pub mod Consumer
