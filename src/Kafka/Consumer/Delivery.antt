-- ===== src/Kafka/Consumer/Delivery.antt =====
-- What a claim marks, and what it hands to the dead letter queue.
use mathlib.Core.List.{append-nil, append_assoc}
use chat_room.Prelude.{
  ℕ, ◌≤◌, ◌≡◌, refl, ap, sym, ◌∙◌, Bool, true, false, some, List, [], ◌∷◌, ◌++◌, arith, Result, err,
}
use chat_room.Prelude.Int.{pos}
use chat_room.Kafka.Producer.{Sarama, produce}
use chat_room.Kafka.Producer.Retries.{backoffs}
use chat_room.Kafka.Consumer.{
  ConsumerMessage, ConsumerConfig, Processed, Failure, cancelled, gave_up, Event, received, no_more,
  session_done, Claim, after_processing, mark_message, handle_message, consume_claim, send_to_dlq,
  process_message_with_retry,
}
use chat_room.Kafka.Consumer.Retries.{
  first_backoff, Fails, process_message-gave_up, process_message-cancelled,
}

-- The messages among the events, up to the one that ends the claim.
pub taken : List Event → List ConsumerMessage
taken [] = []
taken (received m done ∷ events) = m ∷ taken events
taken (no_more ∷ events) = []
taken (session_done ∷ events) = []

module _ {S X K E : Type 0} (handler : S → ConsumerMessage → Result X (Unit {0}) × S)
    (sarama : Sarama K E) (c : ConsumerConfig) where
  marked-after_processing :
      (s : Claim S K) (m : ConsumerMessage) (p : Processed S X)
      → (after_processing handler sarama c s m p).marked ≡ s.marked
  unfolding after_processing
  marked-after_processing s m p = ground arith

  marked-handle_message :
      (s : Claim S K) (m : ConsumerMessage) (done : ℕ → Bool)
      → (handle_message handler sarama c s m done).marked ≡ s.marked ++ m ∷ []
  unfolding handle_message mark_message
  marked-handle_message s m done =
      ap (λ xs. xs ++ m ∷ [])
        (marked-after_processing s m (process_message_with_retry handler m done c s.state))

  -- A claim marks each message that it takes once, in order, whether processing it succeeds, fails
  -- or is cut off, and whether the dead letter queue accepts it or not.
  pub marked-consume_claim :
      (events : List Event) (s : Claim S K)
      → (consume_claim handler sarama c events s).marked ≡ s.marked ++ taken events
  unfolding consume_claim taken
  marked-consume_claim [] s = sym (append-nil s.marked)
  marked-consume_claim (received m done ∷ events) s =
      marked-consume_claim events (handle_message handler sarama c s m done)
      ∙ (ap (λ xs. xs ++ taken events) (marked-handle_message s m done)
          ∙ append_assoc s.marked (m ∷ []) (taken events))
  marked-consume_claim (no_more ∷ events) s = sym (append-nil s.marked)
  marked-consume_claim (session_done ∷ events) s = sym (append-nil s.marked)

  -- What a message leaves that its handler did not process, from the handler's state after it.
  abbrev pub dead_lettered : Claim S K → ConsumerMessage → S → Claim S K
  dead_lettered s m t = record {
    state = t;
    brokers =
        (sarama.send_message s.brokers
          (record { topic = c.dlq_topic; key = m.key; value = m.value })).1;
    marked = s.marked ++ m ∷ [];
  }

  handle_message-err :
      (s : Claim S K) (m : ConsumerMessage) (done : ℕ → Bool) (x : Failure X) (t : S)
      (slept : List ℕ)
      → process_message_with_retry handler m done c s.state
        ≡ record { result = err x; state = t; slept = slept }
      → handle_message handler sarama c s m done ≡ dead_lettered s m t
  unfolding handle_message after_processing mark_message send_to_dlq produce
  handle_message-err s m done x t slept e =
      ap (λ p. mark_message handler sarama c (after_processing handler sarama c s m p) m) e

  -- A message whose attempts fail until the retries are used up goes to the dead letter topic once,
  -- with its key and its value, and is marked, even where that send fails.
  pub handle_message-gave_up :
      (s : Claim S K) (m : ConsumerMessage) (done : ℕ → Bool) (r : ℕ) (t u : S) (x : X)
      → c.max_retries ≡ pos r
      → ((k : ℕ) → k ≤ r → done k ≡ false)
      → Fails handler m r s.state t
      → handler t m ≡ (err x, u)
      → handle_message handler sarama c s m done ≡ dead_lettered s m u
  handle_message-gave_up s m done r t u x e live f called =
      handle_message-err s m done (gave_up (some x)) u (backoffs r (first_backoff c))
        (process_message-gave_up handler m c r e done s.state t u x live f called)

  -- A session that ends before the first attempt sends its message to the dead letter topic and
  -- marks it, though the handler has not seen it and all its retries are left.
  pub handle_message-cancelled :
      (s : Claim S K) (m : ConsumerMessage) (done : ℕ → Bool) (r : ℕ)
      → c.max_retries ≡ pos r
      → done 0 ≡ true
      → handle_message handler sarama c s m done ≡ dead_lettered s m s.state
  handle_message-cancelled s m done r e stop =
      handle_message-err s m done cancelled s.state (backoffs 0 (first_backoff c)) (
        process_message-cancelled handler m c r e done 0 s.state s.state (omega arith)
          (λ k h. absurd (omega arith)) stop refl)
