-- ===== src/Kafka/Producer/Sending.antt =====
-- What Produce has done where it returns a place in a partition.
use chat_room.Prelude.{ℕ, ◌≡◌, refl, ap, String, Option, List, Result, ok, err}
use chat_room.Kafka.Producer.{Sarama, sent, produce}

module _ {K E : Type 0} (sarama : Sarama K E) where
  sent-ok : (r : Result E (ℕ × ℕ)) (at : ℕ × ℕ) → sent sarama r ≡ ok at → r ≡ ok at
  unfolding sent
  sent-ok (ok a) at h = (let e : a ≡ at = cc in rw e refl)
  sent-ok (err e) at h = cc

  pub produce-ok :
      (k k' : K) (topic : String) (key : Option (List ℕ)) (value : List ℕ) (at : ℕ × ℕ)
      → produce sarama k topic key value ≡ (ok at, k')
      → sarama.send_message k (record { topic = topic; key = key; value = value }) ≡ (ok at, k')
  unfolding produce
  produce-ok k k' topic key value at h =
      let r = sarama.send_message k (record { topic = topic; key = key; value = value }) in
      rw (← (sent-ok r.0 at (ap (λ p. p.0) h)), ← (ap (λ p. p.1) h)) refl
