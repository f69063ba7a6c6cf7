-- ===== src/Kafka/Consumer/Retries.antt =====
-- How often a message is tried, and how long the consumer sleeps in between.
use native.Mathlib.Nat.{zero-add, sub_self}
use mathlib.Core.List.{append-nil, append_assoc}
use chat_room.Prelude.{
  ℕ, zero, suc, ◌+◌, ◌-◌, ◌*◌, ◌%◌, ◌^◌, ◌<◌, ◌≤◌, ◌≡◌, ap, ◌∙◌, Bool, true, false, Option, none,
  some, List, [], ◌∷◌, ◌++◌, arith, Result, ok, err,
}
use chat_room.Prelude.Int.{pos}
use chat_room.Kafka.Producer.{doubled, rounds}
use chat_room.Kafka.Producer.Retries.{backoffs}
use chat_room.Kafka.Consumer.{
  ConsumerMessage, ConsumerConfig, cancelled, gave_up, attempts, after_attempt,
  process_message_with_retry,
}

-- The first sleep, in nanoseconds.
abbrev pub first_backoff : ConsumerConfig → ℕ
first_backoff c = c.retry_backoff_ms * 1000000 % 2 ^ 64

module _ {S X : Type 0} (handler : S → ConsumerMessage → Result X (Unit {0}) × S)
    (message : ConsumerMessage) where
  -- n calls of the handler that all fail lead from one state to another.
  abbrev pub Fails : ℕ → S → S → Type 0
  Fails zero s t = s ≡ t
  Fails (suc n) s t = (e : X) × (u : S) × (handler s message ≡ (err e, u)) × Fails n u t

  module _ (done : ℕ → Bool) where
    shifted : (i n : ℕ) → i + 1 + n ≡ i + suc n
    shifted i n = omega arith

    attempts-live :
        (left attempt backoff : ℕ) (last : Option X) (slept : List ℕ) (s : S)
        → done attempt ≡ false
        → attempts handler message done (suc left) attempt backoff last slept s
          ≡ after_attempt
              (attempts handler message done left (attempt + 1))
              left
              backoff
              slept
              (handler s message)
    unfolding attempts
    attempts-live left attempt backoff last slept s live = rw (live, attempts)

    attempts-done :
        (left attempt backoff : ℕ) (last : Option X) (slept : List ℕ) (s : S)
        → done attempt ≡ true
        → attempts handler message done (suc left) attempt backoff last slept s
          ≡ record { result = err cancelled; state = s; slept = slept }
    unfolding attempts
    attempts-done left attempt backoff last slept s stop = rw (stop, attempts)

    -- The last round.
    attempts_last :
        (attempt backoff : ℕ) (last : Option X) (slept : List ℕ) (s u : S) (e : X)
        → done attempt ≡ false
        → handler s message ≡ (err e, u)
        → attempts handler message done 1 attempt backoff last slept s
          ≡ record { result = err (gave_up (some e)); state = u; slept = slept }
    unfolding after_attempt attempts
    attempts_last attempt backoff last slept s u e live called =
        attempts-live 0 attempt backoff last slept s live
        ∙ ap (after_attempt (attempts handler message done 0 (attempt + 1)) 0 backoff slept) called

    attempts_step :
        (more attempt backoff : ℕ) (last : Option X) (slept : List ℕ) (s u : S) (e : X)
        → done attempt ≡ false
        → handler s message ≡ (err e, u)
        → attempts handler message done (suc (suc more)) attempt backoff last slept s
          ≡ attempts handler message done
              (suc more)
              (attempt + 1)
              (doubled backoff)
              (some e)
              (slept ++ backoff ∷ [])
              u
    unfolding after_attempt
    attempts_step more attempt backoff last slept s u e live called =
        attempts-live (suc more) attempt backoff last slept s live
        ∙ ap
            (after_attempt (attempts handler message done (suc more) (attempt + 1)) (suc more)
              backoff slept)
            called

    -- While the context is live, n failures leave the loop in the state after them, with n sleeps
    -- more.
    attempts-Fails :
        (n left rounds attempt backoff : ℕ) (last : Option X) (slept : List ℕ) (s t : S)
        → rounds ≡ n + suc left
        → ((k : ℕ) → attempt ≤ k → k < attempt + n → done k ≡ false)
        → Fails n s t
        → (last' : Option X) × (b : ℕ) × (attempts handler message done rounds attempt backoff last
              slept s
            ≡ attempts handler message done
                (suc left)
                (attempt + n)
                b
                last'
                (slept ++ backoffs n backoff)
                t)
    unfolding backoffs
    attempts-Fails zero left rounds attempt backoff last slept s t e live f =
        (last, backoff, rw (rounds_left, attempt_same, append-nil, f))
      where
        rounds_left : rounds ≡ suc left
        rounds_left = omega arith

        attempt_same : attempt + 0 ≡ attempt
        attempt_same = omega arith
    attempts-Fails (suc n) left zero attempt backoff last slept s t e live f = absurd (omega arith)
    attempts-Fails (suc n) left (suc zero) attempt backoff last slept s t e live f =
        absurd (omega arith)
    attempts-Fails (suc n) left (suc (suc more)) attempt backoff last slept s t e live f =
        let (x, u, called, rest) = f in
        let (last', b, ih) =
          attempts-Fails n left (suc more) (attempt + 1) (doubled backoff) (some x)
            (slept ++ backoff ∷ []) u t (omega arith) (λ k h l. live k (omega arith) (omega arith))
            rest in
        let next =
          attempts_step more attempt backoff last slept s u x
            (live attempt (omega arith) (omega arith)) called in
        (
          last',
          b,
          next
              ∙ (ih
                  ∙ rw (
                    shifted attempt n,
                    append_assoc slept (backoff ∷ []) (backoffs n (doubled backoff)),
                  )),
        )

  module _ (c : ConsumerConfig) (r : ℕ) (bounded : c.max_retries ≡ pos r) where
    -- n failures within the retries allowed, seen from the start of the loop.
    started :
        (done : ℕ → Bool) (n : ℕ) (s t : S)
        → n ≤ r
        → ((k : ℕ) → k < n → done k ≡ false)
        → Fails n s t
        → (last : Option X) × (b : ℕ) × (process_message_with_retry handler message done c s
            ≡ attempts handler message done (suc (r - n)) n b last (backoffs n (first_backoff c)) t)
    unfolding process_message_with_retry
    started done n s t h live f =
        let (last, b, e) =
          attempts-Fails done n (r - n) (rounds c.max_retries) 0 (first_backoff c) none [] s t
            (rw bounded (omega arith)) (λ k lo hi. live k (omega arith)) f in
        (last, b, rw (zero-add n) at e)

    -- A message whose attempts fail n times, no more than the retries allowed, and then succeed, is
    -- processed: the handler was called n + 1 times, with n sleeps that double.
    pub process_message-ok :
        (done : ℕ → Bool) (n : ℕ) (s t u : S)
        → n ≤ r
        → ((k : ℕ) → k ≤ n → done k ≡ false)
        → Fails n s t
        → handler t message ≡ (ok tt, u)
        → process_message_with_retry handler message done c s
          ≡ record { result = ok tt; state = u; slept = backoffs n (first_backoff c) }
    unfolding after_attempt
    process_message-ok done n s t u h live f called =
        let (last, b, e) = started done n s t h (λ k l. live k (omega arith)) f in
        e
        ∙ (attempts-live done (r - n) n b last (backoffs n (first_backoff c)) t
              (live n (omega arith))
            ∙ ap
                (after_attempt (attempts handler message done (r - n) (n + 1)) (r - n) b
                  (backoffs n (first_backoff c)))
                called)

    -- A message whose first r + 1 attempts all fail, r being the retries allowed, is given up with
    -- the last error, after r sleeps and no further attempt.
    pub process_message-gave_up :
        (done : ℕ → Bool) (s t u : S) (x : X)
        → ((k : ℕ) → k ≤ r → done k ≡ false)
        → Fails r s t
        → handler t message ≡ (err x, u)
        → process_message_with_retry handler message done c s ≡ record {
          result = err (gave_up (some x));
          state = u;
          slept = backoffs r (first_backoff c);
        }
    process_message-gave_up done s t u x live f called =
        let (last, b, e) = started done r s t (omega arith) (λ k l. live k (omega arith)) f in
        rw (sub_self r) at e
        ∙ attempts_last done r b last (backoffs r (first_backoff c)) t u x (live r (omega arith))
            called

    -- A context that is done before the attempt after n failures ends the processing there, with
    -- retries left or not.
    pub process_message-cancelled :
        (done : ℕ → Bool) (n : ℕ) (s t : S)
        → n ≤ r
        → ((k : ℕ) → k < n → done k ≡ false)
        → done n ≡ true
        → Fails n s t
        → process_message_with_retry handler message done c s
          ≡ record { result = err cancelled; state = t; slept = backoffs n (first_backoff c) }
    process_message-cancelled done n s t h live stop f =
        let (last, b, e) = started done n s t h live f in
        e ∙ attempts-done done (r - n) n b last (backoffs n (first_backoff c)) t stop
