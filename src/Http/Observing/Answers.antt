-- ===== src/Http/Observing/Answers.antt =====
-- Requests behind Recovery, Logger and CORS.
use chat_room.Prelude.{
  ◌<◌, Bool-cases, inl, inr, List, [], ◌∷◌, ◌++◌, length, length-append, str_eq, arith,
}
use chat_room.Http.{
  Context, Response, Handler, Ended, returned, panicked, hangs, empty, json, abort,
}
use chat_room.Http.Observing.{
  logger, logged_after, log_request, cors, cors_headers, no_content, recovery, recovered,
}

one_more : (rs : List Response) (r : Response) → 0 < length (rs ++ r ∷ [])
one_more rs r = omega (arith, length-append rs (r ∷ []))

module _ {S : Type 0} where
  -- A handler has written a response when it returns.
  abbrev pub Responds : Ended S → Type 0
  Responds (returned s c) = 0 < length c.responses
  Responds (panicked s c) = Unit {0}
  Responds hangs = ⊥

  -- A request has been answered, and nothing panics.
  abbrev pub Answered : Ended S → Type 0
  Answered (returned s c) = 0 < length c.responses
  Answered (panicked s c) = ⊥
  Answered hangs = ⊥

  -- The three middleware around the handlers that follow.
  pub guarded : Handler S → S → Context → Ended S
  guarded h s c = recovery (logger (cors h)) s c

  after_Answered : (r : Ended S) → Responds r → Answered (recovered (logged_after r))
  unfolding recovered logged_after log_request
  after_Answered (returned s c) h = h
  after_Answered (panicked s c) h = one_more c.responses _
  after_Answered hangs h = h

  -- Behind Recovery, Logger and CORS, every request is answered and none panics, if the handlers that
  -- follow write a response whenever they return, and do not hang; they may panic.
  pub guarded-Answered :
      (h : Handler S) (s : S) (c : Context)
      → ((s' : S) (c' : Context) → Responds (h s' c'))
      → Answered (guarded h s c)
  unfolding guarded recovery logger cors
  guarded-Answered h s c responds = elim (Bool-cases (str_eq c.method "OPTIONS")) [
    | inl preflight ↦ rw preflight (
        after_Answered
          (returned s (
            abort (
              json (record c { response_headers = cors_headers c.response_headers }) no_content
                empty)))
          (one_more c.responses _))
    | inr other ↦ rw other (
        after_Answered (h s (record c { response_headers = cors_headers c.response_headers }))
          (responds s _))
  ]
