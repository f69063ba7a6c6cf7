-- ===== src/Http/Observing.antt =====
-- Logger, CORS and Recovery of internal/api/middleware.go. Of a log entry, the level is modelled.
pub mod Answers
use chat_room.Prelude.{
  ℕ, String, Bool, true, false, Option, none, some, List, [], ◌∷◌, ◌++◌, leb, if◌then◌else◌, str_eq,
}
use chat_room.Prelude.Dict.{Dict, insert}
use chat_room.Http.{
  Context, Response, Handler, Ended, returned, panicked, hangs, Level, info, warn, failure, error,
  empty, json, abort, internal_server_error,
}

-- c.Writer.Status(): the first status that was written, and 200 before any.
first_status : List Response → ℕ
first_status [] = 200
first_status (r ∷ rs) = r.status

level : ℕ → Level
level status = if leb 500 status then failure else if leb 400 status then warn else info

log_request : Context → Context
unfolding level first_status
log_request c = record c { logged = c.logged ++ level (first_status c.responses) ∷ [] }

module _ {S : Type 0} where
  -- A panic leaves Logger before it logs.
  logged_after : Ended S → Ended S
  unfolding log_request
  logged_after (returned s c) = returned s (log_request c)
  logged_after (panicked s c) = panicked s c
  logged_after hangs = hangs

  pub logger : Handler S → S → Context → Ended S
  unfolding logged_after
  logger next s c = logged_after (next s c)

allow_headers : String
allow_headers =
    "Content-Type, Content-Length, Accept-Encoding, X-CSRF-Token, Authorization, accept, origin, Cache-Control, X-Requested-With"

cors_headers : Dict String → Dict String
unfolding allow_headers
cors_headers h = insert "Access-Control-Allow-Methods" "POST, OPTIONS, GET, PUT, DELETE" (
    insert "Access-Control-Allow-Headers" allow_headers (
      insert "Access-Control-Allow-Credentials" "true"
        (insert "Access-Control-Allow-Origin" "*" h)))

no_content : ℕ
no_content = 204

module _ {S : Type 0} where
  -- AbortWithStatus, whose response has no body.
  pub cors : Handler S → S → Context → Ended S
  unfolding cors_headers no_content
  cors next s c =
      let c' = record c { response_headers = cors_headers c.response_headers } in
      if str_eq c.method "OPTIONS" then returned s (abort (json c' no_content empty)) else next s c'

  -- The deferred function, on a panic.
  recovered : Ended S → Ended S
  recovered (panicked s c) = returned s (
      abort (
        json (record c { logged = c.logged ++ failure ∷ [] }) internal_server_error
          (error "internal server error")))
  recovered (returned s c) = returned s c
  recovered hangs = hangs

  pub recovery : Handler S → S → Context → Ended S
  unfolding recovered
  recovery next s c = recovered (next s c)
