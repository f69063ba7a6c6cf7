-- ===== src/Http.antt =====
-- What the HTTP middleware and handlers (internal/api, internal/handler, middleware/auth) use of gin.
-- A handler changes the state S of the program and its request's context; a middleware is given the
-- handlers that come after it, which c.Next runs, and which gin does not run after c.Abort.
pub mod Bearer
pub mod Limits
pub mod Observing
pub mod Requests
pub mod Handlers
pub mod Routes
pub mod Sample
use chat_room.Prelude.{ℕ, String, Bool, true, false, Option, none, some, List, [], ◌∷◌, ◌++◌}
use chat_room.Prelude.Int.{ℤ}
use chat_room.Prelude.Dict.{Dict, lookup, insert}
use chat_room.Services.{User, GuildModel}
use chat_room.Services.Auth.{LoginResponse}
use chat_room.Services.Message.{MessageModel, MessageWithUser}

-- The bodies of the responses.
pub data Body : Type 0 where
  -- {"error": …}
  error : String → Body
  -- {"error": "rate limit exceeded", "retry_after": …, "remaining": …}
  limited : ℕ → ℤ → Body
  empty : Body
  user : User → Body
  session : LoginResponse → Body
  guild : GuildModel → Body
  -- {"message": "Joined guild successfully"}
  joined : Body
  guilds : List GuildModel → Body
  members : List User → Body
  message : MessageModel → Body
  -- {"messages": …, "has_more": …}
  messages : List MessageWithUser → Bool → Body

pub record Response : Type 0 where
  pub status : ℕ
  pub body : Body

-- The level at which a request is logged.
pub data Level : Type 0 where
  info warn failure : Level

-- gin.Context: the request, the values set for it, and what has been written.
pub record Context : Type 0 where
  pub method : String
  pub header : String → String
  pub query : String → String
  pub param : String → String
  pub client_ip : String
  pub keys : Dict String
  pub response_headers : Dict String
  pub responses : List Response
  pub aborted : Bool
  pub logged : List Level

-- How a handler ended; it hangs where a service waits for ever for the clock.
pub data Ended (S : Type 0) : Type 0 where
  returned panicked : S → Context → Ended S
  hangs : Ended S

abbrev pub Handler : Type 0 → Type 0
Handler S = S → Context → Ended S

-- c.Set and c.Get
abbrev pub set_key : Context → String → String → Context
set_key c k v = record c { keys = insert k v c.keys }

abbrev pub get_key : Context → String → Option String
get_key c k = lookup k c.keys

-- The value, or the empty text.
abbrev pub or_empty : Option String → String
or_empty none = ""
or_empty (some v) = v

-- c.GetString
abbrev pub get_string : Context → String → String
get_string c k = or_empty (get_key c k)

-- c.JSON
abbrev pub json : Context → ℕ → Body → Context
json c status body = record c {
  responses = c.responses ++ record { status = status; body = body } ∷ [];
}

-- c.Abort
abbrev pub abort : Context → Context
abort c = record c { aborted = true }

abbrev pub unauthorized : ℕ
unauthorized = 401

abbrev pub internal_server_error : ℕ
internal_server_error = 500
