-- ===== src/Http/Bearer/Examples.antt =====
-- Requests with and without the token of one user.
use chat_room.Prelude.{ℕ, suc, ◌*◌, ◌⊎◌}
use chat_room.Jwt.{second}
use chat_room.Jwt.Single.{manager, single}
use chat_room.Http.{Handler, returned}
use chat_room.Http.Sample.{request}
use chat_room.Http.Bearer.{bearer_token, token_of, auth_middleware}
use chat_room.Http.Bearer.Accepts.{Passed, Refused, known_email, auth_middleware-Passed}

-- A handler that counts its calls.
abbrev counting : Handler ℕ
counting = λ n c. returned (suc n) c

auth_middleware-Passed_example :
    Passed single manager
      (50 * second)
      counting
      0
      request
      (known_email single manager (50 * second) counting request)
      (token_of single manager (50 * second) counting request (bearer_token "Bearer token"))
      (auth_middleware single manager (50 * second) counting 0 request)
    ⊎ Refused single manager
        (50 * second)
        counting
        0
        request
        (auth_middleware single manager (50 * second) counting 0 request)
auth_middleware-Passed_example =
    auth_middleware-Passed single manager (50 * second) counting 0 request
