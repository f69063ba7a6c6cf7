-- ===== src/Jwt/Examples.antt =====
-- Tokens of one user.
use chat_room.Prelude.{◌*◌, ◌≡◌, refl, ok}
use chat_room.Jwt.{generate_token, refresh_token, second}
use chat_room.Jwt.Tokens.{refresh_token-generate_token}
use chat_room.Jwt.Single.{manager, single, single-Documented, is_ann, same_date}

refresh_token-generate_token_example :
    refresh_token single manager (110 * second) "token"
    ≡ ok (generate_token single manager (110 * second) "ann" "Ann" "a@b.c")
unfolding generate_token single is_ann same_date
refresh_token-generate_token_example =
    refresh_token-generate_token single manager single-Documented (5 * second) (110 * second) "ann"
      "Ann" "a@b.c" "token" refl refl
