-- ===== src/Http/Requests.antt =====
-- What the handlers read of a request: strconv.ParseInt at base 10 and 64 bits, which strconv.Atoi
-- does too, and the requests of internal/service.
use Prim.Native.Char.{code}
use chat_room.Prelude.{
  ℕ, zero, suc, ◌+◌, ◌-◌, ◌*◌, ◌^◌, String, ◌&&◌, Option, none, some, ltb, leb, ◌==◌, if◌then◌else◌,
}
use chat_room.Prelude.Int.{ℤ, pos, negsuc}
use chat_room.Gateway.Connection.{Bytes}

-- The number that decimal digits write after those that were read.
pub parse_digits : ℕ → String → Option ℕ
parse_digits n String.[] = some n
parse_digits n (String.◌∷◌ c s) =
    let rest = parse_digits (n * 10 + (code c - b'0')) s in
    if leb b'0' (code c) && leb (code c) b'9' then rest else none

-- At least one digit is wanted.
parse_unsigned : String → Option ℕ
unfolding parse_digits
parse_unsigned String.[] = none
parse_unsigned (String.◌∷◌ c s) = parse_digits 0 (String.◌∷◌ c s)

minus : ℕ → ℤ
minus zero = pos zero
minus (suc n) = negsuc n

positive : Option ℕ → Option ℤ
positive none = none
positive (some n) = if ltb n (2 ^ 63) then some (pos n) else none

negative : Option ℕ → Option ℤ
unfolding minus
negative none = none
negative (some n) = if leb n (2 ^ 63) then some (minus n) else none

pub parse_int : String → Option ℤ
unfolding parse_unsigned positive negative
parse_int String.[] = none
parse_int (String.◌∷◌ c s) =
    if code c == b'+'
    then positive (parse_unsigned s)
    else if code c == b'-'
    then negative (parse_unsigned s)
    else positive (parse_unsigned (String.◌∷◌ c s))

-- service.SendMessageRequest
pub record SendMessageRequest : Type 0 where
  pub user_id : String
  pub guild_id : String
  pub content : Bytes
