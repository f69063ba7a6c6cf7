-- ===== src/Gateway/Wire.antt =====
-- Documented behaviour of protobuf, and a serialization that shows that it can hold.
use Prim.Native.Nat.{Ordering, compare}
use Prim.Native.Char.{Char, char, code, nul, IsLt, IsScalar}
use text.Mathlib.TextEquality.{Char-path}
use chat_room.Prelude.{
  ℕ, zero, suc, ◌≡◌, refl, ap, ◌∙◌, String, [], ◌∷◌, ok, err, Option, none, some,
}
use chat_room.Gateway.Connection.{Bytes}
use chat_room.Gateway.Handler.{WsMessage, Kind, Codec}

-- Documented behaviour of protobuf: what is serialized is read back, and a message can be serialized
-- where its content is text in UTF-8, and only there.
pub record DocumentedCodec {P : Type 0} (codec : Codec P) : Type 1 where
  pub IsText : Bytes → Type 0
  pub round_trip :
      (msg : WsMessage) (out : Bytes)
      → codec.marshal msg ≡ ok out
      → codec.unmarshal out ≡ (ok tt, msg)
  pub texts : (msg : WsMessage) (out : Bytes) → codec.marshal msg ≡ ok out → IsText msg.content
  pub marshals :
      (msg : WsMessage) → IsText msg.content → (out : Bytes) × (codec.marshal msg ≡ ok out)

-- The clauses of IsScalar, over the comparisons that it makes.
abbrev Both : Ordering → Ordering → Type 0
Both Ordering.lt o = IsLt o
Both Ordering.eq o = ⊥
Both Ordering.gt o = ⊥

abbrev Scalar : Ordering → Ordering → Ordering → Type 0
Scalar Ordering.lt o p = Unit {0}
Scalar Ordering.eq o p = Both o p
Scalar Ordering.gt o p = Both o p

both_of : (o p : Ordering) → Option (Both o p)
both_of Ordering.lt Ordering.lt = some tt
both_of Ordering.lt Ordering.eq = none
both_of Ordering.lt Ordering.gt = none
both_of Ordering.eq p = none
both_of Ordering.gt p = none

scalar_of : (o p q : Ordering) → Option (Scalar o p q)
unfolding both_of
scalar_of Ordering.lt p q = some tt
scalar_of Ordering.eq p q = both_of p q
scalar_of Ordering.gt p q = both_of p q

both_found : (o p : Ordering) → Both o p → (h : Both o p) × (both_of o p ≡ some h)
unfolding both_of
both_found Ordering.lt Ordering.lt h = (tt, refl)
both_found Ordering.lt Ordering.eq h = elim h [ ]
both_found Ordering.lt Ordering.gt h = elim h [ ]
both_found Ordering.eq p h = elim h [ ]
both_found Ordering.gt p h = elim h [ ]

scalar_found : (o p q : Ordering) → Scalar o p q → (h : Scalar o p q) × (scalar_of o p q ≡ some h)
unfolding scalar_of
scalar_found Ordering.lt p q h = (tt, refl)
scalar_found Ordering.eq p q h = both_found p q h
scalar_found Ordering.gt p q h = both_found p q h

made : (n : ℕ) → Option (IsScalar n) → Char
made n none = nul
made n (some h) = char n h

char_of : ℕ → Char
unfolding scalar_of made
char_of n = made n (scalar_of (compare n 55296) (compare 57343 n) (compare n 1114112))

char_of-code : (c : Char) → char_of (code c) ≡ c
unfolding char_of made
char_of-code (char n p) =
    let (h, e) = scalar_found (compare n 55296) (compare 57343 n) (compare n 1114112) p in
    ap (made n) e ∙ Char-path (char n h) (char n p) refl

-- A text is the numbers of its characters, each one more, and a zero.
put_string : String → Bytes → Bytes
put_string String.[] rest = 0 ∷ rest
put_string (String.◌∷◌ c s) rest = suc (code c) ∷ put_string s rest

take_string : Bytes → String × Bytes
take_string [] = (String.[], [])
take_string (zero ∷ rest) = (String.[], rest)
take_string (suc n ∷ rest) = let (s, more) = take_string rest in (String.◌∷◌ (char_of n) s, more)

take_string-put_string : (s : String) (rest : Bytes) → take_string (put_string s rest) ≡ (s, rest)
unfolding take_string put_string
take_string-put_string String.[] rest = refl
take_string-put_string (String.◌∷◌ c s) rest =
    rw (take_string-put_string s rest, char_of-code c) refl

put_bytes : Bytes → Bytes → Bytes
put_bytes [] rest = 0 ∷ rest
put_bytes (b ∷ bs) rest = suc b ∷ put_bytes bs rest

take_bytes : Bytes → Bytes × Bytes
take_bytes [] = ([], [])
take_bytes (zero ∷ rest) = ([], rest)
take_bytes (suc n ∷ rest) = let (bs, more) = take_bytes rest in (n ∷ bs, more)

take_bytes-put_bytes : (bs rest : Bytes) → take_bytes (put_bytes bs rest) ≡ (bs, rest)
unfolding take_bytes put_bytes
take_bytes-put_bytes [] rest = refl
take_bytes-put_bytes (b ∷ bs) rest = rw (take_bytes-put_bytes bs rest) refl

number : Bytes → ℕ
number [] = 0
number (n ∷ rest) = n

after : Bytes → Bytes
after [] = []
after (n ∷ rest) = rest

kind_number : Kind → ℕ
kind_number Kind.text = 0
kind_number Kind.system = 1

kind_of : ℕ → Kind
kind_of zero = Kind.text
kind_of (suc n) = Kind.system

kind_of-number : (k : Kind) → kind_of (kind_number k) ≡ k
unfolding kind_of kind_number
kind_of-number Kind.text = refl
kind_of-number Kind.system = refl

put_message : WsMessage → Bytes
unfolding put_string put_bytes kind_number
put_message m = put_string m.message_id (
    put_string m.user_id (
      put_string m.guild_id (
        put_bytes m.content
          (put_string m.username (m.seq_id ∷ m.timestamp ∷ kind_number m.kind ∷ [])))))

take_message : Bytes → WsMessage
unfolding take_string take_bytes number after kind_of
take_message bytes =
    let (message_id, r1) = take_string bytes in
    let (user_id, r2) = take_string r1 in
    let (guild_id, r3) = take_string r2 in
    let (content, r4) = take_bytes r3 in
    let (username, r5) = take_string r4 in
    record {
      message_id = message_id;
      user_id = user_id;
      guild_id = guild_id;
      content = content;
      seq_id = number r5;
      timestamp = number (after r5);
      kind = kind_of (number (after (after r5)));
      username = username;
    }

take_message-put_message : (m : WsMessage) → take_message (put_message m) ≡ m
unfolding take_message put_message number after
take_message-put_message m =
    rw
      (
        take_string-put_string m.message_id _,
        take_string-put_string m.user_id _,
        take_string-put_string m.guild_id _,
        take_bytes-put_bytes m.content _,
        take_string-put_string m.username _,
        kind_of-number m.kind,
      )
      refl

unfoldable pub wire : Codec (Unit {0})
unfolding take_message put_message char_of scalar_of both_of made
wire = record {
  unmarshal = λ bytes. (ok tt, take_message bytes);
  unmarshal_json = λ msg bytes. (err tt, msg);
  marshal = λ msg. ok (put_message msg);
}

pub wire-Documented : DocumentedCodec wire
unfolding wire
wire-Documented = record {
  IsText = λ bytes. Unit {0};
  round_trip = λ msg out e.
      (let k : put_message msg ≡ out = cc in rw (← k, take_message-put_message msg) refl);
  texts = λ msg out e. tt;
  marshals = λ msg t. (put_message msg, refl);
}
