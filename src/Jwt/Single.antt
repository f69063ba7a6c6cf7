-- ===== src/Jwt/Single.antt =====
-- A library that signs the claims of one user and no others.
use chat_room.Prelude.{
  ℕ, ◌*◌, ◌≡◌, sym, ap, Bool-cases, inl, inr, String, Bool, true, false, ◌&&◌, Option, none, some,
  str_eq, eq_iff, ◌==◌, ==_iff, leb, if◌then◌else◌, Result, ok, err, arith,
}
use chat_room.Jwt.{Claims, Refusal, token_expired, Library, TokenManager, new_claims, second}
use chat_room.Jwt.Tokens.{Documented}

abbrev pub manager : TokenManager
manager = record { secret = "s"; expire_dur = 100 * second; refresh_dur = 10 * second }

abbrev pub ann : Claims
ann = new_claims manager (5 * second) "ann" "Ann" "a@b.c"

unfoldable pub same_date : Option ℕ → ℕ → Bool
same_date none t = false
same_date (some s) t = s == t

same_date-some : (d : Option ℕ) (t : ℕ) → same_date d t ≡ true → d ≡ some t
unfolding same_date
same_date-some none t h = cc
same_date-some (some s) t h = ap some ((==_iff s t).0 h)

unfoldable pub is_ann : Claims → Bool
unfolding same_date
is_ann c =
    str_eq c.user_id "ann"
    && (str_eq c.user_name "Ann"
        && (str_eq c.user_email "a@b.c"
            && (same_date c.expires_at (105 * second)
                && (same_date c.issued_at (5 * second) && same_date c.not_before (5 * second)))))

and_left : (a b : Bool) → a && b ≡ true → a ≡ true
and_left a b h = ground arith

and_right : (a b : Bool) → a && b ≡ true → b ≡ true
and_right a b h = ground arith

is_ann-ann : (c : Claims) → is_ann c ≡ true → c ≡ ann
unfolding is_ann
is_ann-ann c h =
    let h1 = and_right (str_eq c.user_id "ann") _ h in
    let h2 = and_right (str_eq c.user_name "Ann") _ h1 in
    let h3 = and_right (str_eq c.user_email "a@b.c") _ h2 in
    let h4 = and_right (same_date c.expires_at (105 * second)) _ h3 in
    let id = (eq_iff c.user_id "ann").0 (and_left (str_eq c.user_id "ann") _ h) in
    let name = (eq_iff c.user_name "Ann").0 (and_left (str_eq c.user_name "Ann") _ h1) in
    let email = (eq_iff c.user_email "a@b.c").0 (and_left (str_eq c.user_email "a@b.c") _ h2) in
    let expires =
      same_date-some c.expires_at (105 * second)
        (and_left (same_date c.expires_at (105 * second)) _ h3) in
    let issued =
      same_date-some c.issued_at (5 * second)
        (and_left (same_date c.issued_at (5 * second)) _ h4) in
    let before =
      same_date-some c.not_before (5 * second)
        (and_right (same_date c.issued_at (5 * second)) _ h4) in
    λ i. record {
      user_id = id i;
      user_name = name i;
      user_email = email i;
      expires_at = expires i;
      issued_at = issued i;
      not_before = before i;
    }

unfoldable pub checked : Option ℕ → Result Refusal Claims
checked none = ok ann
checked (some now) = if leb (105 * second) now then err token_expired else ok ann

unfoldable pub single : Library (Unit {0})
unfolding is_ann checked
single = record {
  signed_string = λ c secret. if is_ann c then ok "token" else err tt;
  parse_with_claims = λ secret now token. checked now;
  parse_any_method = λ secret token. ok ann;
}

signed-ann :
    (c : Claims) (secret token : String) → single.signed_string c secret ≡ ok token → c ≡ ann
unfolding single
signed-ann c secret token h = elim (Bool-cases (is_ann c)) [
  | inl e ↦ is_ann-ann c e
  | inr e ↦ (let k = (rw e at h) in cc)
]

until_ann : (c : Claims) (until : ℕ) → c ≡ ann → c.expires_at ≡ some until → until ≡ 105 * second
until_ann c until same e = (let k = (rw same at e) in ground (arith, k))

pub single-Documented : Documented single
unfolding single checked
single-Documented = record {
  unchecked = λ c secret token h. ap ok (sym (signed-ann c secret token h));
  valid = λ c secret token from until now h b i e l u.
      let same = signed-ann c secret token h in
      let end = until_ann c until same e in
      let early : leb (105 * second) now ≡ false = ground arith in rw early (ap ok (sym same));
  expired = λ c secret token until now h e l.
      let end = until_ann c until (signed-ann c secret token h) e in ground arith;
}
