-- ===== src/Redis/Tally.antt =====
-- Documented behaviour of INCR, and a server that counts, which shows that it can hold.
use chat_room.Prelude.{
  ℕ, ◌+◌, ◌<◌, ◌≤◌, ◌≡◌, ◌∙◌, refl, sym, ap, arith, inl, inr, String, Bool, Bool-cases, true, false,
  Option, none, some, List, ok, if◌then◌else◌, str_eq, eq_iff, eq_refl,
}
use chat_room.Prelude.Dict.{Dict, lookup, insert, lookup-insert}
use chat_room.Redis.{Server}

-- Documented behaviour of INCR, over the number that each key has: its answer is greater than the
-- number was, and is the number then; it may have counted where it fails. PUBLISH changes no number.
pub record Counting {S R : Type 0} (server : Server S R) : Type 0 where
  pub count : S → String → ℕ
  pub incr_answers :
      (s s' : S) (k : String) (n : ℕ)
      → server.incr s k ≡ (ok n, s')
      → (count s k < n) × (n ≡ count s' k)
  pub incr_grows : (s : S) (k j : String) → count s j ≤ count (server.incr s k).1 j
  pub publish_keeps :
      (s : S) (c : String) (m : List ℕ) (j : String) → count (server.publish s c m).1 j ≡ count s j

abbrev pub number : Option ℕ → ℕ
number none = 0
number (some n) = n

abbrev pub tally : Server (Dict ℕ) (Unit {0})
tally = record {
  incr = λ s k. (ok (number (lookup k s) + 1), insert k (number (lookup k s) + 1) s);
  set = λ s k v ttl. (ok tt, s);
  get = λ s k. (ok none, s);
  del = λ s ks. (ok 0, s);
  exists = λ s ks. (ok 0, s);
  publish = λ s c m. (ok tt, s);
}

number-insert :
    (s : Dict ℕ) (k j : String)
    → number (lookup j (insert k (number (lookup k s) + 1) s))
      ≡ (if str_eq k j then number (lookup k s) + 1 else number (lookup j s))
number-insert s k j = rw (lookup-insert k j (number (lookup k s) + 1) s) (branch (str_eq k j))
  where
    branch :
        (b : Bool)
        → number (if b then some (number (lookup k s) + 1) else lookup j s)
          ≡ (if b then number (lookup k s) + 1 else number (lookup j s))
    branch true = refl
    branch false = refl

grown :
    (s : Dict ℕ) (k j : String)
    → number (lookup j s) ≤ number (lookup j (insert k (number (lookup k s) + 1) s))
grown s k j = rw (number-insert s k j) (elim (Bool-cases (str_eq k j)) [
  | inl same ↦ rw (same, (eq_iff k j).0 same) (omega arith)
  | inr other ↦ rw other (omega arith)
])

pub tally-Counting : Counting tally
tally-Counting = record {
  count = λ s k. number (lookup k s);
  incr_answers = λ s s' k n e.
      let is_n : number (lookup k s) + 1 ≡ n = cc in
      let here = (rw (eq_refl k) at (number-insert s k k)) in
      (omega (arith, is_n), sym is_n ∙ sym here ∙ ap (λ r. number (lookup k r.1)) e);
  incr_grows = grown;
  publish_keeps = λ s c m j. refl;
}
