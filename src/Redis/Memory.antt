-- ===== src/Redis/Memory.antt =====
-- A server that keeps its keys in a map, which shows that the documented behaviour can hold.
use chat_room.Prelude.{
  ℕ, ◌+◌, ◌≡◌, refl, ap, String, Option, none, some, List, [], ◌∷◌, arith, Result, ok,
}
use chat_room.Prelude.Dict.{Dict, lookup, insert, remove, lookup-insert, lookup-remove}
use chat_room.Redis.{Server, Documented}

remove_keys : Dict String → List String → Dict String
remove_keys s [] = s
remove_keys s (k ∷ ks) = remove_keys (remove k s) ks

present : Option String → ℕ
present none = 0
present (some v) = 1

count_keys : Dict String → List String → ℕ
unfolding present
count_keys s [] = 0
count_keys s (k ∷ ks) = present (lookup k s) + count_keys s ks

counted :
    (o : Option String) (n : ℕ) (s s' : Dict String)
    → ◌≡◌ {A = Result (Unit {0}) ℕ × Dict String} (ok (present o + 0), s) (ok n, s')
    → n ≡ elim o [ none ↦ 0 | some v ↦ 1 ]
unfolding present
counted none n s s' e = ground (arith, e)
counted (some v) n s s' e = ground (arith, e)

unfoldable pub memory : Server (Dict String) (Unit {0})
unfolding remove_keys count_keys
memory = record {
  incr = λ s k. (ok 1, s);
  set = λ s k v ttl. (ok tt, insert k v s);
  get = λ s k. (ok (lookup k s), s);
  del = λ s ks. (ok (count_keys s ks), remove_keys s ks);
  exists = λ s ks. (ok (count_keys s ks), s);
  publish = λ s c m. (ok tt, s);
}

pub memory-Documented : Documented memory
unfolding memory remove_keys count_keys
memory-Documented = record {
  value = λ s k. lookup k s;
  set_sets = λ s s' k v ttl j e. rw (← (ap (λ p. p.1) e)) (lookup-insert k j v s);
  del_deletes = λ s s' k n j e. rw (← (ap (λ p. p.1) e)) (lookup-remove k j s);
  exists_counts = λ s s' k n e. counted (lookup k s) n s s' e;
  exists_keeps = λ s s' k n j e. rw (← (ap (λ p. p.1) e)) refl;
}
