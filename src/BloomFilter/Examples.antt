-- ===== src/BloomFilter/Examples.antt =====
-- A filter over a bit set as a function, with two hash functions that add up what is written.
use chat_room.Prelude.{ℕ, ◌+◌, ◌*◌, ◌≡◌, ◌||◌, refl, Bool, false, some, List, [], ◌∷◌, ◌==◌, arith}
use chat_room.BloomFilter.{Bytes, BitSet, Hash64, BloomFilter, contains}
use chat_room.BloomFilter.Members.{
  Documented, Call, adding, asking, run, all_bits, marked, resets, contains-run,
}

abbrev bits : BitSet (ℕ → Bool)
bits = record { new = λ n j. false; set = λ b i j. i == j || b j; test = λ b j. b j }

sum_from : ℕ → Bytes → ℕ
sum_from n [] = n
sum_from n (x ∷ xs) = sum_from (n * 3 + x) xs

-- the seed, and the sum so far
abbrev hash : Hash64 (ℕ × ℕ)
hash = record {
  seed_new64 = λ s. (s, s);
  reset = λ h. (h.0, h.0);
  write = λ h item. (h.0, sum_from h.1 item);
  sum64 = λ h. h.1;
}

documented : Documented bits hash
documented = record {
  test-set = λ b i j. refl;
  reset-reset = λ h. refl;
  reset-write = λ h item. refl;
}

abbrev filter : BloomFilter (ℕ → Bool) (ℕ × ℕ)
filter = record { bitset = λ j. false; size = 16; hash_funcs = (0, 0) ∷ (1, 1) ∷ [] }

abbrev calls : List Call
calls = adding (3 ∷ 4 ∷ []) ∷ asking (7 ∷ []) ∷ adding (9 ∷ []) ∷ []

contains-run_example :
    (bf' : BloomFilter (ℕ → Bool) (ℕ × ℕ)) × (bf'' : BloomFilter (ℕ → Bool) (ℕ × ℕ)) × (run bits
        hash filter calls
      ≡ some bf')
    × (contains bits hash bf' (5 ∷ [])
        ≡ some (
          all_bits bits hash 16
              (resets bits hash filter)
              (5 ∷ [])
              (marked bits hash 16 (resets bits hash filter) calls),
          bf'',
        ))
contains-run_example =
    contains-run bits hash documented filter calls (5 ∷ []) (omega arith) (λ j. refl)
