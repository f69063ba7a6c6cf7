-- ===== src/BloomFilter/Members/Added.antt =====
-- That an item which was added is found.
use chat_room.Prelude.{
  ℕ, ◌<◌, ◌≡◌, ◌||◌, refl, ap, ◌∙◌, Bool, inl, inr, true, some, List, [], ◌∷◌, arith, Any,
}
use chat_room.BloomFilter.{Bytes, BitSet, Hash64, BloomFilter, contains}
use chat_room.BloomFilter.Members.{
  Documented, Call, adding, asking, run, place, hits, marked, all_bits, resets, run-Ran,
  contains-Ran,
}

module _ {B H : Type 0} (bits : BitSet B) (hash : Hash64 H) where
  module _ (doc : Documented bits hash) where
    all_bits-hits :
        (size : ℕ) (rs : List H) (item : Bytes) (f : ℕ → Bool)
        → ((j : ℕ) → hits bits hash size rs item j ≡ true → f j ≡ true)
        → all_bits bits hash size rs item f ≡ true
    unfolding all_bits hits
    all_bits-hits size [] item f h = refl
    all_bits-hits size (r ∷ rs) item f h = rw (
      h (place bits hash size r item) (ground arith),
      all_bits-hits size rs item f (λ j k. h j (ground (arith, k))),
    )

    marked-hits :
        (size : ℕ) (rs : List H) (item : Bytes) (cs : List Call) (j : ℕ)
        → Any (λ c. c ≡ adding item) cs
        → hits bits hash size rs item j ≡ true
        → marked bits hash size rs cs j ≡ true
    unfolding marked
    marked-hits size rs item [] j added h = absurd added
    marked-hits size rs item (asking x ∷ cs) j (inl same) h = cc
    marked-hits size rs item (asking x ∷ cs) j (inr later) h = marked-hits size rs item cs j later h
    marked-hits size rs item (adding x ∷ cs) j (inl same) h = let e : x ≡ item = cc in rw (e, h)
    marked-hits size rs item (adding x ∷ cs) j (inr later) h =
        rw (marked-hits size rs item cs j later h) (ground arith)

    -- Contains answers true for an item that has been added, whatever was added or asked before and
    -- after, if the size is not 0.
    pub contains-added :
        (bf : BloomFilter B H) (cs : List Call) (item : Bytes)
        → 0 < bf.size
        → Any (λ c. c ≡ adding item) cs
        → (bf' : BloomFilter B H) × (bf'' : BloomFilter B H) × (run bits hash bf cs ≡ some bf')
          × (contains bits hash bf' item ≡ some (true, bf''))
    contains-added bf cs item pos added =
        let (bf', ran, r) = run-Ran bits hash doc cs bf pos in
        let (bf'', e) = contains-Ran bits hash doc bf bf' cs item pos r in
        (
          bf',
          bf'',
          ran,
          e
              ∙ ap (λ (answer : Bool). some (answer, bf''))
                  (all_bits-hits bf.size (resets bits hash bf) item
                    (λ j.
                      marked bits hash bf.size (resets bits hash bf) cs j || bits.test bf.bitset j)
                    (λ j h. rw (marked-hits bf.size (resets bits hash bf) item cs j added h))),
        )
