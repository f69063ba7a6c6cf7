-- ===== src/BloomFilter/Members.antt =====
-- An item that was added is found ever after.
pub mod Added
use chat_room.Prelude.{
  ℕ, zero, suc, ◌%◌, ◌<◌, ◌≡◌, ◌||◌, ◌&&◌, map, refl, ap, ◌∙◌, Bool, Bool-cases, inl, inr, true,
  false, Option, none, some, List, [], ◌∷◌, ◌==◌, arith, Any,
}
use chat_room.BloomFilter.{
  Bytes, BitSet, Hash64, BloomFilter, index, digested, add_all, contains_all, add, contains,
}

-- Documented behaviour of the bit set and of Reset.
pub record Documented {B H : Type 0} (bits : BitSet B) (hash : Hash64 H) : Type 0 where
  pub test-set : (b : B) (i j : ℕ) → bits.test (bits.set b i) j ≡ (i == j || bits.test b j)
  pub reset-reset : (h : H) → hash.reset (hash.reset h) ≡ hash.reset h
  pub reset-write : (h : H) (item : Bytes) → hash.reset (hash.write h item) ≡ hash.reset h

-- A call of the filter.
pub data Call : Type 0 where
  adding asking : Bytes → Call

module _ {B H : Type 0} (bits : BitSet B) (hash : Hash64 H) where
  -- The filter after a call.
  after : BloomFilter B H → Call → Option (BloomFilter B H)
  after bf (adding item) = add bits hash bf item
  after bf (asking item) = elim (contains bits hash bf item) [
    | none ↦ none
    | some (found, bf') ↦ some bf'
  ]

  -- The filter after a sequence of calls.
  pub run : BloomFilter B H → List Call → Option (BloomFilter B H)
  unfolding after
  run bf [] = some bf
  run bf (c ∷ cs) = elim (after bf c) [ none ↦ none | some bf' ↦ run bf' cs ]

  -- The remainder that a function gives for an item, from its state after a reset.
  abbrev pub place : ℕ → H → Bytes → ℕ
  place size r item = hash.sum64 (hash.write r item) % size

  -- Whether a bit is one of those that the functions name for an item.
  pub hits : ℕ → List H → Bytes → ℕ → Bool
  hits size [] item j = false
  hits size (r ∷ rs) item j = place size r item == j || hits size rs item j

  -- Whether a bit is named for an item that is added in a sequence of calls.
  pub marked : ℕ → List H → List Call → ℕ → Bool
  marked size rs [] j = false
  marked size rs (adding item ∷ cs) j = hits size rs item j || marked size rs cs j
  marked size rs (asking item ∷ cs) j = marked size rs cs j

  -- Whether all bits of an item pass a test.
  pub all_bits : ℕ → List H → Bytes → (ℕ → Bool) → Bool
  all_bits size [] item f = true
  all_bits size (r ∷ rs) item f = f (place size r item) && all_bits size rs item f

  abbrev pub resets : BloomFilter B H → List H
  resets bf = map hash.reset bf.hash_funcs

  module _ (doc : Documented bits hash) where
    index_pos : (sum size : ℕ) → 0 < size → index sum size ≡ some (sum % size)
    unfolding index
    index_pos sum zero pos = absurd (omega arith)
    index_pos sum (suc m) pos = refl

    reset-digested : (h : H) (item : Bytes) → hash.reset (digested hash h item) ≡ hash.reset h
    reset-digested h item = doc.reset-write (hash.reset h) item ∙ doc.reset-reset h

    add_all-hits :
        (size : ℕ) (item : Bytes) (b : B) (hs : List H)
        → 0 < size
        → (b' : B) × (hs' : List H) × (add_all bits hash size item b hs ≡ some (b', hs'))
          × (map hash.reset hs' ≡ map hash.reset hs)
          × ((j : ℕ) → bits.test b' j ≡ (hits size (map hash.reset hs) item j || bits.test b j))
    unfolding add_all hits
    add_all-hits size item b [] pos = (b, [], refl, refl, λ j. refl)
    add_all-hits size item b (h ∷ hs) pos =
        let i = place size (hash.reset h) item in
        let (b', hs', e, same, tests) = add_all-hits size item (bits.set b i) hs pos in
        (
          b',
          digested hash h item ∷ hs',
          rw (add_all, index_pos (hash.sum64 (digested hash h item)) size pos, e),
          rw (reset-digested h item, same),
          λ j.
              tests j
              ∙ rw (doc.test-set b i j)
                  (reorder (i == j) (hits size (map hash.reset hs) item j) (bits.test b j)),
        )
      where
        reorder : (x y z : Bool) → (y || (x || z)) ≡ ((x || y) || z)
        reorder x y z = ground arith

    contains_all-bits :
        (size : ℕ) (item : Bytes) (b : B) (hs : List H)
        → 0 < size
        → (hs' : List H) × (contains_all bits hash size item b hs
            ≡ some (all_bits size (map hash.reset hs) item (bits.test b), hs'))
          × (map hash.reset hs' ≡ map hash.reset hs)
    unfolding contains_all all_bits
    contains_all-bits size item b [] pos = ([], refl, refl)
    contains_all-bits size item b (h ∷ hs) pos =
        let (hs', e, same) = contains_all-bits size item b hs pos in
        elim (Bool-cases (bits.test b (place size (hash.reset h) item))) [
          | inl t ↦ (
            digested hash h item ∷ hs',
            rw (contains_all, index_pos (hash.sum64 (digested hash h item)) size pos, t, e),
            rw (reset-digested h item, same),
          )
          | inr t ↦ (
            digested hash h item ∷ hs,
            rw (contains_all, index_pos (hash.sum64 (digested hash h item)) size pos, t),
            rw (reset-digested h item),
          )
        ]

    -- What a sequence of calls makes of a filter.
    pub record Ran (bf : BloomFilter B H) (cs : List Call) (bf' : BloomFilter B H) : Type 0 where
      pub size : bf'.size ≡ bf.size
      pub functions : resets bf' ≡ resets bf
      pub tests :
          (j : ℕ)
          → bits.test bf'.bitset j ≡ (marked bf.size (resets bf) cs j || bits.test bf.bitset j)

    pub run-Ran :
        (cs : List Call) (bf : BloomFilter B H)
        → 0 < bf.size
        → (bf' : BloomFilter B H) × (run bf cs ≡ some bf') × Ran bf cs bf'
    unfolding run marked after add contains
    run-Ran [] bf pos = (bf, refl, record { size = refl; functions = refl; tests = λ j. refl })
    run-Ran (adding item ∷ cs) bf pos =
        let (b, hs, e, same, tests) = add_all-hits bf.size item bf.bitset bf.hash_funcs pos in
        let (bf', ran, r) = run-Ran cs (record bf { bitset = b; hash_funcs = hs }) pos in
        (
          bf',
          rw (run, after, add, e) ran,
          record {
            size = r.size;
            functions = r.functions ∙ same;
            tests = λ j.
                r.tests j
                ∙ rw (same, tests j)
                    (swap (marked bf.size (resets bf) cs j) (hits bf.size (resets bf) item j)
                      (bits.test bf.bitset j));
          },
        )
      where
        swap : (x y z : Bool) → (x || (y || z)) ≡ ((y || x) || z)
        swap x y z = ground arith
    run-Ran (asking item ∷ cs) bf pos =
        let (hs, e, same) = contains_all-bits bf.size item bf.bitset bf.hash_funcs pos in
        let (bf', ran, r) = run-Ran cs (record bf { hash_funcs = hs }) pos in
        (
          bf',
          rw (run, after, contains, e) ran,
          record {
            size = r.size;
            functions = r.functions ∙ same;
            tests = λ j. r.tests j ∙ rw same;
          },
        )

    all_bits_ext :
        (size : ℕ) (rs : List H) (item : Bytes) (f g : ℕ → Bool)
        → ((j : ℕ) → f j ≡ g j)
        → all_bits size rs item f ≡ all_bits size rs item g
    unfolding all_bits
    all_bits_ext size [] item f g same = refl
    all_bits_ext size (r ∷ rs) item f g same =
        rw (same (place size r item), all_bits_ext size rs item f g same)

    -- Contains after a sequence of calls.
    pub contains-Ran :
        (bf bf' : BloomFilter B H) (cs : List Call) (item : Bytes)
        → 0 < bf.size
        → Ran bf cs bf'
        → (bf'' : BloomFilter B H) × (contains bits hash bf' item
            ≡ some (
              all_bits bf.size
                  (resets bf)
                  item
                  (λ j. marked bf.size (resets bf) cs j || bits.test bf.bitset j),
              bf'',
            ))
    unfolding contains
    contains-Ran bf bf' cs item pos r =
        let (hs, e, same) =
          contains_all-bits bf'.size item bf'.bitset bf'.hash_funcs (rw r.size pos) in
        (
          record bf' { hash_funcs = hs },
          rw (contains, e)
              (ap (λ (answer : Bool). some (answer, record bf' { hash_funcs = hs }))
                (rw (r.size, r.functions)
                  (all_bits_ext bf.size (resets bf) item (bits.test bf'.bitset)
                    (λ j. marked bf.size (resets bf) cs j || bits.test bf.bitset j) r.tests))),
        )

    -- After any sequence of calls on an empty filter of some size, Contains answers without a panic,
    -- and answers whether each bit of the item was named for some item that has been added.
    pub contains-run :
        (bf : BloomFilter B H) (cs : List Call) (item : Bytes)
        → 0 < bf.size
        → ((j : ℕ) → bits.test bf.bitset j ≡ false)
        → (bf' : BloomFilter B H) × (bf'' : BloomFilter B H) × (run bf cs ≡ some bf')
          × (contains bits hash bf' item
              ≡ some (all_bits bf.size (resets bf) item (marked bf.size (resets bf) cs), bf''))
    contains-run bf cs item pos empty =
        let (bf', ran, r) = run-Ran cs bf pos in
        let (bf'', e) = contains-Ran bf bf' cs item pos r in
        (
          bf',
          bf'',
          ran,
          e
              ∙ ap (λ (answer : Bool). some (answer, bf''))
                  (all_bits_ext bf.size (resets bf) item
                    (λ j. marked bf.size (resets bf) cs j || bits.test bf.bitset j)
                    (marked bf.size (resets bf) cs)
                    (λ j. rw (empty j) (or_false (marked bf.size (resets bf) cs j)))),
        )
      where
        or_false : (b : Bool) → (b || false) ≡ b
        or_false b = ground arith
