-- ===== src/BloomFilter.antt =====
-- utils/bloomfilter.go. The bit set, the hash functions and the floating-point numbers are other
-- projects' code and parameters. A hash function is an object that Add and Contains reset, write to
-- and read; a Go program that calls Contains from two goroutines at once, which its read lock lets
-- in, is not modelled: each call here is one step. A remainder by the size 0 panics and is none.
pub mod Members
mod Examples
use chat_room.Prelude.{ℕ, zero, suc, ◌+◌, ◌%◌, Bool, true, false, Option, none, some, List, [], ◌∷◌}

abbrev pub Bytes : Type 0
Bytes = List ℕ

-- bitset.BitSet
pub record BitSet (B : Type 0) : Type 0 where
  pub new : ℕ → B
  pub set : B → ℕ → B
  pub test : B → ℕ → Bool

-- hash.Hash64, and murmur3.SeedNew64
pub record Hash64 (H : Type 0) : Type 0 where
  pub seed_new64 : ℕ → H
  pub reset : H → H
  pub write : H → Bytes → H
  pub sum64 : H → ℕ

-- float64, as far as the parameters need it; `to_uint64` and `to_int` are Go's conversions.
pub record Float64 (F : Type 0) : Type 0 where
  pub of_uint64 : ℕ → F
  pub log : F → F
  pub ln2 : F
  pub neg : F → F
  pub mul : F → F → F
  pub div : F → F → F
  pub ceil : F → F
  pub to_uint64 : F → ℕ
  pub to_int : F → ℕ

pub record BloomFilter (B H : Type 0) : Type 0 where
  pub bitset : B
  pub size : ℕ
  pub hash_funcs : List H

module _ {F : Type 0} (float : Float64 F) where
  pub optimal_parameters : ℕ → F → ℕ × ℕ
  optimal_parameters n p =
      let m = float.to_uint64 (
        float.ceil (
          float.div (float.mul (float.neg (float.of_uint64 n)) (float.log p))
            (float.mul float.ln2 float.ln2))) in
      let k =
        float.to_int
          (float.ceil (float.div (float.mul float.ln2 (float.of_uint64 m)) (float.of_uint64 n))) in
      (m, k)

module _ {H : Type 0} (hash : Hash64 H) where
  -- The functions with the seeds from one number on.
  seeded : ℕ → ℕ → List H
  seeded i zero = []
  seeded i (suc k) = hash.seed_new64 i ∷ seeded (i + 1) k

module _ {B H F : Type 0} (bits : BitSet B) (hash : Hash64 H) (float : Float64 F) where
  pub new_with_false_positive_rate : ℕ → F → BloomFilter B H
  unfolding optimal_parameters seeded
  new_with_false_positive_rate expected_items false_positive_rate =
      let (m, k) = optimal_parameters float expected_items false_positive_rate in
      record { bitset = bits.new m; size = m; hash_funcs = seeded hash 0 k }

-- h.Sum64() % bf.size
pub index : ℕ → ℕ → Option ℕ
index sum zero = none
index sum (suc m) = some (sum % suc m)

module _ {H : Type 0} (hash : Hash64 H) where
  -- The function after it has been reset and the item written to it.
  abbrev pub digested : H → Bytes → H
  digested h item = hash.write (hash.reset h) item

module _ {B H : Type 0} (bits : BitSet B) (hash : Hash64 H) where
  -- The loop of Add.
  add_all : ℕ → Bytes → B → List H → Option (B × List H)
  unfolding index
  add_all size item b [] = some (b, [])
  add_all size item b (h ∷ hs) = elim (index (hash.sum64 (digested hash h item)) size) [
    | none ↦ none
    | some i ↦ elim (add_all size item (bits.set b i) hs) [
      | none ↦ none
      | some (b', hs') ↦ some (b', digested hash h item ∷ hs')
    ]
  ]

  -- The loop of Contains, which returns at the first bit that is not set.
  contains_all : ℕ → Bytes → B → List H → Option (Bool × List H)
  unfolding index
  contains_all size item b [] = some (true, [])
  contains_all size item b (h ∷ hs) = elim (index (hash.sum64 (digested hash h item)) size) [
    | none ↦ none
    | some i ↦ elim (bits.test b i) [
      | false ↦ some (false, digested hash h item ∷ hs)
      | true ↦ elim (contains_all size item b hs) [
        | none ↦ none
        | some (found, hs') ↦ some (found, digested hash h item ∷ hs')
      ]
    ]
  ]

  pub add : BloomFilter B H → Bytes → Option (BloomFilter B H)
  unfolding add_all
  add bf item = elim (add_all bf.size item bf.bitset bf.hash_funcs) [
    | none ↦ none
    | some (b, hs) ↦ some (record bf { bitset = b; hash_funcs = hs })
  ]

  pub contains : BloomFilter B H → Bytes → Option (Bool × BloomFilter B H)
  unfolding contains_all
  contains bf item = elim (contains_all bf.size item bf.bitset bf.hash_funcs) [
    | none ↦ none
    | some (found, hs) ↦ some (found, record bf { hash_funcs = hs })
  ]
