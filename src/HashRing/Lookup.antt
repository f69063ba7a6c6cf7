-- ===== src/HashRing/Lookup.antt =====
-- The node that a key leads to.
use chat_room.Prelude.{
  ℕ, zero, suc, ◌<◌, ◌≤◌, ◌≡◌, ◌≢◌, ◌⊎◌, inl, inr, refl, ap, String, Bool-cases, true, false, some,
  List, [], ◌∷◌, ◌==◌, leb, length, get_elem?, Any, All, arith,
}
use chat_room.Prelude.Int.{ℤ, pos, negsuc}
use chat_room.Prelude.Utf8.{bytes_of}
use chat_room.HashRing.{
  Ring, new_ring, has_node, node_at, insert_sorted, sort, search, wrapped, at_index, get, add,
  remove, rebuild_keys, add_nodes, remove_nodes, positions,
}
use chat_room.HashRing.Owners.{Owned, Mapped}
use chat_room.HashRing.Names.{IsNamed, new_ring-IsNamed}
use chat_room.HashRing.Members.{Call, adds, removes, run, run-new_ring}

abbrev pub IsSorted : List ℕ → Type 0
IsSorted [] = Unit {0}
IsSorted (k ∷ ks) = All (λ j. k ≤ j) ks × IsSorted ks

-- The first key at or after a hash, going round the ring: the least that is no smaller, or the
-- least of all where all are smaller.
abbrev pub IsNearest : List ℕ → ℕ → ℕ → Type 0
IsNearest keys hash k =
    Any (λ j. j ≡ k) keys
    × (((hash ≤ k) × All (λ j. (j < hash) ⊎ (k ≤ j)) keys)
        ⊎ (All (λ j. j < hash) keys × All (λ j. k ≤ j) keys))

All-le : (ks : List ℕ) (i j : ℕ) → i ≤ j → All (λ k. j ≤ k) ks → All (λ k. i ≤ k) ks
All-le [] i j h a = tt
All-le (k ∷ ks) i j h a = (omega arith, All-le ks i j h a.1)

All-right : (ks : List ℕ) (hash k : ℕ) → All (λ j. k ≤ j) ks → All (λ j. (j < hash) ⊎ (k ≤ j)) ks
All-right [] hash k a = tt
All-right (j ∷ js) hash k a = (inr a.0, All-right js hash k a.1)

All-insert_sorted :
    (ks : List ℕ) (i k : ℕ) → i ≤ k → All (λ j. i ≤ j) ks → All (λ j. i ≤ j) (insert_sorted k ks)
unfolding insert_sorted
All-insert_sorted [] i k h a = (h, tt)
All-insert_sorted (j ∷ js) i k h a = elim (Bool-cases (leb k j)) [
  | inl e ↦ rw e (h, a)
  | inr e ↦ rw e (a.0, All-insert_sorted js i k h a.1)
]

insert_sorted-IsSorted : (k : ℕ) (ks : List ℕ) → IsSorted ks → IsSorted (insert_sorted k ks)
unfolding insert_sorted
insert_sorted-IsSorted k [] s = (tt, tt)
insert_sorted-IsSorted k (j ∷ js) s = elim (Bool-cases (leb k j)) [
  | inl e ↦ rw e ((ground arith, All-le js k j (ground arith) s.0), s)
  | inr e ↦ rw e (All-insert_sorted js j k (ground arith) s.0, insert_sorted-IsSorted k js s.1)
]

sort-IsSorted : (ks : List ℕ) → IsSorted (sort ks)
unfolding sort
sort-IsSorted [] = tt
sort-IsSorted (k ∷ ks) = insert_sorted-IsSorted k (sort ks) (sort-IsSorted ks)

-- Where the search ends in sorted keys.
search-IsNearest :
    (ks : List ℕ) (hash : ℕ)
    → IsSorted ks
    → ((search ks hash ≡ length ks) × All (λ j. j < hash) ks)
      ⊎ ((k : ℕ) × (get_elem? ks (search ks hash) ≡ some k)
          × (search ks hash < length ks)
          × Any (λ j. j ≡ k) ks
          × (hash ≤ k)
          × All (λ j. (j < hash) ⊎ (k ≤ j)) ks)
unfolding search
search-IsNearest [] hash s = inl (refl, tt)
search-IsNearest (k ∷ ks) hash s = elim (Bool-cases (leb hash k)) [
  | inl e ↦ inr (
    k,
    rw e refl,
    rw e (omega arith),
    inl refl,
    ground arith,
    (inr (omega arith), All-right ks hash k s.0),
  )
  | inr e ↦ elim (search-IsNearest ks hash s.1) [
    | inl (l, a) ↦ inl (rw e (ap suc l), (ground arith, a))
    | inr (j, found, l, i, h, a) ↦
        inr (j, rw e found, rw e (omega arith), inr i, h, (inl (ground arith), a))
  ]
]

List-cases : (ks : List ℕ) → (ks ≡ []) ⊎ (0 < length ks)
List-cases [] = inl refl
List-cases (k ∷ ks) = inr (omega arith)

==_self : (n : ℕ) → (n == n) ≡ true
==_self n = ground arith

below : (i n : ℕ) → i < n → (i == n) ≡ false
below i n h = ground arith

module _ (hash : List ℕ → ℕ) where
  run-IsSorted : (cs : List Call) (r : Ring) → IsSorted r.keys → IsSorted (run hash r cs).keys
  unfolding run add remove rebuild_keys
  run-IsSorted [] r s = s
  run-IsSorted (adds ns ∷ cs) r s =
      run-IsSorted cs (add hash ns r) (sort-IsSorted (add_nodes hash ns r).keys)
  run-IsSorted (removes ns ∷ cs) r s =
      run-IsSorted cs (remove hash ns r)
        (sort-IsSorted (positions (remove_nodes hash ns r).hash_map))

  new_ring-IsSorted : (n : ℤ) → IsSorted (new_ring n).keys
  unfolding new_ring
  new_ring-IsSorted (pos zero) = tt
  new_ring-IsSorted (pos (suc n)) = tt
  new_ring-IsSorted (negsuc n) = tt

  -- The index that Get takes, after it has gone round.
  index-IsNearest :
      (ks : List ℕ) (h : ℕ)
      → IsSorted ks
      → 0 < length ks
      → (k : ℕ) × (get_elem? ks (wrapped (length ks) (search ks h)) ≡ some k) × IsNearest ks h k
  unfolding wrapped
  index-IsNearest [] h s l = absurd (omega arith)
  index-IsNearest (k ∷ ks) h s l = elim (search-IsNearest (k ∷ ks) h s) [
    | inl (e, a) ↦
        (k, rw (e, ==_self (length (k ∷ ks))) refl, (inl refl, inr (a, (omega arith, s.0))))
    | inr (j, found, less, i, up, a) ↦
        (j, rw (below (search (k ∷ ks) h) (length (k ∷ ks)) less) found, (i, inl (up, a)))
  ]

  get-some :
      (r : Ring) (key : String) (k : ℕ) (n : String)
      → (length r.keys == 0) ≡ false
      → get_elem? r.keys (wrapped (length r.keys) (search r.keys (hash (bytes_of key)))) ≡ some k
      → node_at r.hash_map k ≡ some n
      → get hash r key ≡ n
  unfolding get at_index
  get-some r key k n l found at = rw (l, at_index, found, at) refl

  at_index-IsNearest :
      (r : Ring) (key : String)
      → IsSorted r.keys
      → Owned hash r × Mapped hash r
      → ((r.keys ≡ []) × (get hash r key ≡ ""))
        ⊎ ((k : ℕ) × IsNearest r.keys (hash (bytes_of key)) k
            × (node_at r.hash_map k ≡ some (get hash r key))
            × (has_node r.nodes (get hash r key) ≡ true))
  unfolding get Owned Mapped
  at_index-IsNearest r key s (o, m) = elim (List-cases r.keys) [
    | inl e ↦ inl (e, rw e refl)
    | inr l ↦
        let (k, found, near) = index-IsNearest r.keys (hash (bytes_of key)) s l in
        let (n, at) = m k near.0 in
        let same : get hash r key ≡ n = get-some r key k n (ground arith) found at in
        inr (k, near, rw same at, rw same (o k n at).0)
  ]

  named : (r : Ring) (n : String) → IsNamed r → has_node r.nodes n ≡ true → n ≢ ""
  named r n none_empty known e = (let known' = (rw e at known) in cc (known', none_empty))

  -- Get, on a ring that any calls have led to, returns the node of the first key at or after the
  -- hash, going round, and that node is in the ring and has a name; it returns the empty name just
  -- where the ring has no key.
  pub get-IsNearest :
      (replicas : ℤ) (cs : List Call) (key : String)
      → let r = run hash (new_ring replicas) cs in
        ((r.keys ≡ []) × (get hash r key ≡ ""))
        ⊎ ((k : ℕ) × IsNearest r.keys (hash (bytes_of key)) k
            × (node_at r.hash_map k ≡ some (get hash r key))
            × (has_node r.nodes (get hash r key) ≡ true)
            × (get hash r key ≢ ""))
  get-IsNearest replicas cs key =
      let r = run hash (new_ring replicas) cs in
      elim (at_index-IsNearest r key
        (run-IsSorted cs (new_ring replicas) (new_ring-IsSorted replicas))
        (run-new_ring hash replicas cs)) [
          | inl empty ↦ inl empty
          | inr (k, near, at, known) ↦ inr (
            k,
            near,
            at,
            known,
            named r (get hash r key) (new_ring-IsNamed hash replicas cs) known,
          )
        ]
