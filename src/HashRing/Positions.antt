-- ===== src/HashRing/Positions.antt =====
-- The map from positions to nodes, and the sorted keys.
use chat_room.Prelude.{
  ℕ, zero, suc, ◌<◌, ◌≡◌, ◌⊎◌, inl, inr, refl, String, Bool-cases, false, none, some, List, [], ◌∷◌,
  ◌==◌, leb, if◌then◌else◌, length, get_elem?, str_eq, eq_iff, Any, arith,
}
use chat_room.HashRing.{
  has_node, delete_node, node_at, put, delete_at, insert_sorted, sort, positions,
}

pub node_at-put :
    (m : List (ℕ × String)) (k j : ℕ) (n : String)
    → node_at (put m k n) j ≡ (if k == j then some n else node_at m j)
unfolding node_at put
node_at-put [] k j n = refl
node_at-put ((i, o) ∷ m) k j n = ground (arith, node_at-put m k j n)

pub node_at-delete_at :
    (m : List (ℕ × String)) (k j : ℕ)
    → node_at (delete_at m k) j ≡ (if k == j then none else node_at m j)
unfolding node_at delete_at
node_at-delete_at [] k j = ground arith
node_at-delete_at ((i, o) ∷ m) k j = ground (arith, node_at-delete_at m k j)

pub has_node-delete_node :
    (ns : List String) (node n : String)
    → has_node (delete_node ns node) n ≡ (if str_eq node n then false else has_node ns n)
unfolding has_node delete_node
has_node-delete_node [] node n = ground arith
has_node-delete_node (o ∷ ns) node n =
    ground (arith, eq_iff o node, eq_iff o n, eq_iff node n, has_node-delete_node ns node n)

pub positions-node_at :
    (m : List (ℕ × String)) (k : ℕ)
    → Any (λ j. j ≡ k) (positions m)
    → (n : String) × (node_at m k ≡ some n)
unfolding positions node_at
positions-node_at [] k h = absurd h
positions-node_at ((j, n) ∷ m) k (inl e) = (n, ground arith)
positions-node_at ((j, n) ∷ m) k (inr h) = elim (Bool-cases (j == k)) [
  | inl e ↦ (n, rw e refl)
  | inr e ↦ let (o, found) = positions-node_at m k h in (o, rw e found)
]

Any-insert_sorted :
    (k j : ℕ) (js : List ℕ) → Any (λ i. i ≡ k) (insert_sorted j js) → (j ≡ k) ⊎ Any (λ i. i ≡ k) js
unfolding insert_sorted
Any-insert_sorted k j [] h = ground (arith, h)
Any-insert_sorted k j (i ∷ js) h = elim (Bool-cases (leb j i)) [
  | inl e ↦ rw e at h
  | inr e ↦ elim (rw e at h) [
    | inl same ↦ inr (inl same)
    | inr rest ↦ elim (Any-insert_sorted k j js rest) [ inl a ↦ inl a | inr b ↦ inr (inr b) ]
  ]
]

-- Sorting adds no key.
pub Any-sort : (k : ℕ) (ks : List ℕ) → Any (λ i. i ≡ k) (sort ks) → Any (λ i. i ≡ k) ks
unfolding sort
Any-sort k [] h = h
Any-sort k (j ∷ js) h = elim (Any-insert_sorted k j (sort js) h) [
  | inl e ↦ inl e
  | inr r ↦ inr (Any-sort k js r)
]

-- An index within the list holds a key of the list.
pub get_elem?-Any :
    (ks : List ℕ) (i : ℕ)
    → i < length ks
    → (k : ℕ) × (get_elem? ks i ≡ some k) × Any (λ j. j ≡ k) ks
get_elem?-Any [] i h = absurd (omega arith)
get_elem?-Any (k ∷ ks) zero h = (k, refl, inl refl)
get_elem?-Any (k ∷ ks) (suc i) h = let (j, e, a) = get_elem?-Any ks i (omega arith) in (j, e, inr a)
