-- ===== src/HashRing/Owners.antt =====
-- The nodes that the positions lead to, as virtual nodes are placed and taken away.
use chat_room.Prelude.{
  ℕ, zero, suc, ◌+◌, ◌<◌, ◌≤◌, ◌≡◌, ◌≢◌, inl, inr, refl, sym, ap, ◌∙◌, String, Bool-cases, true,
  false, some, List, ◌∷◌, ◌==◌, ==_iff, if◌then◌else◌, str_eq, eq_iff, eq_refl, Any, arith,
}
use chat_room.HashRing.{
  Ring, has_node, delete_node, node_at, put, delete_at, sort, position, place, displace, positions,
  rebuild_keys,
}
use chat_room.HashRing.Positions.{
  node_at-put, node_at-delete_at, has_node-delete_node, positions-node_at, Any-sort,
}

module _ (hash : List ℕ → ℕ) where
  -- Each position leads to a node of the ring, and is that of one of its virtual nodes.
  unfoldable pub Owned : Ring → Type 0
  Owned r =
      (k : ℕ) (n : String)
      → node_at r.hash_map k ≡ some n
      → (has_node r.nodes n ≡ true) × (i : ℕ) × (i < r.replicas) × (position hash n i ≡ k)

  -- Each key is a position.
  unfoldable pub Mapped : Ring → Type 0
  Mapped r = (k : ℕ) → Any (λ j. j ≡ k) r.keys → (n : String) × (node_at r.hash_map k ≡ some n)

  place-nodes :
      (node : String) (left i : ℕ) (r : Ring)
      → ((place hash node left i r).nodes ≡ r.nodes)
        × ((place hash node left i r).replicas ≡ r.replicas)
  unfolding place
  place-nodes node zero i r = (refl, refl)
  place-nodes node (suc left) i r = place-nodes node left (i + 1) (record r {
    keys = position hash node i ∷ r.keys;
    hash_map = put r.hash_map (position hash node i) node;
  })

  pub place-Owned :
      (node : String) (left i : ℕ) (r : Ring)
      → i + left ≡ r.replicas
      → has_node r.nodes node ≡ true
      → Owned r
      → Owned (place hash node left i r)
  unfolding place Owned
  place-Owned node zero i r e h o = o
  place-Owned node (suc left) i r e h o =
      place-Owned node left (i + 1)
        (record r {
          keys = position hash node i ∷ r.keys;
          hash_map = put r.hash_map (position hash node i) node;
        })
        (omega arith) h
        (λ k n found.
          owner k n (sym (node_at-put r.hash_map (position hash node i) k node) ∙ found))
    where
      owner :
          (k : ℕ) (n : String)
          → (if position hash node i == k then some node else node_at r.hash_map k) ≡ some n
          → (has_node r.nodes n ≡ true) × (j : ℕ) × (j < r.replicas) × (position hash n j ≡ k)
      owner k n found = elim (Bool-cases (position hash node i == k)) [
        | inl at ↦
            let same : node ≡ n = ground (arith, found, at) in
            rw (← same) (h, i, omega arith, (==_iff (position hash node i) k).0 at)
        | inr off ↦ o k n (rw off at found)
      ]

  pub place-Mapped :
      (node : String) (left i : ℕ) (r : Ring) → Mapped r → Mapped (place hash node left i r)
  unfolding place Mapped
  place-Mapped node zero i r m = m
  place-Mapped node (suc left) i r m =
      place-Mapped node left (i + 1)
        (record r {
          keys = position hash node i ∷ r.keys;
          hash_map = put r.hash_map (position hash node i) node;
        })
        (λ k h. elim (Bool-cases (position hash node i == k)) [
          | inl at ↦ (node, node_at-put r.hash_map (position hash node i) k node ∙ rw at refl)
          | inr off ↦ elim h [
            | inl same ↦ absurd (apart k off same)
            | inr a ↦
                let (n, found) = m k a in
                (n, node_at-put r.hash_map (position hash node i) k node ∙ rw off found)
          ]
        ])
    where
      apart : (k : ℕ) → (position hash node i == k) ≡ false → position hash node i ≢ k
      apart k off same = cc (off, (==_iff (position hash node i) k).1 same)

  -- The positions that a removal leaves are none of the node's virtual nodes.
  displace-node_at :
      (node : String) (left i : ℕ) (m : List (ℕ × String)) (k : ℕ) (n : String)
      → node_at (displace hash node left i m) k ≡ some n
      → (node_at m k ≡ some n) × ((j : ℕ) → i ≤ j → j < i + left → position hash node j ≢ k)
  unfolding displace
  displace-node_at node zero i m k n h = (h, λ j l u e. absurd (omega arith))
  displace-node_at node (suc left) i m k n h =
      let (found, others) =
        displace-node_at node left (i + 1) (delete_at m (position hash node i)) k n h in
      let kept = sym (node_at-delete_at m (position hash node i) k) ∙ found in
      elim (Bool-cases (position hash node i == k)) [
        | inl at ↦ (let gone = (rw at at kept) in cc)
        | inr off ↦ (
          rw off at kept,
          λ j l u e. elim (Bool-cases (i == j)) [
            | inl same ↦
                (let here : position hash node i ≡ k =
                    ap (position hash node) ((==_iff i j).0 same) ∙ e in
                  cc (off, (==_iff (position hash node i) k).1 here))
            | inr other ↦ others j (ground arith) (omega arith) e
          ],
        )
      ]

  -- The ring with one more node, before its virtual nodes are placed.
  pub first_node : (node : String) (ns : List String) → has_node (node ∷ ns) node ≡ true
  unfolding has_node
  first_node node ns = rw (eq_refl node) refl

  pub grown : (node : String) (r : Ring) → Owned r → Owned (record r { nodes = node ∷ r.nodes })
  unfolding Owned has_node
  grown node r o k n h = let (has, i, l, at) = o k n h in (ground (arith, has), i, l, at)

  pub same_nodes :
      (node : String) (r : Ring) → Mapped r → Mapped (record r { nodes = node ∷ r.nodes })
  unfolding Mapped
  same_nodes node r m k h = m k h

  pub resorted : (r : Ring) → Owned r → Owned (record r { keys = sort r.keys })
  unfolding Owned
  resorted r o k n h = o k n h

  pub sorted_keys : (r : Ring) → Mapped r → Mapped (record r { keys = sort r.keys })
  unfolding Mapped
  sorted_keys r m k h = m k (Any-sort k r.keys h)

  pub shrunk :
      (node : String) (r : Ring)
      → Owned r
      → Owned (record r {
        nodes = delete_node r.nodes node;
        hash_map = displace hash node r.replicas 0 r.hash_map;
      })
  unfolding Owned
  shrunk node r o k n h =
      let (found, others) = displace-node_at node r.replicas 0 r.hash_map k n h in
      let (has, i, l, at) = o k n found in
      let other : str_eq node n ≡ false = elim (Bool-cases (str_eq node n)) [
        | inl e ↦ absurd (
            others i (omega arith) (omega arith)
              (ap (λ x. position hash x i) ((eq_iff node n).0 e) ∙ at))
        | inr e ↦ e
      ] in
      (has_node-delete_node r.nodes node n ∙ rw other has, i, l, at)

  pub rebuilt : (r : Ring) → Owned r → Owned (rebuild_keys r)
  unfolding Owned rebuild_keys
  rebuilt r o k n h = o k n h

  pub rebuilt-Mapped : (r : Ring) → Mapped (rebuild_keys r)
  unfolding Mapped rebuild_keys
  rebuilt-Mapped r k h = positions-node_at r.hash_map k (Any-sort k (positions r.hash_map) h)
