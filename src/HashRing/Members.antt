-- ===== src/HashRing/Members.antt =====
-- The nodes that the positions of the ring lead to.
use chat_room.Prelude.{ℕ, zero, suc, inl, inr, String, Bool-cases, List, [], ◌∷◌, str_eq, arith}
use chat_room.Prelude.Int.{ℤ, pos, negsuc}
use chat_room.HashRing.{
  Ring, new_ring, has_node, node_at, add_node, add_nodes, add, remove_node, remove_nodes, remove,
}
use chat_room.HashRing.Owners.{
  Owned, Mapped, place-Owned, place-Mapped, first_node, grown, same_nodes, resorted, sorted_keys,
  shrunk, rebuilt, rebuilt-Mapped,
}

module _ (hash : List ℕ → ℕ) where
  add_node-Owned : (node : String) (r : Ring) → Owned hash r → Owned hash (add_node hash node r)
  unfolding add_node
  add_node-Owned node r o = elim (Bool-cases (str_eq node "")) [
    | inl e ↦ rw e o
    | inr e ↦ elim (Bool-cases (has_node r.nodes node)) [
      | inl h ↦ rw (e, h) o
      | inr h ↦
          rw (e, h)
            (place-Owned hash node r.replicas 0 (record r { nodes = node ∷ r.nodes }) (omega arith)
              (first_node hash node r.nodes) (grown hash node r o))
    ]
  ]

  add_node-Mapped : (node : String) (r : Ring) → Mapped hash r → Mapped hash (add_node hash node r)
  unfolding add_node
  add_node-Mapped node r m = elim (Bool-cases (str_eq node "")) [
    | inl e ↦ rw e m
    | inr e ↦ elim (Bool-cases (has_node r.nodes node)) [
      | inl h ↦ rw (e, h) m
      | inr h ↦
          rw (e, h)
            (place-Mapped hash node r.replicas 0 (record r { nodes = node ∷ r.nodes })
              (same_nodes hash node r m))
    ]
  ]

  add_nodes-IsWellFormed :
      (ns : List String) (r : Ring)
      → Owned hash r
      → Mapped hash r
      → Owned hash (add_nodes hash ns r) × Mapped hash (add_nodes hash ns r)
  unfolding add_nodes
  add_nodes-IsWellFormed [] r o m = (o, m)
  add_nodes-IsWellFormed (n ∷ ns) r o m =
      add_nodes-IsWellFormed ns (add_node hash n r) (add_node-Owned n r o) (add_node-Mapped n r m)

  add-IsWellFormed :
      (ns : List String) (r : Ring)
      → Owned hash r
      → Mapped hash r
      → Owned hash (add hash ns r) × Mapped hash (add hash ns r)
  unfolding add
  add-IsWellFormed ns r o m =
      let (owned, mapped) = add_nodes-IsWellFormed ns r o m in
      (resorted hash (add_nodes hash ns r) owned, sorted_keys hash (add_nodes hash ns r) mapped)

  remove_node-Owned :
      (node : String) (r : Ring) → Owned hash r → Owned hash (remove_node hash node r)
  unfolding remove_node
  remove_node-Owned node r o = elim (Bool-cases (str_eq node "")) [
    | inl e ↦ rw e o
    | inr e ↦ elim (Bool-cases (has_node r.nodes node)) [
      | inl h ↦ rw (e, h) (shrunk hash node r o)
      | inr h ↦ rw (e, h) o
    ]
  ]

  remove_nodes-Owned :
      (ns : List String) (r : Ring) → Owned hash r → Owned hash (remove_nodes hash ns r)
  unfolding remove_nodes
  remove_nodes-Owned [] r o = o
  remove_nodes-Owned (n ∷ ns) r o =
      remove_nodes-Owned ns (remove_node hash n r) (remove_node-Owned n r o)

  remove-IsWellFormed :
      (ns : List String) (r : Ring)
      → Owned hash r
      → Owned hash (remove hash ns r) × Mapped hash (remove hash ns r)
  unfolding remove
  remove-IsWellFormed ns r o =
      let owned = remove_nodes-Owned ns r o in
      (rebuilt hash (remove_nodes hash ns r) owned, rebuilt-Mapped hash (remove_nodes hash ns r))

-- The calls that change a ring.
pub data Call : Type 0 where
  adds removes : List String → Call

module _ (hash : List ℕ → ℕ) where
  unfoldable pub run : Ring → List Call → Ring
  run r [] = r
  run r (adds ns ∷ cs) = run (add hash ns r) cs
  run r (removes ns ∷ cs) = run (remove hash ns r) cs

  run-IsWellFormed :
      (cs : List Call) (r : Ring)
      → Owned hash r
      → Mapped hash r
      → Owned hash (run r cs) × Mapped hash (run r cs)
  unfolding run
  run-IsWellFormed [] r o m = (o, m)
  run-IsWellFormed (adds ns ∷ cs) r o m =
      let (owned, mapped) = add-IsWellFormed hash ns r o m in
      run-IsWellFormed cs (add hash ns r) owned mapped
  run-IsWellFormed (removes ns ∷ cs) r o m =
      let (owned, mapped) = remove-IsWellFormed hash ns r o in
      run-IsWellFormed cs (remove hash ns r) owned mapped

  new_ring-Owned : (n : ℤ) → Owned hash (new_ring n)
  unfolding Owned new_ring node_at
  new_ring-Owned (pos zero) k o h = cc
  new_ring-Owned (pos (suc n)) k o h = cc
  new_ring-Owned (negsuc n) k o h = cc

  new_ring-Mapped : (n : ℤ) → Mapped hash (new_ring n)
  unfolding Mapped new_ring
  new_ring-Mapped (pos zero) k h = absurd h
  new_ring-Mapped (pos (suc n)) k h = absurd h
  new_ring-Mapped (negsuc n) k h = absurd h

  -- After any calls of Add and Remove on a new ring, whatever the hash function, each position leads
  -- to a node that is in the ring and has a virtual node there, and each key is a position.
  pub run-new_ring :
      (replicas : ℤ) (cs : List Call)
      → Owned hash (run (new_ring replicas) cs) × Mapped hash (run (new_ring replicas) cs)
  run-new_ring replicas cs =
      run-IsWellFormed cs (new_ring replicas) (new_ring-Owned replicas) (new_ring-Mapped replicas)
