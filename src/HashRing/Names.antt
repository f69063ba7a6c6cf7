-- ===== src/HashRing/Names.antt =====
-- Add refuses the empty name, so no node of a ring has it.
use chat_room.Prelude.{
  ◌+◌, ℕ, zero, suc, inl, inr, ◌≡◌, refl, String, Bool-cases, false, List, [], ◌∷◌, str_eq, eq_iff,
  arith,
}
use chat_room.Prelude.Int.{ℤ, pos, negsuc}
use chat_room.HashRing.{
  Ring, new_ring, has_node, delete_node, place, add_node, add_nodes, add, remove_node, remove_nodes,
  remove, rebuild_keys,
}
use chat_room.HashRing.Members.{Call, adds, removes, run}

abbrev pub IsNamed : Ring → Type 0
IsNamed r = has_node r.nodes "" ≡ false

deleted :
    (ns : List String) (n : String)
    → has_node ns "" ≡ false
    → has_node (delete_node ns n) "" ≡ false
unfolding has_node delete_node
deleted [] n h = h
deleted (m ∷ ns) n h = ground (arith, deleted ns n)

module _ (hash : List ℕ → ℕ) where
  place-nodes : (node : String) (left i : ℕ) (r : Ring) → (place hash node left i r).nodes ≡ r.nodes
  unfolding place
  place-nodes node zero i r = refl
  place-nodes node (suc left) i r = place-nodes node left (i + 1) _

  add_node-IsNamed : (n : String) (r : Ring) → IsNamed r → IsNamed (add_node hash n r)
  unfolding add_node has_node
  add_node-IsNamed n r h = elim (Bool-cases (str_eq n "")) [
    | inl e ↦ rw e h
    | inr e ↦ elim (Bool-cases (has_node r.nodes n)) [
      | inl k ↦ rw (e, k) h
      | inr k ↦
          rw (e, k, place-nodes n r.replicas 0 (record r { nodes = n ∷ r.nodes }))
            (ground (arith, e, h, eq_iff n ""))
    ]
  ]

  add_nodes-IsNamed : (ns : List String) (r : Ring) → IsNamed r → IsNamed (add_nodes hash ns r)
  unfolding add_nodes
  add_nodes-IsNamed [] r h = h
  add_nodes-IsNamed (n ∷ ns) r h = add_nodes-IsNamed ns (add_node hash n r) (add_node-IsNamed n r h)

  remove_node-IsNamed : (n : String) (r : Ring) → IsNamed r → IsNamed (remove_node hash n r)
  unfolding remove_node
  remove_node-IsNamed n r h = elim (Bool-cases (str_eq n "")) [
    | inl e ↦ rw e h
    | inr e ↦ elim (Bool-cases (has_node r.nodes n)) [
      | inl k ↦ rw (e, k) (deleted r.nodes n h)
      | inr k ↦ rw (e, k) h
    ]
  ]

  remove_nodes-IsNamed :
      (ns : List String) (r : Ring) → IsNamed r → IsNamed (remove_nodes hash ns r)
  unfolding remove_nodes
  remove_nodes-IsNamed [] r h = h
  remove_nodes-IsNamed (n ∷ ns) r h =
      remove_nodes-IsNamed ns (remove_node hash n r) (remove_node-IsNamed n r h)

  run-IsNamed : (cs : List Call) (r : Ring) → IsNamed r → IsNamed (run hash r cs)
  unfolding run add remove rebuild_keys
  run-IsNamed [] r h = h
  run-IsNamed (adds ns ∷ cs) r h = run-IsNamed cs (add hash ns r) (add_nodes-IsNamed ns r h)
  run-IsNamed (removes ns ∷ cs) r h =
      run-IsNamed cs (remove hash ns r) (remove_nodes-IsNamed ns r h)

  pub new_ring-IsNamed : (replicas : ℤ) (cs : List Call) → IsNamed (run hash (new_ring replicas) cs)
  unfolding new_ring has_node
  new_ring-IsNamed (pos zero) cs = run-IsNamed cs _ refl
  new_ring-IsNamed (pos (suc n)) cs = run-IsNamed cs _ refl
  new_ring-IsNamed (negsuc n) cs = run-IsNamed cs _ refl
