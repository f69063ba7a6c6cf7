-- ===== src/HashRing/Examples.antt =====
-- A ring of two nodes under a hash that counts the bytes.
use chat_room.Prelude.{ℕ, ◌≡◌, ◌≢◌, refl, ◌⊎◌, true, List, [], ◌∷◌, some, length}
use chat_room.Prelude.Int.{pos}
use chat_room.Prelude.Utf8.{bytes_of}
use chat_room.HashRing.{Ring, get_n, new_ring, get, node_at, has_node, at_index}
use chat_room.HashRing.Members.{Call, adds, removes, run}
use chat_room.HashRing.Lookup.{IsNearest, get-IsNearest}

abbrev calls : List Call
calls = adds ("node" ∷ "gateway" ∷ []) ∷ removes ("node" ∷ []) ∷ []

get-IsNearest_example :
    let r = run length (new_ring (pos 2)) calls in
    ((r.keys ≡ []) × (get length r "ann" ≡ ""))
    ⊎ ((k : ℕ) × IsNearest r.keys (length (bytes_of "ann")) k
        × (node_at r.hash_map k ≡ some (get length r "ann"))
        × (has_node r.nodes (get length r "ann") ≡ true)
        × (get length r "ann" ≢ ""))
get-IsNearest_example = get-IsNearest length (pos 2) calls "ann"

abbrev three : Ring
three = record {
  replicas = 1;
  keys = 1 ∷ 2 ∷ 3 ∷ [];
  hash_map = (1, "a") ∷ (2, "b") ∷ (3, "a") ∷ [];
  nodes = "a" ∷ "b" ∷ [];
}

test_get_n : get_n length three "ann" (pos 5) ≡ some ("a" ∷ "b" ∷ [])
unfolding get_n bytes_of has_node at_index node_at
test_get_n = refl
