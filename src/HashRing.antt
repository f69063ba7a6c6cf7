-- ===== src/HashRing.antt =====
-- utils/consistenthash/consistenthash.go. The hash function is the parameter `hash`, on bytes, with
-- results below 2 ^ 32. The set of nodes is a list of them, and the map from positions to nodes an
-- association list, each in one of the orders in which Go may iterate. sort.Search on sorted keys
-- finds the first position that is no smaller; slices.Sort is an insertion sort.
pub mod Positions
pub mod Owners
pub mod Names
pub mod Members
pub mod Lookup
pub mod Replicas
mod Examples
use Prim.Native.String.{◌++◌ as ◌+++◌}
use chat_room.Prelude.{
  ℕ, zero, suc, ◌+◌, ◌%◌, String, Bool, true, false, not, ◌&&◌, Option, none, some, List, [], ◌∷◌,
  ◌++◌, ◌==◌, leb, ltb, if◌then◌else◌, length, get_elem?, str_eq,
}
use chat_room.Prelude.Int.{ℤ, pos, negsuc}
use chat_room.Prelude.Decimal.{show}
use chat_room.Prelude.Utf8.{bytes_of}

pub record Ring : Type 0 where
  pub replicas : ℕ
  pub keys : List ℕ
  pub hash_map : List (ℕ × String)
  pub nodes : List String

abbrev pub default_replicas : ℕ
default_replicas = 50

-- New, with the number of replicas that it settles on.
pub new_ring : ℤ → Ring
new_ring (pos zero) = record { replicas = default_replicas; keys = []; hash_map = []; nodes = [] }
new_ring (pos (suc n)) = record { replicas = suc n; keys = []; hash_map = []; nodes = [] }
new_ring (negsuc n) = record { replicas = default_replicas; keys = []; hash_map = []; nodes = [] }

-- r.nodes[node]
pub has_node : List String → String → Bool
has_node [] node = false
has_node (n ∷ ns) node = if str_eq n node then true else has_node ns node

pub delete_node : List String → String → List String
delete_node [] node = []
delete_node (n ∷ ns) node =
    let rest = delete_node ns node in if str_eq n node then rest else n ∷ rest

-- The map from positions to nodes.
pub node_at : List (ℕ × String) → ℕ → Option String
node_at [] k = none
node_at ((j, n) ∷ m) k = if j == k then some n else node_at m k

pub put : List (ℕ × String) → ℕ → String → List (ℕ × String)
put [] k node = (k, node) ∷ []
put ((j, n) ∷ m) k node = if j == k then (k, node) ∷ m else (j, n) ∷ put m k node

pub delete_at : List (ℕ × String) → ℕ → List (ℕ × String)
delete_at [] k = []
delete_at ((j, n) ∷ m) k = let rest = delete_at m k in if j == k then rest else (j, n) ∷ rest

pub insert_sorted : ℕ → List ℕ → List ℕ
insert_sorted k [] = k ∷ []
insert_sorted k (j ∷ js) = if leb k j then k ∷ j ∷ js else j ∷ insert_sorted k js

pub sort : List ℕ → List ℕ
unfolding insert_sorted
sort [] = []
sort (k ∷ ks) = insert_sorted k (sort ks)

-- The first index whose key is no smaller than the hash, or the number of keys.
search : List ℕ → ℕ → ℕ
search [] hash = 0
search (k ∷ ks) hash = if leb hash k then 0 else suc (search ks hash)

pub positions : List (ℕ × String) → List ℕ
positions [] = []
positions ((k, n) ∷ m) = k ∷ positions m

pub rebuild_keys : Ring → Ring
unfolding positions sort
rebuild_keys r = record r { keys = sort (positions r.hash_map) }

-- r.hashMap[r.keys[idx]], which is "" where the map has no such position.
at_index : Ring → ℕ → String
at_index r i = elim (get_elem? r.keys i) [
  | none ↦ ""
  | some k ↦ elim (node_at r.hash_map k) [ none ↦ "" | some n ↦ n ]
]

-- A hash past all keys goes round to the first.
wrapped : ℕ → ℕ → ℕ
wrapped n i = if i == n then 0 else i

pub size : Ring → ℕ
size r = length r.nodes

module _ (hash : List ℕ → ℕ) where
  -- The position of a virtual node.
  pub position : String → ℕ → ℕ
  position node i = hash (bytes_of (node +++ ("#" +++ show i)))

  -- The loop over the virtual nodes of Add, with the replicas left.
  pub place : String → ℕ → ℕ → Ring → Ring
  unfolding put position
  place node zero i r = r
  place node (suc left) i r = place node left (i + 1) (record r {
    keys = position node i ∷ r.keys;
    hash_map = put r.hash_map (position node i) node;
  })

  add_node : String → Ring → Ring
  unfolding place
  add_node node r =
      if str_eq node ""
      then r
      else if has_node r.nodes node
      then r
      else place node r.replicas 0 (record r { nodes = node ∷ r.nodes })

  add_nodes : List String → Ring → Ring
  unfolding add_node
  add_nodes [] r = r
  add_nodes (n ∷ ns) r = add_nodes ns (add_node n r)

  -- Add appends the keys at the end and sorts them last; the order before that is lost.
  pub add : List String → Ring → Ring
  unfolding add_nodes sort
  add ns r = let r' = add_nodes ns r in record r' { keys = sort r'.keys }

  -- The loop over the virtual nodes of Remove, with the replicas left.
  pub displace : String → ℕ → ℕ → List (ℕ × String) → List (ℕ × String)
  unfolding delete_at position
  displace node zero i m = m
  displace node (suc left) i m = displace node left (i + 1) (delete_at m (position node i))

  remove_node : String → Ring → Ring
  unfolding displace delete_node
  remove_node node r =
      if str_eq node "" then r else if not (has_node r.nodes node) then r else record r {
        nodes = delete_node r.nodes node;
        hash_map = displace node r.replicas 0 r.hash_map;
      }

  remove_nodes : List String → Ring → Ring
  unfolding remove_node
  remove_nodes [] r = r
  remove_nodes (n ∷ ns) r = remove_nodes ns (remove_node n r)

  pub remove : List String → Ring → Ring
  unfolding remove_nodes rebuild_keys
  remove ns r = rebuild_keys (remove_nodes ns r)

  pub get : Ring → String → String
  unfolding at_index search wrapped
  get r key =
      if length r.keys == 0
      then ""
      else at_index r (wrapped (length r.keys) (search r.keys (hash (bytes_of key))))

-- The loop of GetN, with the keys left to look at; what was seen is the result so far.
collect : Ring → ℕ → ℕ → ℕ → ℕ → List String → List String
collect r n idx zero i result = result
collect r n idx (suc left) i result = elim (leb n (length result)) [
  | true ↦ result
  | false ↦
      let node = at_index r ((idx + i) % length r.keys) in
      collect r n idx left (i + 1) (if has_node result node then result else result ++ node ∷ [])
]

-- GetN; none is the panic of a slice with a negative capacity.
pub get_n : (List ℕ → ℕ) → Ring → String → ℤ → Option (List String)
unfolding collect search
get_n hash r key n = if length r.nodes == 0 then some [] else elim n [
  | negsuc m ↦ none
  | pos m ↦ some (
      collect r (if ltb (length r.nodes) m then length r.nodes else m)
        (search r.keys (hash (bytes_of key))) (length r.keys) 0 [])
]
