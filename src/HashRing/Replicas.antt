-- ===== src/HashRing/Replicas.antt =====
-- The nodes that GetN collects.
use chat_room.Prelude.{
  ℕ, zero, suc, ◌+◌, ◌%◌, ◌≤◌, ◌≡◌, inl, inr, refl, ◌∙◌, String, Bool-cases, true, false, some,
  List, [], ◌∷◌, ◌++◌, length-append, ◌==◌, leb, ltb, if◌then◌else◌, length, str_eq, eq_iff, arith,
}
use chat_room.Prelude.Int.{pos}
use chat_room.Prelude.Utf8.{bytes_of}
use chat_room.HashRing.{Ring, has_node, at_index, search, collect, get_n}

-- No node stands twice.
abbrev pub Unique : List String → Type 0
Unique [] = Unit {0}
Unique (n ∷ ns) = (has_node ns n ≡ false) × Unique ns

has_node-append :
    (ns : List String) (n o : String)
    → has_node (ns ++ n ∷ []) o ≡ (if str_eq n o then true else has_node ns o)
unfolding has_node
has_node-append [] n o = refl
has_node-append (m ∷ ns) n o = ground (arith, has_node-append ns n o)

Unique-append :
    (ns : List String) (n : String) → has_node ns n ≡ false → Unique ns → Unique (ns ++ n ∷ [])
unfolding has_node
Unique-append [] n h u = (refl, tt)
Unique-append (m ∷ ns) n h u = (
  has_node-append ns n m ∙ ground (arith, eq_iff m n, eq_iff n m, h, u.0),
  Unique-append ns n (ground (arith, h)) u.1,
)

collect-Unique :
    (r : Ring) (n idx left i : ℕ) (result : List String)
    → Unique result
    → length result ≤ n
    → Unique (collect r n idx left i result) × (length (collect r n idx left i result) ≤ n)
unfolding collect
collect-Unique r n idx zero i result u l = (u, l)
collect-Unique r n idx (suc left) i result u l = elim (Bool-cases (leb n (length result))) [
  | inl e ↦ rw (e, collect) (u, l)
  | inr e ↦ elim (Bool-cases (has_node result (at_index r ((idx + i) % length r.keys)))) [
    | inl h ↦ rw (e, collect, h) (collect-Unique r n idx left (i + 1) result u l)
    | inr h ↦
        rw (e, collect, h)
          (collect-Unique r n idx left (i + 1)
            (result ++ at_index r ((idx + i) % length r.keys) ∷ [])
            (Unique-append result (at_index r ((idx + i) % length r.keys)) h u)
            (rw (length-append result (at_index r ((idx + i) % length r.keys) ∷ []))
              (ground arith)))
  ]
]

-- GetN of a number returns at most that many nodes, no more than the ring has, each once.
pub get_n-Unique :
    (hash : List ℕ → ℕ) (r : Ring) (key : String) (n : ℕ)
    → (ns : List String) × (get_n hash r key (pos n) ≡ some ns)
      × Unique ns
      × (length ns ≤ n)
      × (length ns ≤ length r.nodes)
unfolding get_n
get_n-Unique hash r key n = elim (Bool-cases (length r.nodes == 0)) [
  | inl e ↦ ([], rw e refl, tt, omega arith, omega arith)
  | inr e ↦
      let most = if ltb (length r.nodes) n then length r.nodes else n in
      let (u, l) =
        collect-Unique r most (search r.keys (hash (bytes_of key))) (length r.keys) 0 [] tt
          (omega arith) in
      (
        collect r most (search r.keys (hash (bytes_of key))) (length r.keys) 0 [],
        rw e refl,
        u,
        most_n (length r.nodes) n l,
        most_nodes (length r.nodes) n l,
      )
]
  where
    most_n : {k : ℕ} (nodes n : ℕ) → k ≤ (if ltb nodes n then nodes else n) → k ≤ n
    most_n nodes n h = ground arith

    most_nodes : {k : ℕ} (nodes n : ℕ) → k ≤ (if ltb nodes n then nodes else n) → k ≤ nodes
    most_nodes nodes n h = ground arith
