-- ===== src/Prelude/Dict.antt =====
-- Go's maps with string keys, as association lists. A Go map iterates in an arbitrary order: the
-- order of the entries stands for one such order.
use chat_room.Prelude.{
  String, ◌≡◌, refl, Option, none, some, List, [], ◌∷◌, arith, str_eq, eq_iff, if◌then◌else◌, ◌⊎◌,
  inl, inr, Bool-cases,
}

abbrev pub Dict {ℓ} : Type ℓ → Type ℓ
Dict V = List (String × V)

module _ {V : Type 0} where
  unfoldable pub lookup : String → Dict V → Option V
  lookup k [] = none
  lookup k ((j, v) ∷ d) = if str_eq j k then some v else lookup k d

  -- d[k] = v
  unfoldable pub insert : String → V → Dict V → Dict V
  insert k v [] = (k, v) ∷ []
  insert k v ((j, w) ∷ d) = if str_eq j k then (k, v) ∷ d else (j, w) ∷ insert k v d

  -- delete(d, k)
  unfoldable pub remove : String → Dict V → Dict V
  remove k [] = []
  remove k ((j, v) ∷ d) = let rest = remove k d in if str_eq j k then rest else (j, v) ∷ rest

  -- No key stands twice.
  abbrev pub Distinct : Dict V → Type 0
  Distinct [] = Unit {0}
  Distinct ((k, v) ∷ d) = (lookup k d ≡ none) × Distinct d

  abbrev pub Has : Dict V → String → V → Type 0
  Has [] k v = ⊥
  Has ((j, w) ∷ d) k v = ((j ≡ k) × (w ≡ v)) ⊎ Has d k v

  pub lookup-insert :
      (k j : String) (v : V) (d : Dict V)
      → lookup j (insert k v d) ≡ (if str_eq k j then some v else lookup j d)
  unfolding lookup insert
  lookup-insert k j v [] = refl
  lookup-insert k j v ((i, w) ∷ d) =
      ground (arith, eq_iff k j, eq_iff i k, eq_iff i j, lookup-insert k j v d)

  pub lookup-remove :
      (k j : String) (d : Dict V)
      → lookup j (remove k d) ≡ (if str_eq k j then none else lookup j d)
  unfolding lookup remove
  lookup-remove k j [] = ground arith
  lookup-remove k j ((i, w) ∷ d) =
      ground (arith, eq_iff k j, eq_iff i k, eq_iff i j, lookup-remove k j d)

  pub Distinct-insert : (k : String) (v : V) (d : Dict V) → Distinct d → Distinct (insert k v d)
  unfolding insert lookup
  Distinct-insert k v [] h = (refl, tt)
  Distinct-insert k v ((i, w) ∷ d) h = elim (Bool-cases (str_eq i k)) [
    | inl e ↦ rw e (ground (arith, eq_iff i k))
    | inr e ↦
        rw e
          (ground (arith, eq_iff k i, eq_iff i k, lookup-insert k i v d), Distinct-insert k v d h.1)
  ]

  pub Distinct-remove : (k : String) (d : Dict V) → Distinct d → Distinct (remove k d)
  unfolding remove
  Distinct-remove k [] h = tt
  Distinct-remove k ((i, w) ∷ d) h = elim (Bool-cases (str_eq i k)) [
    | inl e ↦ rw e (Distinct-remove k d h.1)
    | inr e ↦ rw e (ground (arith, lookup-remove k i d), Distinct-remove k d h.1)
  ]

  pub Has-lookup : (d : Dict V) (k : String) (v : V) → lookup k d ≡ some v → Has d k v
  unfolding lookup
  Has-lookup [] k v h = cc
  Has-lookup ((j, w) ∷ d) k v h = ground (arith, eq_iff j k, Has-lookup d k v)

  pub lookup-Has : (d : Dict V) (k : String) (v : V) → Distinct d → Has d k v → lookup k d ≡ some v
  unfolding lookup
  lookup-Has [] k v u h = absurd h
  lookup-Has ((j, w) ∷ d) k v u (inl h) = ground (arith, eq_iff j k)
  lookup-Has ((j, w) ∷ d) k v u (inr h) = ground (arith, eq_iff j k, lookup-Has d k v u.1 h)
