-- ===== src/LoadBalance/LeastConnections.antt =====
-- The backend that least_connections selects.
use chat_room.Prelude.{
  ℕ, ◌<◌, ◌≤◌, ◌^◌, ◌≡◌, refl, ◌∙◌, Bool-cases, ltb, true, false, ◌||◌, ◌==◌, Option, none, some,
  List, [], ◌∷◌, All, Any, arith, ◌⊎◌, inl, inr,
}
use chat_room.Words.{slt, minus_one}
use chat_room.LoadBalance.{BackendServer, least, least_connections}

-- The counts are not negative, as they are while none overflows.
abbrev pub Counts : List BackendServer → Type 0
Counts = All (λ b. b.request_count < 2 ^ 63)

-- A backend that is available and has no more requests than any available one.
pub IsLeast : List BackendServer → BackendServer → Type 0
IsLeast bs b =
    Any (λ a. a ≡ b) bs
    × (b.available ≡ true)
    × All (λ a. (a.available ≡ false) ⊎ (b.request_count ≤ a.request_count)) bs

slt_pos : (a b : ℕ) → a < 2 ^ 63 → b < 2 ^ 63 → slt a b ≡ ltb a b
slt_pos a b h k = ground arith

least-skip :
    (c : BackendServer) (bs : List BackendServer) (m : ℕ) (s : Option BackendServer)
    → (c.available ≡ false) ⊎ ((m == minus_one || slt c.request_count m) ≡ false)
    → least (c ∷ bs) m s ≡ least bs m s
unfolding least
least-skip c bs m s (inl h) = rw (h, least)
least-skip c bs m s (inr h) = elim (Bool-cases c.available) [
  | inl e ↦ rw (e, least, h)
  | inr e ↦ rw (e, least)
]

least-take :
    (c : BackendServer) (bs : List BackendServer) (m : ℕ) (s : Option BackendServer)
    → c.available ≡ true
    → (m == minus_one || slt c.request_count m) ≡ true
    → least (c ∷ bs) m s ≡ least bs c.request_count (some c)
unfolding least
least-take c bs m s h k = simp (h, least, k)

-- Where the loop ends, from a selected backend on.
least-some :
    (bs : List BackendServer) (a : BackendServer)
    → a.available ≡ true
    → a.request_count < 2 ^ 63
    → Counts bs
    → (b : BackendServer) × (least bs a.request_count (some a) ≡ some b)
      × (Any (λ c. c ≡ b) (a ∷ bs))
      × (b.available ≡ true)
      × (b.request_count ≤ a.request_count)
      × All (λ c. (c.available ≡ false) ⊎ (b.request_count ≤ c.request_count)) bs
unfolding least
least-some [] a h l n = (a, refl, inl refl, h, omega arith, tt)
least-some (c ∷ bs) a h l n = elim (Bool-cases c.available) [
  | inr off ↦
      let (b, e, i, up, le, all) = least-some bs a h l n.1 in
      (
        b,
        least-skip c bs a.request_count (some a) (inl off) ∙ e,
        elim i [ inl x ↦ inl x | inr x ↦ inr (inr x) ],
        up,
        le,
        (inl off, all),
      )
  | inl on ↦ elim (Bool-cases (ltb c.request_count a.request_count)) [
    | inl less ↦
        let (b, e, i, up, le, all) = least-some bs c on n.0 n.1 in
        (
          b,
          least-take c bs a.request_count (some a) on (taken less) ∙ e,
          inr i,
          up,
          ground arith,
          (inr le, all),
        )
    | inr not_less ↦
        let (b, e, i, up, le, all) = least-some bs a h l n.1 in
        (
          b,
          least-skip c bs a.request_count (some a) (inr (passed not_less)) ∙ e,
          elim i [ inl x ↦ inl x | inr x ↦ inr (inr x) ],
          up,
          le,
          (inr (ground arith), all),
        )
  ]
]
  where
    taken :
        ltb c.request_count a.request_count ≡ true
        → (a.request_count == minus_one || slt c.request_count a.request_count) ≡ true
    taken less = rw (slt_pos c.request_count a.request_count n.0 l, less) (ground arith)

    passed :
        ltb c.request_count a.request_count ≡ false
        → (a.request_count == minus_one || slt c.request_count a.request_count) ≡ false
    passed less = rw (slt_pos c.request_count a.request_count n.0 l, less) (ground arith)

-- From no selected backend on: none is available, or the least one is found.
least-none :
    (bs : List BackendServer)
    → Counts bs
    → ((least bs minus_one none ≡ none) × All (λ c. c.available ≡ false) bs)
      ⊎ ((b : BackendServer) × (least bs minus_one none ≡ some b) × IsLeast bs b)
unfolding least IsLeast
least-none [] n = inl (refl, tt)
least-none (c ∷ bs) n = elim (Bool-cases c.available) [
  | inl on ↦
      let (b, e, i, up, le, all) = least-some bs c on n.0 n.1 in
      inr (b, least-take c bs minus_one none on refl ∙ e, (i, up, (inr le, all)))
  | inr off ↦ elim (least-none bs n.1) [
    | inl (e, all) ↦ inl (least-skip c bs minus_one none (inl off) ∙ e, (off, all))
    | inr (b, e, (i, up, all)) ↦
        inr (b, least-skip c bs minus_one none (inl off) ∙ e, (inr i, up, (inl off, all)))
  ]
]

-- least_connections selects an available backend with the fewest requests, and none just where no
-- backend is available.
pub least_connections-IsLeast :
    (bs : List BackendServer)
    → Counts bs
    → ((least_connections bs ≡ none) × All (λ c. c.available ≡ false) bs)
      ⊎ ((b : BackendServer) × (least_connections bs ≡ some b) × IsLeast bs b)
unfolding least_connections
least_connections-IsLeast bs n = least-none bs n
