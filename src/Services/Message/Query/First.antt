-- ===== src/Services/Message/Query/First.antt =====
-- The first rows of what a query finds.
use Prim.Native.Nat.{min}
use mathlib.Core.Path.{subst}
use chat_room.Prelude.{
  ℕ, zero, suc, ◌+◌, ◌<◌, ◌≤◌, ◌≡◌, refl, ap, ◌⊎◌, inl, inr, String, Bool, true, List, [], ◌∷◌, All,
  ltb, length, length-take, take, arith,
}
use chat_room.Prelude.Int.{ℤ}
use chat_room.Services.Message.{MessageModel}
use chat_room.Services.Message.Query.{IsPast, Before, Ordered, Mem, occurrences, Matching}

-- The first rows of a query, with whether there are more.
pub record IsPage (rows : List MessageModel) (guild_id : String) (last : ℤ) (size : ℕ)
    (page : List MessageModel) (more : Bool) : Type 0 where
  pub found : List MessageModel
  pub matching : Matching rows guild_id last found
  pub holds : length page ≡ min size (length found)
  pub only : (m : MessageModel) → Mem m page → Mem m rows × (m.guild_id ≡ guild_id) × IsPast last m
  pub once : (id : String) → occurrences id page ≤ occurrences id rows
  pub ordered : Ordered last page
  pub every :
      (m : MessageModel)
      → Mem m rows
      → m.guild_id ≡ guild_id
      → IsPast last m
      → Mem m page ⊎ ((more ≡ true) × (length page ≡ size) × All (λ k. Before last k m) page)
  pub tells : more ≡ ltb (length page) (length found)

Mem-take : (n : ℕ) (ms : List MessageModel) (m : MessageModel) → Mem m (take n ms) → Mem m ms
Mem-take zero ms m h = absurd h
Mem-take (suc n) [] m h = absurd h
Mem-take (suc n) (k ∷ ms) m (inl e) = inl e
Mem-take (suc n) (k ∷ ms) m (inr h) = inr (Mem-take n ms m h)

occurrences-take :
    (id : String) (n : ℕ) (ms : List MessageModel) → occurrences id (take n ms) ≤ occurrences id ms
occurrences-take id zero ms = omega arith
occurrences-take id (suc n) [] = omega arith
occurrences-take id (suc n) (k ∷ ms) = omega (arith, occurrences-take id n ms)

All-take :
    (P : MessageModel → Type 0) (n : ℕ) (ms : List MessageModel) → All P ms → All P (take n ms)
All-take P zero ms a = tt
All-take P (suc n) [] a = tt
All-take P (suc n) (k ∷ ms) a = (a.0, All-take P n ms a.1)

All-Mem :
    (P : MessageModel → Type 0) (ms : List MessageModel) (m : MessageModel)
    → All P ms
    → Mem m ms
    → P m
All-Mem P [] m a h = absurd h
All-Mem P (k ∷ ms) m a (inl e) = subst P e a.0
All-Mem P (k ∷ ms) m a (inr h) = All-Mem P ms m a.1 h

take-Ordered :
    (last : ℤ) (n : ℕ) (ms : List MessageModel) → Ordered last ms → Ordered last (take n ms)
take-Ordered last zero ms o = tt
take-Ordered last (suc n) [] o = tt
take-Ordered last (suc n) (k ∷ ms) o =
    (All-take (Before last k) n ms o.0, take-Ordered last n ms o.1)

-- What is not among the first comes after them.
beyond :
    (last : ℤ) (n : ℕ) (ms : List MessageModel) (m : MessageModel)
    → Ordered last ms
    → Mem m ms
    → Mem m (take n ms) ⊎ ((n < length ms) × All (λ k. Before last k m) (take n ms))
beyond last zero [] m o h = absurd h
beyond last zero (k ∷ ms) m o h = inr (omega arith, tt)
beyond last (suc n) [] m o h = absurd h
beyond last (suc n) (k ∷ ms) m o (inl e) = inl (inl e)
beyond last (suc n) (k ∷ ms) m o (inr h) = elim (beyond last n ms m o.1 h) [
  | inl i ↦ inl (inr i)
  | inr (l, a) ↦ inr (omega (arith, l), (All-Mem (Before last k) ms m o.0 h, a))
]

first_first : (n : ℕ) (ms : List MessageModel) → take n (take (suc n) ms) ≡ take n ms
first_first zero ms = refl
first_first (suc n) [] = refl
first_first (suc n) (k ∷ ms) = ap (λ xs. k ∷ xs) (first_first n ms)

pub take-take : (n : ℕ) (ms : List MessageModel) → take n (take (n + 1) ms) ≡ take n ms
take-take n ms = (let e : n + 1 ≡ suc n = omega arith in rw e (first_first n ms))

pub ltb-take :
    (n : ℕ) (ms : List MessageModel)
    → ltb n (length (take (n + 1) ms)) ≡ ltb (length (take n ms)) (length ms)
ltb-take n ms = ground (arith, length-take (n + 1) ms, length-take n ms)

pub taken :
    (rows : List MessageModel) (guild_id : String) (last : ℤ) (n : ℕ) (found : List MessageModel)
    → Matching rows guild_id last found
    → IsPage rows guild_id last n (take n found) (ltb (length (take n found)) (length found))
taken rows guild_id last n found matching = record {
  found = found;
  matching = matching;
  holds = length-take n found;
  only = λ m h. matching.only m (Mem-take n found m h);
  once = λ id. omega (arith, occurrences-take id n found, matching.once id);
  ordered = take-Ordered last n found matching.ordered;
  every = λ m row of_guild past.
      elim (beyond last n found m matching.ordered (matching.every m row of_guild past)) [
        | inl i ↦ inl i
        | inr (l, a) ↦ inr (full_more n found l, omega (arith, l, length-take n found), a)
      ];
  tells = refl;
}
  where
    full_more :
        (n : ℕ) (found : List MessageModel)
        → n < length found
        → ltb (length (take n found)) (length found) ≡ true
    full_more n found l = ground (arith, length-take n found)
