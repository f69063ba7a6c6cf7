-- ===== src/LoadBalance/Examples.antt =====
-- Three backends, one of which is down.
use chat_room.Prelude.{
  ◌≡◌, ◌+◌, ◌%◌, ◌<◌, ◌≤◌, ℕ, refl, String, Bool, true, false, some, none, List, [], ◌∷◌, All,
  arith, ◌⊎◌, zero, suc,
}
use chat_room.LoadBalance.{BackendServer, least_connections, backend_at}
use chat_room.LoadBalance.LeastConnections.{IsLeast, least_connections-IsLeast}

abbrev backend : String → ℕ → Bool → BackendServer
backend id n available = record { id = id; request_count = n; available = available }

abbrev servers : List BackendServer
servers = backend "a" 3 true ∷ backend "b" 1 false ∷ backend "c" 2 true ∷ []

first_skipped : (i : ℕ) → 0 < i → i ≤ 1 → backend_at servers ((0 + i) % 3) ≡ none
unfolding backend_at
first_skipped zero l u = absurd (omega arith)
first_skipped (suc zero) l u = refl
first_skipped (suc (suc i)) l u = absurd (omega arith)

all_skipped : (i : ℕ) → 0 < i → i ≤ 1 → backend_at (backend "b" 1 false ∷ []) ((5 + i) % 1) ≡ none
unfolding backend_at
all_skipped zero l u = absurd (omega arith)
all_skipped (suc zero) l u = refl
all_skipped (suc (suc i)) l u = absurd (omega arith)

least_connections-IsLeast_example :
    ((least_connections servers ≡ none) × All (λ c. c.available ≡ false) servers)
    ⊎ ((b : BackendServer) × (least_connections servers ≡ some b) × IsLeast servers b)
least_connections-IsLeast_example =
    least_connections-IsLeast servers (omega arith, (omega arith, (omega arith, tt)))
