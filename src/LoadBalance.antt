-- ===== src/LoadBalance.antt =====
-- internal/pkg/nginx/loadbalance.go. The counters are uint64 and int64, as bit patterns. A call of
-- GetNextBackend is one step; the availability that it reads is that of its list of backends.
pub mod RoundRobin
pub mod LeastConnections
mod Examples
use chat_room.Prelude.{
  ℕ, ◌+◌, ◌%◌, ◌^◌, String, Bool, true, false, ◌||◌, Option, none, some, List, [], ◌∷◌, ◌==◌,
  if◌then◌else◌, length, get_elem?, set, str_eq, zero, suc,
}
use chat_room.Words.{slt, add64, minus_one}

pub record BackendServer : Type 0 where
  pub id : String
  pub request_count : ℕ
  pub available : Bool

pub increment_requests : BackendServer → BackendServer
increment_requests b = record b { request_count = add64 b.request_count 1 }

pub set_available : BackendServer → Bool → BackendServer
set_available b available = record b { available = available }

pub record LoadBalancer : Type 0 where
  pub backends : List BackendServer
  pub strategy : String
  pub current : ℕ

pub new_load_balancer : List BackendServer → String → LoadBalancer
new_load_balancer backends strategy = record {
  backends = backends;
  strategy = strategy;
  current = 0;
}

-- The loop over the backends, from the selected one and its count on.
least : List BackendServer → ℕ → Option BackendServer → Option BackendServer
least [] min_count selected = selected
least (b ∷ bs) min_count selected = elim b.available [
  | false ↦ least bs min_count selected
  | true ↦ elim (min_count == minus_one || slt b.request_count min_count) [
    | true ↦ least bs b.request_count (some b)
    | false ↦ least bs min_count selected
  ]
]

pub least_connections : List BackendServer → Option BackendServer
unfolding least
least_connections bs = least bs minus_one none

-- IsAvailable of the backend at an index, which is in range.
pub backend_at : List BackendServer → ℕ → Option BackendServer
backend_at bs i = elim (get_elem? bs i) [
  | none ↦ none
  | some b ↦ if b.available then some b else none
]

-- The loop, with the attempts left. It leaves the counter where the last attempt put it.
rotate : List BackendServer → ℕ → ℕ → Option BackendServer × ℕ
unfolding backend_at
rotate bs zero current = (none, current)
rotate bs (suc left) current =
    let next = add64 current 1 in
    elim (backend_at bs (next % length bs)) [ some b ↦ (some b, next) | none ↦ rotate bs left next ]

pub round_robin : List BackendServer → ℕ → Option BackendServer × ℕ
unfolding rotate
round_robin bs current = rotate bs (length bs) current

pub get_next_backend : LoadBalancer → Option BackendServer × LoadBalancer
unfolding least_connections round_robin
get_next_backend lb =
    if length lb.backends == 0
    then (none, lb)
    else if str_eq lb.strategy "least_connections"
    then (least_connections lb.backends, lb)
    else let (b, current) = round_robin lb.backends lb.current in
      (b, record lb { current = current })
