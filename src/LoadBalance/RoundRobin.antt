-- ===== src/LoadBalance/RoundRobin.antt =====
-- Round robin tries each backend once, from the one after the last that it selected.
use native.Mathlib.Nat.{zero-add, add-zero}
use chat_room.Prelude.{
  ◌-◌, ℕ, zero, suc, ◌<◌, ◌≤◌, ◌+◌, ◌%◌, ◌^◌, ◌≡◌, refl, sym, ◌∙◌, ap, none, some, List, arith,
  length,
}
use chat_room.Words.{add64}
use chat_room.LoadBalance.{BackendServer, backend_at, rotate, round_robin}

next_current : (current : ℕ) → current + 1 < 2 ^ 64 → add64 current 1 ≡ current + 1
next_current current h = ground arith

rotate_step :
    (bs : List BackendServer) (left current : ℕ)
    → current + 1 < 2 ^ 64
    → backend_at bs ((current + 1) % length bs) ≡ none
    → rotate bs (suc left) current ≡ rotate bs left (current + 1)
unfolding rotate
rotate_step bs left current h off = rw (rotate, next_current current h, off, next_current current h)

rotate-hit :
    (bs : List BackendServer) (left current : ℕ) (b : BackendServer)
    → current + 1 < 2 ^ 64
    → backend_at bs ((current + 1) % length bs) ≡ some b
    → rotate bs (suc left) current ≡ (some b, current + 1)
unfolding rotate
rotate-hit bs left current b h on = rw (rotate, next_current current h, on, next_current current h)

-- k attempts that all find an unavailable backend move the counter on by k.
rotate-skip :
    (bs : List BackendServer) (k left current : ℕ)
    → current + k < 2 ^ 64
    → ((i : ℕ) → 0 < i → i ≤ k → backend_at bs ((current + i) % length bs) ≡ none)
    → rotate bs (k + left) current ≡ rotate bs left (current + k)
rotate-skip bs zero left current h off = rw (zero-add left, add-zero current) refl
rotate-skip bs (suc k) left current h off = rw (shift) (
    rotate_step bs (k + left) current (omega arith) (off 1 (omega arith) (omega arith))
    ∙ (rotate-skip bs k left (current + 1) (omega arith)
          (λ i l u. rw (← later i) at (off (suc i) (omega arith) (omega arith)))
        ∙ ap (λ c. rotate bs left c) (omega arith)))
  where
    shift : suc k + left ≡ suc (k + left)
    shift = omega arith

    later : (i : ℕ) → current + 1 + i ≡ current + suc i
    later i = omega arith

-- Round robin selects the first available backend after the counter, round the list, and leaves the
-- counter there.
pub round_robin-first :
    (bs : List BackendServer) (current k : ℕ) (b : BackendServer)
    → current + length bs < 2 ^ 64
    → k < length bs
    → ((i : ℕ) → 0 < i → i ≤ k → backend_at bs ((current + i) % length bs) ≡ none)
    → backend_at bs ((current + suc k) % length bs) ≡ some b
    → round_robin bs current ≡ (some b, current + suc k)
unfolding round_robin
round_robin-first bs current k b h l off on =
    ap (λ n. rotate bs n current) total
    ∙ (rotate-skip bs k (suc (length bs - k - 1)) current (omega arith) off
        ∙ (rotate-hit bs (length bs - k - 1) (current + k) b (omega arith) (rw one_more on)
            ∙ ap (λ c. (some b, c)) one_more))
  where
    total : length bs ≡ k + suc (length bs - k - 1)
    total = omega arith

    one_more : current + k + 1 ≡ current + suc k
    one_more = omega arith

-- Round robin gives up just after it has found each backend unavailable.
pub round_robin-none :
    (bs : List BackendServer) (current : ℕ)
    → current + length bs < 2 ^ 64
    → ((i : ℕ) → 0 < i → i ≤ length bs → backend_at bs ((current + i) % length bs) ≡ none)
    → round_robin bs current ≡ (none, current + length bs)
unfolding round_robin rotate
round_robin-none bs current h off =
    ap (λ n. rotate bs n current) (sym (add-zero (length bs)))
    ∙ rotate-skip bs (length bs) 0 current h off
