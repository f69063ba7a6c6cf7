-- ===== src/WorkerPool/Stopping.antt =====
-- Stop, which closes `quit` and waits until every worker has returned.
use chat_room.Prelude.{
  ◌⊎◌, ◌∙◌, inl, inr, Bool-cases, ℕ, zero, suc, ◌+◌, ◌*◌, ◌≡◌, refl, ap, Bool, true, false, Option,
  none, some, List, [], ◌∷◌, length, get_elem?, set, arith, All,
}
use chat_room.WorkerPool.{
  Worker, idle, exited, busy, WorkerPool, Action, submit, hand, take, leave, finish, stop, went,
  move, receive, give_up, end_job, step, run, all_exited, is_exited,
}
use chat_room.WorkerPool.Order.{run-cons}

module _ {J : Type 0} where
  -- An action of a worker, and not of a caller of the pool.
  abbrev pub IsWorkers : Action J → Type 0
  IsWorkers (take i) = Unit {0}
  IsWorkers (leave i) = Unit {0}
  IsWorkers (finish i) = Unit {0}
  IsWorkers (submit j) = ⊥
  IsWorkers (hand i j) = ⊥
  IsWorkers stop = ⊥

  abbrev weight : Worker J → ℕ
  weight idle = 1
  weight exited = 0
  weight (busy j) = 2

  pub weights : List (Worker J) → ℕ
  weights [] = 0
  weights (w ∷ ws) = weight w + weights ws

  -- How many steps the workers can take before they have all returned.
  abbrev pub steps_left : WorkerPool J → ℕ
  steps_left p = length p.job_queue * 2 + weights p.workers

  weights-set :
      (ws : List (Worker J)) (i : ℕ) (v w : Worker J)
      → get_elem? ws i ≡ some v
      → weights (set ws i w) + weight v ≡ weights ws + weight w
  unfolding weights
  weights-set [] i v w h = cc
  weights-set (x ∷ ws) zero v w h = (let e : x ≡ v = cc in rw e (omega arith))
  weights-set (x ∷ ws) (suc i) v w h = omega (arith, weights-set ws i v w h)

  steps_left_of : {p q : WorkerPool J} → went p ≡ went q → steps_left q ≡ steps_left p
  steps_left_of {p} {q} h = (let e : p ≡ q = cc in rw e refl)

  receive-steps :
      (p q : WorkerPool J) (i : ℕ) (w : Option (Worker J)) (js : List J)
      → get_elem? p.workers i ≡ w
      → p.job_queue ≡ js
      → receive p i w js ≡ went q
      → steps_left q + 1 ≡ steps_left p
  unfolding receive move
  receive-steps p q i (some idle) (j ∷ js) at queue h =
      omega (arith, steps_left_of h, weights-set p.workers i idle (busy j) at, ap length queue)
  receive-steps p q i (some idle) [] at queue h = cc
  receive-steps p q i (some exited) js at queue h = cc
  receive-steps p q i (some (busy k)) js at queue h = cc
  receive-steps p q i none js at queue h = cc

  give_up-steps :
      (p q : WorkerPool J) (i : ℕ) (w : Option (Worker J)) (quit : Bool)
      → get_elem? p.workers i ≡ w
      → give_up p i w quit ≡ went q
      → steps_left q + 1 ≡ steps_left p
  unfolding give_up move
  give_up-steps p q i (some idle) true at h =
      omega (arith, steps_left_of h, weights-set p.workers i idle exited at)
  give_up-steps p q i (some idle) false at h = cc
  give_up-steps p q i (some exited) quit at h = cc
  give_up-steps p q i (some (busy k)) quit at h = cc
  give_up-steps p q i none quit at h = cc

module _ {J : Type 0} (ends : J → Bool) where
  end_job-steps :
      (p q : WorkerPool J) (i : ℕ) (w : Option (Worker J))
      → get_elem? p.workers i ≡ w
      → end_job ends p i w ≡ went q
      → steps_left q + 1 ≡ steps_left p
  unfolding end_job move
  end_job-steps p q i (some (busy j)) at h = elim (Bool-cases (ends j)) [
    | inl e ↦
        let h' : went (move p i idle) ≡ went q = (rw e at h) in
        omega (arith, steps_left_of h', weights-set p.workers i (busy j) idle at)
    | inr e ↦ (let h' = (rw e at h) in cc)
  ]
  end_job-steps p q i (some idle) at h = cc
  end_job-steps p q i (some exited) at h = cc
  end_job-steps p q i none at h = cc

  step-steps :
      (p q : WorkerPool J) (a : Action J)
      → IsWorkers a
      → step ends p a ≡ went q
      → steps_left q + 1 ≡ steps_left p
  unfolding step
  step-steps p q (take i) own h =
      receive-steps p q i (get_elem? p.workers i) p.job_queue refl refl h
  step-steps p q (leave i) own h = give_up-steps p q i (get_elem? p.workers i) p.quit refl h
  step-steps p q (finish i) own h = end_job-steps p q i (get_elem? p.workers i) refl h
  step-steps p q (submit j) own h = absurd own
  step-steps p q (hand i j) own h = absurd own
  step-steps p q stop own h = absurd own

  -- Every step of a worker lowers by one the number that counts twice the jobs in the channel, twice
  -- the busy workers and once the idle ones: with that number at the start, a schedule of workers
  -- without a caller that adds jobs cannot be longer.
  run-steps :
      (p q : WorkerPool J) (acts : List (Action J))
      → All IsWorkers acts
      → run ends p acts ≡ some q
      → length acts + steps_left q ≡ steps_left p
  unfolding run
  run-steps p q [] own h = (let e : p ≡ q = cc in rw e (omega arith))
  run-steps p q (a ∷ acts) own h =
      let (r, e, k) = run-cons ends p q a acts h in
      omega (arith, step-steps p r a own.0 e, run-steps r q acts own.1 k)

  -- A worker that has not returned.
  awake :
      (ws : List (Worker J))
      → all_exited ws ≡ false
      → (i : ℕ) × (w : Worker J) × (get_elem? ws i ≡ some w) × (is_exited w ≡ false)
  awake [] h = cc
  awake (idle ∷ ws) h = (0, idle, refl, refl)
  awake (busy j ∷ ws) h = (0, busy j, refl, refl)
  awake (exited ∷ ws) h = (let (i, w, at, up) = awake ws h in (suc i, w, at, up))

  -- A worker can take a step, or is in a job that does not end.
  abbrev pub Steps : WorkerPool J → Type 0
  Steps p = (a : Action J) × (r : WorkerPool J) × IsWorkers a × (step ends p a ≡ went r)

  abbrev pub Held : WorkerPool J → Type 0
  Held p = (i : ℕ) × (j : J) × (get_elem? p.workers i ≡ some (busy j)) × (ends j ≡ false)

  can_step :
      (p : WorkerPool J) (i : ℕ) (w : Worker J)
      → p.quit ≡ true
      → get_elem? p.workers i ≡ some w
      → is_exited w ≡ false
      → Steps p ⊎ Held p
  unfolding step give_up end_job
  can_step p i idle closed at up = inl (leave i, move p i exited, tt, rw (at, closed))
  can_step p i (busy j) closed at up = elim (Bool-cases (ends j)) [
    | inl e ↦ inl (finish i, move p i idle, tt, rw (at, end_job, e) refl)
    | inr e ↦ inr (i, j, at, e)
  ]
  can_step p i exited closed at up = cc

  stop-progress :
      (p : WorkerPool J) → p.quit ≡ true → all_exited p.workers ≡ false → Steps p ⊎ Held p
  stop-progress p closed up =
      let (i, w, at, wake) = awake p.workers up in can_step p i w closed at wake

  quit_of : {p q : WorkerPool J} → went p ≡ went q → q.quit ≡ p.quit
  quit_of {p} {q} h = (let e : p ≡ q = cc in rw e refl)

  receive-quit :
      (p q : WorkerPool J) (i : ℕ) (w : Option (Worker J)) (js : List J)
      → receive p i w js ≡ went q
      → q.quit ≡ p.quit
  unfolding receive move
  receive-quit p q i (some idle) (j ∷ js) h = quit_of h
  receive-quit p q i (some idle) [] h = cc
  receive-quit p q i (some exited) js h = cc
  receive-quit p q i (some (busy k)) js h = cc
  receive-quit p q i none js h = cc

  give_up-quit :
      (p q : WorkerPool J) (i : ℕ) (w : Option (Worker J)) (quit : Bool)
      → give_up p i w quit ≡ went q
      → q.quit ≡ p.quit
  unfolding give_up move
  give_up-quit p q i (some idle) true h = quit_of h
  give_up-quit p q i (some idle) false h = cc
  give_up-quit p q i (some exited) quit h = cc
  give_up-quit p q i (some (busy k)) quit h = cc
  give_up-quit p q i none quit h = cc

  end_job-quit :
      (p q : WorkerPool J) (i : ℕ) (w : Option (Worker J))
      → end_job ends p i w ≡ went q
      → q.quit ≡ p.quit
  unfolding end_job move
  end_job-quit p q i (some (busy j)) h = elim (Bool-cases (ends j)) [
    | inl e ↦ (let h' : went (move p i idle) ≡ went q = (rw e at h) in quit_of h')
    | inr e ↦ (let h' = (rw e at h) in cc)
  ]
  end_job-quit p q i (some idle) h = cc
  end_job-quit p q i (some exited) h = cc
  end_job-quit p q i none h = cc

  step-quit :
      (p q : WorkerPool J) (a : Action J) → IsWorkers a → step ends p a ≡ went q → q.quit ≡ p.quit
  unfolding step
  step-quit p q (take i) own h = receive-quit p q i (get_elem? p.workers i) p.job_queue h
  step-quit p q (leave i) own h = give_up-quit p q i (get_elem? p.workers i) p.quit h
  step-quit p q (finish i) own h = end_job-quit p q i (get_elem? p.workers i) h
  step-quit p q (submit j) own h = absurd own
  step-quit p q (hand i j) own h = absurd own
  step-quit p q stop own h = absurd own

  run-quit :
      (p q : WorkerPool J) (acts : List (Action J))
      → All IsWorkers acts
      → run ends p acts ≡ some q
      → q.quit ≡ p.quit
  unfolding run
  run-quit p q [] own h = (let e : p ≡ q = cc in rw e refl)
  run-quit p q (a ∷ acts) own h =
      let (r, e, k) = run-cons ends p q a acts h in
      run-quit r q acts own.1 k ∙ step-quit p r a own.0 e

  -- Once `quit` is closed and nobody submits, Stop returns if the jobs that are taken end: each step of
  -- the workers lowers by one the number that counts twice the jobs in the channel, twice the busy
  -- workers and once the idle ones, so they take no more steps than that; and as long as one has not
  -- returned, some worker can take a step, or one is in a job that does not end.
  pub stop-returns :
      (p q : WorkerPool J) (acts : List (Action J))
      → p.quit ≡ true
      → All IsWorkers acts
      → run ends p acts ≡ some q
      → (length acts + steps_left q ≡ steps_left p)
        × ((all_exited q.workers ≡ true) ⊎ (Steps q ⊎ Held q))
  stop-returns p q acts closed own h = (
    run-steps p q acts own h,
    elim (Bool-cases (all_exited q.workers)) [
      | inl done ↦ inl done
      | inr up ↦ inr (stop-progress q (run-quit p q acts own h ∙ closed) up)
    ],
  )
