-- ===== src/WorkerPool/Order.antt =====
-- Which jobs are started, and in which order.
use mathlib.Core.Path.{subst}
use mathlib.Core.List.{append_assoc, append-nil}
use chat_room.Prelude.{
  ℕ, ◌≡◌, refl, sym, ◌∙◌, Bool-cases, inl, inr, Bool, true, false, Option, none, some, List, [],
  ◌∷◌, ◌++◌, ltb, length, get_elem?, set, zero, suc,
}
use chat_room.WorkerPool.{
  Worker, idle, exited, busy, WorkerPool, Action, submit, hand, take, leave, finish, stop, Outcome,
  went, blocks, panics, move, receive, receive_from, give_up, end_job, step, run, started_pool,
}

module _ {J : Type 0} where
  -- The job that a worker has started, by its states before and after a step.
  begun : Worker J → Worker J → List J
  begun idle (busy j) = j ∷ []
  begun idle idle = []
  begun idle exited = []
  begun exited w = []
  begun (busy k) w = []

  -- The jobs that the workers have started in a step.
  pub starts : List (Worker J) → List (Worker J) → List J
  unfolding begun
  starts [] ws = []
  starts (v ∷ vs) [] = []
  starts (v ∷ vs) (w ∷ ws) = begun v w ++ starts vs ws

  starts_self : (ws : List (Worker J)) → starts ws ws ≡ []
  unfolding starts begun
  starts_self [] = refl
  starts_self (idle ∷ ws) = starts_self ws
  starts_self (exited ∷ ws) = starts_self ws
  starts_self (busy j ∷ ws) = starts_self ws

  begun_self : (w : Worker J) → begun w w ≡ []
  unfolding begun
  begun_self idle = refl
  begun_self exited = refl
  begun_self (busy j) = refl

  starts-set :
      (ws : List (Worker J)) (i : ℕ) (v w : Worker J)
      → get_elem? ws i ≡ some v
      → starts ws (set ws i w) ≡ begun v w
  unfolding starts
  starts-set [] i v w h = cc
  starts-set (x ∷ ws) zero v w h =
      (let e : x ≡ v = cc in rw (starts_self ws, e, append-nil (begun v w)) refl)
  starts-set (x ∷ ws) (suc i) v w h = rw (begun_self x) (starts-set ws i v w h)

  pub submitted : List (Action J) → List J
  submitted [] = []
  submitted (submit j ∷ rest) = j ∷ submitted rest
  submitted (hand i j ∷ rest) = j ∷ submitted rest
  submitted (take i ∷ rest) = submitted rest
  submitted (leave i ∷ rest) = submitted rest
  submitted (finish i ∷ rest) = submitted rest
  submitted (stop ∷ rest) = submitted rest

  -- The job that one action submits.
  submits : Action J → List J
  submits a = submitted (a ∷ [])

  submitted-cons :
      (a : Action J) (rest : List (Action J)) → submitted (a ∷ rest) ≡ submits a ++ submitted rest
  unfolding submitted submits
  submitted-cons (submit j) rest = refl
  submitted-cons (hand i j) rest = refl
  submitted-cons (take i) rest = refl
  submitted-cons (leave i) rest = refl
  submitted-cons (finish i) rest = refl
  submitted-cons stop rest = refl

  -- What a step has made of the pool.
  abbrev Moves : WorkerPool J → WorkerPool J → List J → Type 0
  Moves p q added = starts p.workers q.workers ++ q.job_queue ≡ p.job_queue ++ added

  moves :
      (p r q : WorkerPool J) (added : List J) → went r ≡ went q → Moves p r added → Moves p q added
  moves p r q added h m = (let e : r ≡ q = cc in subst (λ x. Moves p x added) e m)

  -- A step in which one worker changes.
  changed :
      (p : WorkerPool J) (js added : List J) (i : ℕ) (v w : Worker J)
      → get_elem? p.workers i ≡ some v
      → begun v w ++ js ≡ p.job_queue ++ added
      → Moves p (move (record p { job_queue = js }) i w) added
  unfolding move
  changed p js added i v w at e = rw (starts-set p.workers i v w at) e

  receive-Moves :
      (p q : WorkerPool J) (i : ℕ) (w : Option (Worker J)) (js : List J)
      → get_elem? p.workers i ≡ w
      → p.job_queue ≡ js
      → receive p i w js ≡ went q
      → Moves p q []
  unfolding receive begun
  receive-Moves p q i (some idle) (j ∷ js) at e h =
      moves p (move (record p { job_queue = js }) i (busy j)) q [] h
        (changed p js [] i idle (busy j) at (sym e ∙ sym (append-nil p.job_queue)))
  receive-Moves p q i (some idle) [] at e h = cc
  receive-Moves p q i (some exited) js at e h = cc
  receive-Moves p q i (some (busy k)) js at e h = cc
  receive-Moves p q i none js at e h = cc

  receive_from-Moves :
      (p q : WorkerPool J) (i : ℕ) (w : Option (Worker J)) (js : List J) (j : J)
      → get_elem? p.workers i ≡ w
      → p.job_queue ≡ js
      → receive_from p i w js j ≡ went q
      → Moves p q (j ∷ [])
  unfolding receive_from begun move
  receive_from-Moves p q i (some idle) [] j at e h =
      moves p (move p i (busy j)) q (j ∷ []) h
        (changed p p.job_queue (j ∷ []) i idle (busy j) at (rw e refl))
  receive_from-Moves p q i (some idle) (k ∷ js) j at e h = cc
  receive_from-Moves p q i (some exited) js j at e h = cc
  receive_from-Moves p q i (some (busy k)) js j at e h = cc
  receive_from-Moves p q i none js j at e h = cc

  give_up-Moves :
      (p q : WorkerPool J) (i : ℕ) (w : Option (Worker J)) (quit : Bool)
      → get_elem? p.workers i ≡ w
      → give_up p i w quit ≡ went q
      → Moves p q []
  unfolding give_up begun move
  give_up-Moves p q i (some idle) true at h =
      moves p (move p i exited) q [] h
        (changed p p.job_queue [] i idle exited at (sym (append-nil p.job_queue)))
  give_up-Moves p q i (some idle) false at h = cc
  give_up-Moves p q i (some exited) quit at h = cc
  give_up-Moves p q i (some (busy k)) quit at h = cc
  give_up-Moves p q i none quit at h = cc

module _ {J : Type 0} (ends : J → Bool) where
  end_job-Moves :
      (p q : WorkerPool J) (i : ℕ) (w : Option (Worker J))
      → get_elem? p.workers i ≡ w
      → end_job ends p i w ≡ went q
      → Moves p q []
  unfolding end_job begun move
  end_job-Moves p q i (some (busy j)) at h = elim (Bool-cases (ends j)) [
    | inl yes_ends ↦
        moves p (move p i idle) q [] (rw yes_ends at h)
          (changed p p.job_queue [] i (busy j) idle at (sym (append-nil p.job_queue)))
    | inr runs ↦ (let h' = (rw runs at h) in cc)
  ]
  end_job-Moves p q i (some idle) at h = cc
  end_job-Moves p q i (some exited) at h = cc
  end_job-Moves p q i none at h = cc

  -- One action moves jobs from the back of the queue to its front.
  step-Moves : (p q : WorkerPool J) (a : Action J) → step ends p a ≡ went q → Moves p q (submits a)
  unfolding step submits submitted
  step-Moves p q (submit j) h = elim (Bool-cases (ltb (length p.job_queue) p.queue_size)) [
    | inl room ↦
        moves p (record p { job_queue = p.job_queue ++ j ∷ [] }) q (j ∷ []) (rw room at h)
          (rw (starts_self p.workers) refl)
    | inr full ↦ (let h' = (rw full at h) in cc)
  ]
  step-Moves p q (hand i j) h =
      receive_from-Moves p q i (get_elem? p.workers i) p.job_queue j refl refl h
  step-Moves p q (take i) h = receive-Moves p q i (get_elem? p.workers i) p.job_queue refl refl h
  step-Moves p q (leave i) h = give_up-Moves p q i (get_elem? p.workers i) p.quit refl h
  step-Moves p q (finish i) h = end_job-Moves p q i (get_elem? p.workers i) refl h
  step-Moves p q stop h = elim (Bool-cases p.quit) [
    | inl closed ↦ (let h' = (rw closed at h) in cc)
    | inr opened ↦
        moves p (record p { quit = true }) q [] (rw opened at h)
          (rw (starts_self p.workers) (sym (append-nil p.job_queue)))
  ]

  -- The jobs that the workers start in a schedule, in order.
  pub started : WorkerPool J → List (Action J) → List J
  unfolding starts
  started p [] = []
  started p (a ∷ rest) = elim (step ends p a) [
    | went q ↦ starts p.workers q.workers ++ started q rest
    | blocks ↦ []
    | panics ↦ []
  ]

  -- A schedule that goes through begins with an action that does.
  pub run-cons :
      (p q : WorkerPool J) (a : Action J) (acts : List (Action J))
      → run ends p (a ∷ acts) ≡ some q
      → (r : WorkerPool J) × (step ends p a ≡ went r) × (run ends r acts ≡ some q)
  unfolding run
  run-cons p q a acts h = after (step ends p a) refl
    where
      after :
          (o : Outcome J)
          → step ends p a ≡ o
          → (r : WorkerPool J) × (step ends p a ≡ went r) × (run ends r acts ≡ some q)
      after (went r) e = (r, e, rw (run, e) at h)
      after blocks e = (let k = (rw (run, e) at h) in cc)
      after panics e = (let k = (rw (run, e) at h) in cc)

  run-queue :
      (p q : WorkerPool J) (acts : List (Action J))
      → run ends p acts ≡ some q
      → started p acts ++ q.job_queue ≡ p.job_queue ++ submitted acts
  unfolding run started submitted
  run-queue p q [] h = (let e : p ≡ q = cc in rw e (sym (append-nil q.job_queue)))
  run-queue p q (a ∷ acts) h =
      let (r, e, k) = run-cons p q a acts h in
      rw (
        started,
        e,
        append_assoc,
        run-queue r q acts k,
        ← append_assoc (starts p.workers r.workers) r.job_queue (submitted acts),
        step-Moves p r a e,
        submitted-cons a acts,
        append_assoc,
      )

  -- Whatever the schedule of a pool that was just started, the jobs that its workers have started so
  -- far, going from waiting to running them, and the jobs still in the channel are the submitted
  -- ones, in the order in which they were submitted.
  pub run-started :
      (worker_num queue_size : ℕ) (acts : List (Action J)) (q : WorkerPool J)
      → run ends (started_pool worker_num queue_size) acts ≡ some q
      → started (started_pool worker_num queue_size) acts ++ q.job_queue ≡ submitted acts
  unfolding started_pool
  run-started worker_num queue_size acts q h =
      run-queue (started_pool worker_num queue_size) q acts h
