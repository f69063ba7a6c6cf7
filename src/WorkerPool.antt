-- ===== src/WorkerPool.antt =====
-- utils/worker_pool.go. A pool is a state machine: each action is what one goroutine does in one
-- step, and a list of actions is a schedule. A job is a name, for its panics are recovered, so a
-- worker goes on alike however the job ends; `ends` says which jobs end at all. What the pool logs is not modelled.
pub mod Order
pub mod Stopping
mod Examples
use chat_room.Prelude.{
  ℕ, zero, suc, ◌<◌, Bool, true, false, ◌&&◌, Option, none, some, List, [], ◌∷◌, ◌++◌, ltb, length,
  get_elem?, set, if◌then◌else◌,
}

-- Where the goroutine of a worker stands: in the select, in a job, or returned.
pub data Worker (J : Type 0) : Type 0 where
  idle exited : Worker J
  busy : J → Worker J

pub record WorkerPool (J : Type 0) : Type 0 where
  pub job_queue : List J
  -- the capacity of the channel
  pub queue_size : ℕ
  pub workers : List (Worker J)
  -- `quit` is closed
  pub quit : Bool

pub data Action (J : Type 0) : Type 0 where
  -- Submit, into the buffer of the channel
  submit : J → Action J
  -- Submit, straight to a worker that waits, which needs no buffer
  hand : ℕ → J → Action J
  -- the two cases of a worker's select, and the end of a job
  take leave finish : ℕ → Action J
  -- the close of `quit` in Stop
  stop : Action J

-- A Go channel operation blocks where it is not ready; a second close panics.
pub data Outcome (J : Type 0) : Type 0 where
  went : WorkerPool J → Outcome J
  blocks panics : Outcome J

module _ {J : Type 0} where
  idle_workers : ℕ → List (Worker J)
  idle_workers zero = []
  idle_workers (suc n) = idle ∷ idle_workers n

  -- NewWorkerPool and Start
  pub started_pool : ℕ → ℕ → WorkerPool J
  unfolding idle_workers
  started_pool worker_num queue_size = record {
    job_queue = [];
    queue_size = queue_size;
    workers = idle_workers worker_num;
    quit = false;
  }

  -- The change of one worker's state.
  pub move : WorkerPool J → ℕ → Worker J → WorkerPool J
  move p i w = record p { workers = set p.workers i w }

  pub receive : WorkerPool J → ℕ → Option (Worker J) → List J → Outcome J
  unfolding move
  receive p i (some idle) (j ∷ js) = went (move (record p { job_queue = js }) i (busy j))
  receive p i w js = blocks

  pub receive_from : WorkerPool J → ℕ → Option (Worker J) → List J → J → Outcome J
  unfolding move
  receive_from p i (some idle) [] j = went (move p i (busy j))
  receive_from p i w js j = blocks

  pub give_up : WorkerPool J → ℕ → Option (Worker J) → Bool → Outcome J
  unfolding move
  give_up p i (some idle) true = went (move p i exited)
  give_up p i w quit = blocks

  pub end_job : (J → Bool) → WorkerPool J → ℕ → Option (Worker J) → Outcome J
  unfolding move
  end_job ends p i (some (busy j)) = if ends j then went (move p i idle) else blocks
  end_job ends p i w = blocks

module _ {J : Type 0} (ends : J → Bool) where
  pub step : WorkerPool J → Action J → Outcome J
  unfolding receive receive_from give_up end_job
  step p (submit j) =
      if ltb (length p.job_queue) p.queue_size
      then went (record p { job_queue = p.job_queue ++ j ∷ [] })
      else blocks
  step p (hand i j) = receive_from p i (get_elem? p.workers i) p.job_queue j
  step p (take i) = receive p i (get_elem? p.workers i) p.job_queue
  step p (leave i) = give_up p i (get_elem? p.workers i) p.quit
  step p (finish i) = end_job ends p i (get_elem? p.workers i)
  step p stop = if p.quit then panics else went (record p { quit = true })

  -- The pool after a schedule, each action of which went through.
  pub run : WorkerPool J → List (Action J) → Option (WorkerPool J)
  unfolding step
  run p [] = some p
  run p (a ∷ rest) = elim (step p a) [ went q ↦ run q rest | blocks ↦ none | panics ↦ none ]

module _ {J : Type 0} where
  abbrev pub is_exited : Worker J → Bool
  is_exited idle = false
  is_exited exited = true
  is_exited (busy j) = false

  abbrev pub all_exited : List (Worker J) → Bool
  all_exited [] = true
  all_exited (w ∷ ws) = is_exited w && all_exited ws

-- InitGlobalWorkerPool: the first call makes the pool, and later ones do nothing.
pub init_global_worker_pool : {J : Type 0} → Option (WorkerPool J) → ℕ → ℕ → Option (WorkerPool J)
init_global_worker_pool none worker_num queue_size = some (started_pool worker_num queue_size)
init_global_worker_pool (some p) worker_num queue_size = some p
