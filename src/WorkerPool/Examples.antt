-- ===== src/WorkerPool/Examples.antt =====
-- Schedules of two workers.
use chat_room.Prelude.{
  Bool, false, ◌==◌, if◌then◌else◌, ◌+◌, ◌⊎◌, ℕ, ◌≡◌, refl, true, some, List, [], ◌∷◌, ◌++◌,
}
use chat_room.WorkerPool.{
  WorkerPool, Action, submit, take, leave, finish, stop, idle, busy, exited, all_exited,
  started_pool, idle_workers, step, run, receive, give_up, end_job, move,
}
use chat_room.WorkerPool.Order.{started, submitted, run-started}
use chat_room.WorkerPool.Stopping.{Steps, Held, steps_left, stop-returns}

-- The job 8 never ends.
abbrev ending : ℕ → Bool
ending j = if j == 8 then false else true

abbrev schedule : List (Action ℕ)
schedule = submit 7 ∷ submit 8 ∷ take 1 ∷ submit 9 ∷ take 0 ∷ finish 1 ∷ stop ∷ leave 1 ∷ []

abbrev stopped : WorkerPool ℕ
stopped = record { job_queue = 9 ∷ []; queue_size = 4; workers = busy 8 ∷ exited ∷ []; quit = true }

schedule_runs : run ending (started_pool 2 4) schedule ≡ some stopped
unfolding run started_pool step receive give_up end_job move idle_workers
schedule_runs = refl

run-started_example : started ending (started_pool 2 4) schedule ++ 9 ∷ [] ≡ submitted schedule
run-started_example = run-started ending 2 4 schedule stopped schedule_runs

-- The first worker has returned, and the other is in the job that does not end.
stop-returns_example :
    (0 + steps_left stopped ≡ steps_left stopped)
    × ((all_exited stopped.workers ≡ true) ⊎ (Steps ending stopped ⊎ Held ending stopped))
unfolding run
stop-returns_example = stop-returns ending stopped stopped [] refl tt refl

-- The job 9 is still in the channel when the last worker returns.
abbrev half_stopped : WorkerPool ℕ
half_stopped = record stopped { workers = idle ∷ exited ∷ [] }

left_over :
    run ending half_stopped (leave 0 ∷ [])
    ≡ some (record stopped { workers = exited ∷ exited ∷ [] })
unfolding run step give_up move
left_over = refl
