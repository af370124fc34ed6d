-- ===== src/ThreadPool/Tests.antt =====
-- The pool of src/thread_pool.c in one concrete run.
use linux_file_manager.Prelude.{
  All, [], arith, false, length, refl, true, ℕ, ◌++◌, ◌+◌, ◌∷◌, ◌≡◌, ◌≢◌, ◌≤◌,
}
use linux_file_manager.ThreadPool.Shutdown.{Run, at_rest, one_more}
use linux_file_manager.ThreadPool.Steps.{Step-Inv}
use linux_file_manager.ThreadPool.Invariant.{Inv}
use linux_file_manager.ThreadPool.Ring.{IsValid, contents}
use linux_file_manager.ThreadPool.{
  Snapshot, Task, Threadpool, begin_task, end_task, fill_free, manager_grow, thread_init,
  thread_pool_add, thread_pool_shutdown, worker_take,
}
use linux_file_manager.ThreadPool.System.{
  Reach, Step, System, Worker, at_head, fetch, finish, grow, grown, here, holding, move, next,
  running, shut_down, start, submit,
}
use linux_file_manager.ThreadPool.Tally.{busy, count, each, has_task, occupied, staying, tally}
use linux_file_manager.ThreadPool.Execution.{pool_live, pool_tasks, reached, started}

abbrev first : System
first = started 1 3 2 (0 ∷ 0 ∷ []) (11 ∷ [])

abbrev first_worker : Worker
first_worker = record { tid = 11; phase = at_head }

-- Task 7 is submitted; the worker takes it, and runs it while task 8 is submitted and the manager, on
-- numbers it read before, starts two workers.
abbrev submitted_7 : System
submitted_7 = record first {
  pool = record first.pool { taskqueue = 7 ∷ 0 ∷ []; queue_size = 1; queue_rear = 1 };
  submitted = 7 ∷ [];
}

abbrev took_7 : System
took_7 = record submitted_7 {
  pool = record submitted_7.pool { queue_size = 0; queue_front = 1 };
  workers = record first_worker { phase = holding 7 } ∷ [];
  taken = 7 ∷ [];
}

abbrev running_7 : System
running_7 = record took_7 {
  pool = record took_7.pool { busy_num = 1 };
  workers = record first_worker { phase = running 7 } ∷ [];
}

abbrev submitted_8 : System
submitted_8 = record running_7 {
  pool = record running_7.pool { taskqueue = 7 ∷ 8 ∷ []; queue_size = 1; queue_rear = 0 };
  submitted = 7 ∷ 8 ∷ [];
}

abbrev old_numbers : Snapshot
old_numbers = record { queue_size = 1; live_num = 1; busy_num = 1 }

abbrev grown_to_3 : System
grown_to_3 = record submitted_8 {
  pool = manager_grow submitted_8.pool old_numbers (12 ∷ 13 ∷ []);
  workers = submitted_8.workers ++ grown submitted_8.pool old_numbers (12 ∷ 13 ∷ []);
}

first_add : Step first submitted_7
unfolding thread_pool_add thread_init
first_add = submit 7 submitted_7.pool refl

first_fetch : Step submitted_7 took_7
unfolding worker_take thread_init
first_fetch = fetch [] first_worker [] 7 took_7.pool refl refl refl

first_start : Step took_7 running_7
unfolding begin_task thread_init
first_start = start [] (record first_worker { phase = holding 7 }) [] 7 refl refl

second_add : Step running_7 submitted_8
unfolding thread_pool_add thread_init
second_add = submit 8 submitted_8.pool refl

new_ids : All (λ (t : ℕ). t ≢ 0) (12 ∷ 13 ∷ [])
new_ids = ground arith

first_ids : All (λ (t : ℕ). t ≢ 0) (11 ∷ [])
first_ids = ground arith

first_run : Reach first grown_to_3
first_run =
    next (next (next (next (next here first_add) first_fetch) first_start) second_add)
      (grow old_numbers (12 ∷ 13 ∷ []) new_ids)

grown_numbers : (grown_to_3.pool.live_num ≡ 3) × (tally each grown_to_3.workers ≡ 3)
unfolding manager_grow fill_free thread_init
grown_numbers = (refl, refl)

pool_tasks_example :
    (grown_to_3.taken ++ contents grown_to_3.pool ≡ grown_to_3.submitted)
    × (length (contents grown_to_3.pool) ≤ 2)
    × ((x : Task)
        → count x grown_to_3.submitted
          ≡ count x grown_to_3.finished
            + tally (has_task x) grown_to_3.workers
            + count x (contents grown_to_3.pool))
    × (grown_to_3.pool.busy_num ≡ tally busy grown_to_3.workers)
pool_tasks_example =
    pool_tasks 1 3 2 (0 ∷ 0 ∷ []) (11 ∷ []) (omega arith) (omega arith) refl (omega arith) first_ids
      grown_to_3 first_run

still_on : grown_to_3.pool.stopping ≡ false
unfolding manager_grow fill_free thread_init
still_on = refl

pool_live_example :
    (1 ≤ grown_to_3.pool.live_num)
    × (grown_to_3.pool.live_num ≤ 3)
    × (grown_to_3.pool.live_num ≡ tally staying grown_to_3.workers)
    × (grown_to_3.pool.busy_num ≤ grown_to_3.pool.live_num)
    × (tally each grown_to_3.workers ≤ 3)
pool_live_example =
    pool_live 1 3 2 (0 ∷ 0 ∷ []) (11 ∷ []) (omega arith) (omega arith) refl (omega arith) first_ids
      grown_to_3 first_run still_on

abbrev sample_pool : Threadpool
sample_pool = record {
  taskqueue = 5 ∷ 6 ∷ [];
  queue_capacity = 2;
  queue_size = 1;
  queue_front = 1;
  queue_rear = 0;
  thread_ids = 11 ∷ 0 ∷ [];
  min_num = 1;
  max_num = 2;
  busy_num = 0;
  live_num = 1;
  exit_num = 0;
  stopping = false;
}

sample-IsValid : IsValid sample_pool
sample-IsValid = record {
  storage = refl;
  front_in = omega arith;
  size_in = omega arith;
  rear_at = refl;
}

-- The shutdown of that state, and the end of the task that runs.
abbrev shut_at_3 : System
shut_at_3 = record grown_to_3 { pool = thread_pool_shutdown grown_to_3.pool }

abbrev finished_7 : System
finished_7 =
    record (move shut_at_3 [] (record first_worker { phase = running 7 }) at_head
      (grown submitted_8.pool old_numbers (12 ∷ 13 ∷ []))) {
        pool = end_task shut_at_3.pool;
        finished = 7 ∷ [];
      }

shut_at_3-Inv : Inv shut_at_3
shut_at_3-Inv =
    Step-Inv
      (reached 1 3 2 (0 ∷ 0 ∷ []) (11 ∷ []) (omega arith) (omega arith) refl (omega arith) first_ids
        grown_to_3 first_run).0
      shut_down

last-Run : Run shut_at_3 1 finished_7
unfolding thread_init manager_grow fill_free
last-Run =
    one_more at_rest
      (finish [] (record first_worker { phase = running 7 })
        (grown submitted_8.pool old_numbers (12 ∷ 13 ∷ [])) 7 refl refl)
      refl

flag_set : shut_at_3.pool.stopping ≡ true
unfolding thread_pool_shutdown
flag_set = refl

-- A `pthread_create` of the manager that fails: `liveNUM` counts two threads more, and one of them has
-- an entry in `threadIDs`.
abbrev half_grown : Threadpool
half_grown = manager_grow submitted_8.pool old_numbers (0 ∷ 13 ∷ [])

failed_create_counts :
    (half_grown.live_num ≡ submitted_8.pool.live_num + 2)
    × (occupied half_grown.thread_ids ≡ occupied submitted_8.pool.thread_ids + 1)
unfolding manager_grow fill_free thread_init
failed_create_counts = (refl, refl)
