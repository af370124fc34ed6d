-- ===== src/ThreadPool.antt =====
-- include/thread_pool.h and src/thread_pool.c: the task ring, and the threads that share it. Each
-- operation here is one critical section of `mutexPool` or `mutexBusy`.
pub mod Ring
pub mod System
pub mod Tally
pub mod Invariant
pub mod Steps
pub mod Execution
pub mod Shutdown
pub mod Tests
use linux_file_manager.Prelude.{
  Bool, List, Option, [], false, get_or, if◌then◌else◌, ltb, none, not, set, some, suc, true, zero,
  ℕ, ◌%◌, ◌&&◌, ◌*◌, ◌+◌, ◌-◌, ◌==◌, ◌∷◌,
}

-- A function and its argument, as one number.
abbrev pub Task : Type 0
Task = ℕ

abbrev pub batch : ℕ
batch = 2

-- `threadIDs` has `maxNUM` entries, 0 for a free one.
pub record Threadpool : Type 0 where
  pub taskqueue : List Task
  pub queue_capacity : ℕ
  pub queue_size : ℕ
  pub queue_front : ℕ
  pub queue_rear : ℕ
  pub thread_ids : List ℕ
  pub min_num : ℕ
  pub max_num : ℕ
  pub busy_num : ℕ
  pub live_num : ℕ
  pub exit_num : ℕ
  pub stopping : Bool

-- A task that is not there.
abbrev pub no_task : Task
no_task = 0

-- `threadPoolAdd` from a locked mutex on: it waits for room, returns because of the shutdown, or
-- stores the task.
pub data AddResult : Type 0 where
  waits_for_room : AddResult
  refused : AddResult
  added : Threadpool → AddResult

pub thread_pool_add : Threadpool → Task → AddResult
thread_pool_add p t =
    if p.queue_size == p.queue_capacity && not p.stopping
    then waits_for_room
    else if p.stopping
    then refused
    else added (record p {
      taskqueue = set p.taskqueue p.queue_rear t;
      queue_rear = (p.queue_rear + 1) % p.queue_capacity;
      queue_size = p.queue_size + 1;
    })

-- `worker` from a locked mutex on: it waits for a task, leaves because of the shutdown, or takes
-- the task at the front.
pub data TakeResult : Type 0 where
  waits_for_task : TakeResult
  leaves : TakeResult
  took : Task → Threadpool → TakeResult

pub worker_take : Threadpool → TakeResult
worker_take p =
    if p.queue_size == 0 && not p.stopping
    then waits_for_task
    else if p.stopping
    then leaves
    else took (get_or p.taskqueue p.queue_front no_task) (record p {
      queue_front = (p.queue_front + 1) % p.queue_capacity;
      queue_size = p.queue_size - 1;
    })

-- What a worker does when `pthread_cond_wait` returns: whether it exits, and the pool.
pub worker_woken : Threadpool → Bool × Threadpool
worker_woken p =
    if ltb 0 p.exit_num
    then if ltb p.min_num p.live_num
      then (true, record p { exit_num = p.exit_num - 1; live_num = p.live_num - 1 })
      else (false, record p { exit_num = p.exit_num - 1 })
    else (false, p)

-- `threadexit`: the first entry with the identifier is cleared.
pub clear_id : ℕ → List ℕ → List ℕ
clear_id tid [] = []
clear_id tid (x ∷ xs) = if x == tid then 0 ∷ xs else x ∷ clear_id tid xs

pub threadexit : Threadpool → ℕ → Threadpool
unfolding clear_id
threadexit p tid = record p { thread_ids = clear_id tid p.thread_ids }

pub begin_task : Threadpool → Threadpool
begin_task p = record p { busy_num = p.busy_num + 1 }

pub end_task : Threadpool → Threadpool
end_task p = record p { busy_num = p.busy_num - 1 }

-- The manager's loop over `threadIDs`: free entries get the identifiers of new threads, at most
-- `count` of them. The result is the entries and what `liveNUM` is raised by. A `pthread_create` that
-- fails gives no identifier, 0 in `fresh`: its entry stays free, and it is counted all the same.
pub fill_free : ℕ → List ℕ → List ℕ → List ℕ × ℕ
fill_free count [] fresh = ([], 0)
fill_free zero (x ∷ xs) fresh = (x ∷ xs, 0)
fill_free (suc count) (x ∷ xs) [] = (x ∷ xs, 0)
fill_free (suc count) (x ∷ xs) (t ∷ fresh) = elim (x == 0) [
  | true ↦ let (ys, n) = fill_free count xs fresh in (t ∷ ys, suc n)
  | false ↦ let (ys, n) = fill_free (suc count) xs (t ∷ fresh) in (x ∷ ys, n)
]

-- What the manager has read: `queueSize`, `liveNUM` and `busyNUM`, which other threads change from
-- here on.
pub record Snapshot : Type 0 where
  pub queue_size : ℕ
  pub live_num : ℕ
  pub busy_num : ℕ

abbrev pub manager_reads : Threadpool → Snapshot
manager_reads p = record { queue_size = p.queue_size; live_num = p.live_num; busy_num = p.busy_num }

-- `queueSize>liveNum-busyNum&&liveNum<pool->maxNUM`, over signed numbers. `fresh` are the
-- identifiers that `pthread_create` gives out, 0 where it fails.
pub manager_grow : Threadpool → Snapshot → List ℕ → Threadpool
unfolding fill_free
manager_grow p s fresh =
    if ltb s.live_num (s.queue_size + s.busy_num) && ltb s.live_num p.max_num
    then (let (ids, n) = fill_free batch p.thread_ids fresh in
        record p { thread_ids = ids; live_num = p.live_num + n })
    else p

pub manager_shrink : Threadpool → Snapshot → Threadpool
manager_shrink p s =
    if ltb (s.busy_num * 2) s.live_num && ltb p.min_num s.live_num
    then record p { exit_num = batch }
    else p

-- `memset(pool->threadIDs,0,...)`
pub zero_ids : ℕ → List ℕ
zero_ids zero = []
zero_ids (suc n) = 0 ∷ zero_ids n

-- `Thread_init`, where each allocation and each `pthread_create` succeeds: `fresh` are the
-- identifiers of the workers, `storage` what `malloc` returned.
pub thread_init : ℕ → ℕ → ℕ → List Task → List ℕ → Threadpool
unfolding fill_free zero_ids
thread_init min max queuesize storage fresh = record {
  taskqueue = storage;
  queue_capacity = queuesize;
  queue_size = 0;
  queue_front = 0;
  queue_rear = 0;
  thread_ids = (fill_free min (zero_ids max) fresh).0;
  min_num = min;
  max_num = max;
  busy_num = 0;
  live_num = min;
  exit_num = 0;
  stopping = false;
}

pub thread_pool_busy_num : Threadpool → ℕ
thread_pool_busy_num p = p.busy_num

pub thread_pool_live_num : Threadpool → ℕ
thread_pool_live_num p = p.live_num

-- `threadPoolDestory` up to its joins.
-- The flag. The broadcasts on `notEmpty` and `notFull` are left out: in System a thread that waits may
-- wake at any time, so nothing here says that the waiting threads are woken.
unfoldable pub thread_pool_shutdown : Threadpool → Threadpool
thread_pool_shutdown p = record p { stopping = true }

-- The loop over `threadIDs`: the identifiers that are joined in their order, and the array then.
pub join_workers : List ℕ → List ℕ × List ℕ
join_workers [] = ([], [])
join_workers (x ∷ xs) =
    let (joined, ids) = join_workers xs in
    if x == 0 then (joined, 0 ∷ ids) else (x ∷ joined, 0 ∷ ids)

-- The result is `none` for -1; else the joined workers and the pool as it is freed. `ids` is what
-- `threadIDs` holds at the joins: a worker that has exited before has cleared its entry.
pub thread_pool_destroy : Option Threadpool → List ℕ → Option (List ℕ × Threadpool)
unfolding thread_pool_shutdown join_workers
thread_pool_destroy none ids = none
thread_pool_destroy (some p) ids =
    some
      ((join_workers ids).0, record (thread_pool_shutdown p) { thread_ids = (join_workers ids).1 })
