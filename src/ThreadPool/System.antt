-- ===== src/ThreadPool/System.antt =====
-- The threads of src/thread_pool.c as interleaved critical sections: workers, manager, and callers of
-- `threadPoolAdd`. A condition variable may wake a waiting worker at any time.
use linux_file_manager.Prelude.{
  All, Bool, List, [], false, if◌then◌else◌, ltb, take, true, ℕ, ◌&&◌, ◌++◌, ◌+◌, ◌∷◌, ◌≡◌, ◌≢◌,
}
use linux_file_manager.ThreadPool.{
  Snapshot, Task, Threadpool, added, batch, begin_task, end_task, fill_free, leaves, manager_grow,
  manager_shrink, thread_pool_add, thread_pool_shutdown, threadexit, took, waits_for_task,
  worker_take, worker_woken,
}

-- Where a worker stands: at the head of its loop, in `pthread_cond_wait`, between taking a task and
-- counting itself busy, running the task, or on its way into `threadexit`.
pub data Phase : Type 0 where
  at_head : Phase
  waiting : Phase
  holding : Task → Phase
  running : Task → Phase
  exiting : Phase

pub record Worker : Type 0 where
  pub tid : ℕ
  pub phase : Phase

-- `submitted`, `taken` and `finished` record the tasks in the order in which these things happened.
pub record System : Type 0 where
  pub pool : Threadpool
  pub workers : List Worker
  pub submitted : List Task
  pub taken : List Task
  pub finished : List Task

abbrev pub start_worker : ℕ → Worker
start_worker tid = record { tid = tid; phase = at_head }

abbrev pub start_all : List ℕ → List Worker
start_all [] = []
start_all (t ∷ ts) = start_worker t ∷ start_all ts

-- The threads that the manager starts: those that `fill_free` gave an entry.
abbrev pub grown : Threadpool → Snapshot → List ℕ → List Worker
grown p s fresh =
    if ltb s.live_num (s.queue_size + s.busy_num) && ltb s.live_num p.max_num
    then start_all (take (fill_free batch p.thread_ids fresh).1 fresh)
    else []

abbrev pub woken_phase : Bool → Phase
woken_phase true = exiting
woken_phase false = at_head

abbrev pub move : System → List Worker → Worker → Phase → List Worker → System
move s ls w ph rs = record s { workers = ls ++ record w { phase = ph } ∷ rs }

-- A manager's snapshot may be old: it is any values at all. Each `pthread_create` succeeds: it gives out
-- an identifier that is not 0.
pub data Step (s : System) : System → Type 0 where
  submit :
      (t : Task) (p : Threadpool)
      → thread_pool_add s.pool t ≡ added p
      → Step s (record s { pool = p; submitted = s.submitted ++ t ∷ [] })
  sleep :
      (ls : List Worker) (w : Worker) (rs : List Worker)
      → s.workers ≡ ls ++ w ∷ rs
      → w.phase ≡ at_head
      → worker_take s.pool ≡ waits_for_task
      → Step s (move s ls w waiting rs)
  fetch :
      (ls : List Worker) (w : Worker) (rs : List Worker) (t : Task) (p : Threadpool)
      → s.workers ≡ ls ++ w ∷ rs
      → w.phase ≡ at_head
      → worker_take s.pool ≡ took t p
      → Step s (record (move s ls w (holding t) rs) { pool = p; taken = s.taken ++ t ∷ [] })
  wake :
      (ls : List Worker) (w : Worker) (rs : List Worker)
      → s.workers ≡ ls ++ w ∷ rs
      → w.phase ≡ waiting
      → Step s (record (move s ls w (woken_phase (worker_woken s.pool).0) rs) {
        pool = (worker_woken s.pool).1;
      })
  leave :
      (ls : List Worker) (w : Worker) (rs : List Worker)
      → s.workers ≡ ls ++ w ∷ rs
      → w.phase ≡ at_head
      → worker_take s.pool ≡ leaves
      → Step s (move s ls w exiting rs)
  start :
      (ls : List Worker) (w : Worker) (rs : List Worker) (t : Task)
      → s.workers ≡ ls ++ w ∷ rs
      → w.phase ≡ holding t
      → Step s (record (move s ls w (running t) rs) { pool = begin_task s.pool })
  finish :
      (ls : List Worker) (w : Worker) (rs : List Worker) (t : Task)
      → s.workers ≡ ls ++ w ∷ rs
      → w.phase ≡ running t
      → Step s (record (move s ls w at_head rs) {
        pool = end_task s.pool;
        finished = s.finished ++ t ∷ [];
      })
  exit :
      (ls : List Worker) (w : Worker) (rs : List Worker)
      → s.workers ≡ ls ++ w ∷ rs
      → w.phase ≡ exiting
      → Step s (record s { pool = threadexit s.pool w.tid; workers = ls ++ rs })
  grow :
      (old : Snapshot) (fresh : List ℕ)
      → All (λ t. t ≢ 0) fresh
      → Step s (record s {
        pool = manager_grow s.pool old fresh;
        workers = s.workers ++ grown s.pool old fresh;
      })
  shrink : (old : Snapshot) → Step s (record s { pool = manager_shrink s.pool old })
  shut_down : Step s (record s { pool = thread_pool_shutdown s.pool })

pub data Reach (s : System) : System → Type 0 where
  here : Reach s s
  next : {t u : System} → Reach s t → Step t u → Reach s u
