-- ===== src/ThreadPool/Execution.antt =====
-- The pool of src/thread_pool.c from `Thread_init` on, in every interleaving of its threads.
use native.Mathlib.Nat.{mod-eq_of_lt}
use linux_file_manager.Prelude.{
  All, All-take, List, [], ap, arith, false, inl, inr, length, refl, suc, sym, take, zero, ℕ, ◌++◌,
  ◌+◌, ◌<◌, ◌∙◌, ◌∷◌, ◌≡◌, ◌≢◌, ◌≤◌,
}
use linux_file_manager.ThreadPool.Steps.{Step-Inv}
use linux_file_manager.ThreadPool.{
  Task, begin_task, end_task, fill_free, manager_grow, manager_shrink, thread_init,
  thread_pool_shutdown, threadexit, zero_ids,
}
use linux_file_manager.ThreadPool.Ring.{added_after, contents, length-contents, took_after}
use linux_file_manager.ThreadPool.System.{
  Reach, Step, System, exit, fetch, finish, grow, here, leave, next, shrink, shut_down, sleep,
  start, start_all, submit, wake,
}
use linux_file_manager.ThreadPool.Tally.{
  busy, busy-le-staying, busy-start_all, count, count-append, count-fill_free, count_zero, each,
  each-start_all, has_task, has_task-start_all, has_tid-start_all, length-fill_free,
  length-take-fill_free, occupied, occupied-fill_free, occupied-le-length, staying, staying-le-each,
  staying-start_all, tally,
}
use linux_file_manager.ThreadPool.Invariant.{Inv, worker_woken_cases}

-- The sizes that `Thread_init` was given.
abbrev Sizes : System → ℕ → ℕ → ℕ → Type 0
Sizes s min max capacity =
    (s.pool.min_num ≡ min) × (s.pool.max_num ≡ max) × (s.pool.queue_capacity ≡ capacity)

-- The state when `Thread_init` has returned.
abbrev pub started : ℕ → ℕ → ℕ → List Task → List ℕ → System
started min max queuesize storage fresh = record {
  pool = thread_init min max queuesize storage fresh;
  workers = start_all (take (fill_free min (zero_ids max) fresh).1 fresh);
  submitted = [];
  taken = [];
  finished = [];
}

length-zero_ids : (n : ℕ) → length (zero_ids n) ≡ n
unfolding zero_ids
length-zero_ids zero = refl
length-zero_ids (suc n) = ap suc (length-zero_ids n)

occupied-zero_ids : (n : ℕ) → occupied (zero_ids n) ≡ 0
unfolding zero_ids
occupied-zero_ids zero = refl
occupied-zero_ids (suc n) = omega (arith, occupied-zero_ids n)

count-zero_ids : (k n : ℕ) → k ≢ 0 → count k (zero_ids n) ≡ 0
unfolding zero_ids
count-zero_ids k zero nk = refl
count-zero_ids k (suc n) nk = ground (arith, count-zero_ids k n nk)

-- With room and identifiers for all of them, all workers start.
fill_free-zero_ids :
    (c n : ℕ) (fresh : List ℕ) → c ≤ n → c ≤ length fresh → (fill_free c (zero_ids n) fresh).1 ≡ c
unfolding fill_free zero_ids
fill_free-zero_ids zero zero fresh h len = refl
fill_free-zero_ids zero (suc n) fresh h len = refl
fill_free-zero_ids (suc c) zero fresh h len = absurd (omega arith)
fill_free-zero_ids (suc c) (suc n) [] h len = absurd (omega arith)
fill_free-zero_ids (suc c) (suc n) (t ∷ fresh) h len =
    ap suc (fill_free-zero_ids c n fresh (omega arith) (omega arith))

module _ {s : System} (v : Inv s) where
  -- The tasks that were submitted are the finished ones, those in a worker's hand, and those that wait.
  conserved :
      (x : Task)
      → count x s.submitted
        ≡ count x s.finished + tally (has_task x) s.workers + count x (contents s.pool)
  conserved x =
      omega
        (arith, ap (count x) (sym v.fifo), count-append x s.taken (contents s.pool), v.in_hand x)

-- `Thread_init` establishes the invariant, when its numbers fit and `malloc` gives the storage.
pub started-Inv :
    (min max queuesize : ℕ) (storage : List Task) (fresh : List ℕ)
    → min ≤ max
    → 0 < queuesize
    → length storage ≡ queuesize
    → min ≤ length fresh
    → All (λ t. t ≢ 0) fresh
    → Inv (started min max queuesize storage fresh)
unfolding thread_init
started-Inv min max queuesize storage fresh fit pos len many h =
    let ids : List ℕ = zero_ids max in
    let n : ℕ = (fill_free min ids fresh).1 in
    let ts : List ℕ = take n fresh in
    let all_start : n ≡ min = fill_free-zero_ids min max fresh fit many in
    let all_ts : length ts ≡ n = length-take-fill_free min ids fresh in
    record {
      ring = record {
        storage = len;
        front_in = pos;
        size_in = omega arith;
        rear_at = sym (mod-eq_of_lt pos);
      };
      fifo = refl;
      busy_workers = sym (busy-start_all ts);
      live_workers = λ run. omega (arith, all_start, all_ts, staying-start_all ts);
      entries = omega (
        arith,
        occupied-fill_free min ids fresh h,
        occupied-zero_ids max,
        all_ts,
        each-start_all ts,
      );
      ids = λ k nk. omega (
        arith,
        count-fill_free min k ids fresh h nk,
        count-zero_ids k max nk,
        has_tid-start_all k ts,
      );
      nonzero =
          omega (arith, has_tid-start_all 0 ts, count_zero ts (All-take (λ t. t ≢ 0) n fresh h));
      slots = length-fill_free min ids fresh ∙ length-zero_ids max;
      at_least = omega arith;
      in_hand = λ x. omega (arith, has_task-start_all x ts);
    }

-- A step keeps the sizes.
Step-Sizes :
    (min max places : ℕ) {s t : System}
    → Inv s
    → Sizes s min max places
    → Step s t
    → Sizes t min max places
unfolding begin_task end_task threadexit manager_grow manager_shrink thread_pool_shutdown
Step-Sizes min max places {s} v z (submit t p e) = rw ((added_after s.pool t p v.ring e).0) z
Step-Sizes min max places v z (sleep ls w rs e ph _) = z
Step-Sizes min max places {s} v z (fetch ls w rs t p e ph taken) =
    rw ((took_after s.pool t p taken).0) z
Step-Sizes min max places {s} v z (wake ls w rs e ph) = elim (worker_woken_cases s.pool) [
  | inl (r, more) ↦ rw r z
  | inr (n, r) ↦ rw r z
]
Step-Sizes min max places v z (leave ls w rs e ph left) = z
Step-Sizes min max places v z (start ls w rs t e ph) = z
Step-Sizes min max places v z (finish ls w rs t e ph) = z
Step-Sizes min max places v z (exit ls w rs e ph) = z
Step-Sizes min max places v z (grow old fresh h) = ground (arith, z)
Step-Sizes min max places v z (shrink old) = ground (arith, z)
Step-Sizes min max places v z shut_down = z

Reach-Inv :
    (min max places : ℕ) {s t : System}
    → Inv s
    → Sizes s min max places
    → Reach s t
    → Inv t × Sizes t min max places
Reach-Inv min max places v z here = (v, z)
Reach-Inv min max places v z (next r step) =
    let (u, y) = Reach-Inv min max places v z r in
    (Step-Inv u step, Step-Sizes min max places u y step)

module _ (min max queuesize : ℕ) (storage : List Task) (fresh : List ℕ) (fit : min ≤ max)
    (pos : 0 < queuesize) (len : length storage ≡ queuesize) (many : min ≤ length fresh)
    (h : All (λ t. t ≢ 0) fresh) (s : System)
    (run : Reach (started min max queuesize storage fresh) s) where
  pub reached : Inv s × Sizes s min max queuesize
  unfolding thread_init
  reached =
      Reach-Inv min max queuesize (started-Inv min max queuesize storage fresh fit pos len many h)
        (refl, refl, refl) run

  -- `Thread_init` is called with a queue of at least one place and a minimum that is not above the
  -- maximum, and its allocations and threads succeed. Whatever the threads do then: the workers have
  -- taken the tasks in the order of submission and the others wait in that order, at most the
  -- capacity; each task was finished, is in the hand of a worker, or waits, as often as it was
  -- submitted; and `busyNUM` counts the workers that run a task.
  pub pool_tasks :
      (s.taken ++ contents s.pool ≡ s.submitted)
      × (length (contents s.pool) ≤ queuesize)
      × ((x : Task)
          → count x s.submitted
            ≡ count x s.finished + tally (has_task x) s.workers + count x (contents s.pool))
      × (s.pool.busy_num ≡ tally busy s.workers)
  pool_tasks =
      let (v, z) = reached in
      (
        v.fifo,
        omega (arith, length-contents s.pool, v.ring.size_in, z.2),
        conserved v,
        v.busy_workers,
      )

  -- `Thread_init` is called with a queue of at least one place and a minimum that is not above the
  -- maximum; `malloc` gives storage for the queue, and each `pthread_create`, the manager's included,
  -- succeeds and gives an identifier that is not 0, at the start as many as the minimum. Whatever the
  -- threads do then, as long as there is no shutdown: `liveNUM` is between the minimum and the maximum, it
  -- counts the workers that are not on their way out, the busy ones are at most as many, and at most the
  -- maximum of workers have not cleared their entry of `threadIDs` (a thread that has done so, in
  -- `threadexit`, counts as gone, though its `pthread_exit` is still to come).
  pub pool_live :
      s.pool.stopping ≡ false
      → (min ≤ s.pool.live_num)
        × (s.pool.live_num ≤ max)
        × (s.pool.live_num ≡ tally staying s.workers)
        × (s.pool.busy_num ≤ s.pool.live_num)
        × (tally each s.workers ≤ max)
  pool_live on =
      let (v, z) = reached in
      let live : s.pool.live_num ≡ tally staying s.workers = v.live_workers on in
      let entries : tally each s.workers ≤ max =
        omega (arith, v.entries, occupied-le-length s.pool.thread_ids, v.slots, z.1) in
      (
        omega (arith, v.at_least, z.0),
        omega (arith, live, staying-le-each s.workers, entries),
        live,
        omega (arith, live, v.busy_workers, busy-le-staying s.workers),
        entries,
      )
