-- ===== src/Server/Sizing.antt =====
-- Whatever the configuration of src/config.c says, the pool of src/menu.c starts well.
use linux_file_manager.Prelude.{
  All, List, arith, below, if◌then◌else◌, length, negsuc, pos, refl, to_nat, ℕ, ℤ, ◌+◌, ◌<◌, ◌≡◌,
  ◌≢◌, ◌≤◌,
}
use linux_file_manager.Config.{Config}
use linux_file_manager.ThreadPool.{Task}
use linux_file_manager.ThreadPool.System.{System}
use linux_file_manager.ThreadPool.Execution.{started, started-Inv}
use linux_file_manager.ThreadPool.Invariant.{Inv}
use linux_file_manager.Server.{pool_min_of, pool_sizes, server_pool}

below_min : (z : ℤ) → 0 < (if below 0 z then to_nat z else 2)
below_min (pos n) = ground arith
below_min (negsuc n) = ground arith

below_max : (m : ℕ) (z : ℤ) → m < (if below m z then to_nat z else m + 1)
below_max m (pos n) = ground arith
below_max m (negsuc n) = ground arith

below_queue : (z : ℤ) → 0 < (if below 0 z then to_nat z else 100)
below_queue (pos n) = ground arith
below_queue (negsuc n) = ground arith

-- For every configuration, negative and zero values and a maximum under the minimum included, the
-- pool has at least one worker, a maximum above its minimum, and a queue with at least one place.
pub pool_sizes_lem :
    (c : Config)
    → (0 < (pool_sizes c).pool_min)
      × ((pool_sizes c).pool_min < (pool_sizes c).pool_max)
      × (0 < (pool_sizes c).pool_queue)
unfolding pool_sizes pool_min_of
pool_sizes_lem c =
    (below_min c.thread_min, below_max (pool_min_of c) c.thread_max, below_queue c.task_num)

-- The state of the server's pool when `Thread_init` has returned.
abbrev pub served : Config → List Task → List ℕ → System
served c storage fresh =
    let s = pool_sizes c in started s.pool_min s.pool_max s.pool_queue storage fresh

-- For every configuration, the server's pool starts in the invariant of the thread pool, when `malloc`
-- gives the storage that was asked for and `pthread_create` as many identifiers, not 0, as there are
-- workers; and it is the pool of the menu.
pub server_pool-Inv :
    (c : Config) (storage : List Task) (fresh : List ℕ)
    → length storage ≡ (pool_sizes c).pool_queue
    → (pool_sizes c).pool_min ≤ length fresh
    → All (λ t. t ≢ 0) fresh
    → Inv (served c storage fresh) × ((served c storage fresh).pool ≡ server_pool c storage fresh)
unfolding server_pool
server_pool-Inv c storage fresh len many h =
    let (least, most, queue) = pool_sizes_lem c in
    (started-Inv _ _ _ storage fresh (omega (arith, most)) queue len many h, refl)
