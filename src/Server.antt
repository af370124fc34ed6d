-- ===== src/Server.antt =====
-- `gateway_server_menu` of src/menu.c, from the sizes of the thread pool to the end of the gateway.
pub mod Session
pub mod Sizing
pub mod Tests
pub mod Typed
use linux_file_manager.Prelude.{
  Bool, List, Option, [], below, false, if◌then◌else◌, none, some, to_nat, true, ℕ, ◌&&◌, ◌+◌,
}
use linux_file_manager.Terminal.{wait_enter}
use linux_file_manager.Gateway.Callbacks.{register_handlers}
use linux_file_manager.Gateway.Lifecycle.{
  gateway_cleanup, gateway_init, gateway_run_interactive, gateway_stop,
}
use linux_file_manager.Gateway.{Effect, Env, GatewayCtx}
use linux_file_manager.Gateway.Console.Prompt.{Prompt, interactive_thread_func}
use linux_file_manager.Config.{Config}
use linux_file_manager.ThreadPool.{Task, Threadpool, thread_init, thread_pool_shutdown}

pub get_or_else : {A : Type 0} → A → Option A → A
get_or_else a none = a
get_or_else a (some b) = b

pub record PoolSizes : Type 0 where
  pub pool_min : ℕ
  pub pool_max : ℕ
  pub pool_queue : ℕ

pub pool_min_of : Config → ℕ
pool_min_of c = if below 0 c.thread_min then to_nat c.thread_min else 2

pub pool_sizes : Config → PoolSizes
unfolding pool_min_of
pool_sizes c = record {
  pool_min = pool_min_of c;
  pool_max = if below (pool_min_of c) c.thread_max then to_nat c.thread_max else pool_min_of c + 1;
  pool_queue = if below 0 c.task_num then to_nat c.task_num else 100;
}

-- `g_server_pool`, when `Thread_init` succeeds; `storage` and `fresh` as there.
pub server_pool : Config → List Task → List ℕ → Threadpool
unfolding pool_sizes
server_pool c storage fresh =
    let s = pool_sizes c in thread_init s.pool_min s.pool_max s.pool_queue storage fresh

-- What the calls that `gateway_server_menu` leads to give: each allocation, each `pthread_create`, the
-- locks, and the socket; what the sends of the console use; and, as `meanwhile`, what the other threads
-- do to the context and the pool while the console waits for a line.
pub record ServerCalls : Type 0 where
  pub pool_allocated : Bool
  pub ids_allocated : Bool
  pub locks_ready : Bool
  pub storage : List Task
  pub fresh : List ℕ
  pub ctx_allocated : Bool
  pub socket : Option ℕ
  pub bound : Bool
  pub listening : Bool
  pub accept : Bool
  pub heartbeat : Bool
  pub console : Bool
  pub env : Env
  pub meanwhile : GatewayCtx × Option Threadpool → GatewayCtx × Option Threadpool

-- The result of `Thread_init`. When `threadIDs` or a lock fails, it passes `taskqueue` to `free` though
-- it was never set.
pub data PoolStart : Type 0 where
  pool_made : Threadpool → PoolStart
  pool_refused freed_unset : PoolStart

pub create_pool : Bool → Bool → Bool → Threadpool → PoolStart
create_pool false ids locks pool = pool_refused
create_pool true false locks pool = freed_unset
create_pool true true false pool = freed_unset
create_pool true true true pool = pool_made pool

-- How `gateway_server_menu` ends, with the pool as it was destroyed, the context as it was freed or
-- what was done to the socket, and the input that is left.
pub data ServerEnd : Type 0 where
  no_pool : List ℕ → ServerEnd
  no_gateway : Threadpool → List Effect → List ℕ → ServerEnd
  ended : Threadpool → GatewayCtx → List ℕ → ServerEnd
  undefined_free : ServerEnd

-- The input that is left, where the run is defined.
pub left_input : ServerEnd → Option (List ℕ)
left_input (no_pool input) = some input
left_input (no_gateway pool es input) = some input
left_input (ended pool c input) = some input
left_input undefined_free = none

-- The console when `gateway_run_interactive` starts it.
abbrev pub at_prompt : Threadpool → List ℕ → GatewayCtx → Prompt
at_prompt pool input c = record { ctx = c; pool = some pool; input = input; shown = [] }

-- The console when `gateway_run_interactive` returns, which waits for its thread. In a start that fails,
-- the threads that were started change nothing.
pub run_server : ServerCalls → Threadpool → List ℕ → GatewayCtx → Prompt
run_server calls pool input c =
    let run = gateway_run_interactive c true calls.accept calls.heartbeat calls.console in
    if calls.accept && calls.heartbeat && calls.console
    then get_or_else (at_prompt pool input run)
        (interactive_thread_func calls.env calls.meanwhile (at_prompt pool input run))
    else at_prompt pool input run

-- `g_server_pool` is destroyed, which the console's thread had a pointer to.
pub close_server : Threadpool → Prompt → ServerEnd
close_server pool q =
    ended (thread_pool_shutdown (get_or_else pool q.pool)) (gateway_cleanup (gateway_stop q.ctx))
      q.input

pub gateway_opened : ServerCalls → Threadpool → List ℕ → Option GatewayCtx × List Effect → ServerEnd
unfolding run_server close_server
gateway_opened calls pool input (none, es) =
    no_gateway (thread_pool_shutdown pool) es (wait_enter input)
gateway_opened calls pool input (some c, es) =
    close_server pool (run_server calls pool input (register_handlers c))

pub pool_opened : ServerCalls → List ℕ → PoolStart → ServerEnd
unfolding gateway_opened
pool_opened calls input pool_refused = no_pool (wait_enter input)
pool_opened calls input freed_unset = undefined_free
pool_opened calls input (pool_made pool) =
    gateway_opened calls pool input
      (gateway_init 6789 calls.ctx_allocated calls.socket calls.bound calls.listening)

pub gateway_server_menu : ServerCalls → Config → List ℕ → ServerEnd
unfolding create_pool pool_opened server_pool
gateway_server_menu calls config input =
    let pool = server_pool config calls.storage calls.fresh in
    pool_opened calls input
      (create_pool calls.pool_allocated calls.ids_allocated calls.locks_ready pool)
