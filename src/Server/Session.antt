-- ===== src/Server/Session.antt =====
-- What `gateway_server_menu` of src/menu.c leaves behind.
use linux_file_manager.Prelude.{
  Bool, Bool-cases, List, Option, [], ap, arith, false, if◌then◌else◌, inl, inr, none, refl, some,
  subst, suc, sym, true, zero, ℕ, ◌&&◌, ◌++◌, ◌∙◌, ◌∷◌, ◌≡◌, ◌≢◌, ◌⊎◌,
}
use linux_file_manager.Gateway.Console.Prompt.Ending.{interactive_thread_func_ends}
use linux_file_manager.Gateway.Console.Prompt.Keeping.{
  interactive_thread_func-main_fields, main_fields,
}
use linux_file_manager.Gateway.Console.Prompt.{Prompt, interactive_thread_func}
use linux_file_manager.Config.{Config, same}
use linux_file_manager.ThreadPool.{Threadpool, thread_pool_shutdown}
use linux_file_manager.Gateway.Callbacks.{register_handlers}
use linux_file_manager.Gateway.{Effect, GatewayCtx, close}
use linux_file_manager.Gateway.Lifecycle.{
  close_devices, fresh_ctx, gateway_cleanup, gateway_run_interactive, gateway_stop,
}
use linux_file_manager.Gateway.Lifecycle.Laws.{
  finished_ctx, gateway_init_cases, gateway_run-stop, gateway_run_started, stop_listening,
}
use linux_file_manager.Server.{
  get_or_else, at_prompt, close_server, ServerCalls, ServerEnd, create_pool, ended, gateway_opened,
  gateway_server_menu, no_gateway, no_pool, pool_made, pool_opened, run_server, server_pool,
  undefined_free,
}

-- The context is stopped: its listening socket, number `fd`, was closed, and no thread, device or
-- handler is left.
pub record IsReleased (c : GatewayCtx) (fd : ℕ) : Type 0 where
  pub not_running : c.running ≡ false
  pub not_listening : c.listen_fd ≡ none
  pub no_accept : c.accept_thread ≡ false
  pub no_heartbeat : c.heartbeat_thread ≡ false
  pub no_devices : c.devices ≡ []
  pub no_handlers : c.handlers ≡ []
  pub closed : (before after : List Effect) × (c.trace ≡ before ++ close fd ∷ after)

-- What each end means for the calls and for what they opened.
abbrev pub Releases : ServerCalls → ServerEnd → Type 0
Releases calls (no_pool input) = calls.pool_allocated ≡ false
Releases calls (no_gateway pool es input) =
    (pool.stopping ≡ true)
    × ((calls.ctx_allocated ≡ false)
        ⊎ (calls.socket ≡ none)
        ⊎ ((fd : ℕ) × (calls.socket ≡ some fd) × (es ≡ close fd ∷ [])))
Releases calls (ended pool c input) =
    (pool.stopping ≡ true) × (fd : ℕ) × (calls.socket ≡ some fd) × IsReleased c fd
Releases calls undefined_free =
    (calls.pool_allocated ≡ true) × ((calls.ids_allocated ≡ false) ⊎ (calls.locks_ready ≡ false))

stops : (pool : Threadpool) → (thread_pool_shutdown pool).stopping ≡ true
unfolding thread_pool_shutdown
stops pool = refl

finished-IsReleased :
    (c x : GatewayCtx) (pool : Bool) (n : ℕ)
    → c ≡ finished_ctx x pool n
    → IsReleased (gateway_cleanup c) (suc n)
unfolding gateway_cleanup
finished-IsReleased c x pool n e = record {
  not_running = ap (λ (y : GatewayCtx). y.running) e;
  not_listening = ap (λ (y : GatewayCtx). y.listen_fd) e;
  no_accept = ap (λ (y : GatewayCtx). y.accept_thread) e;
  no_heartbeat = ap (λ (y : GatewayCtx). y.heartbeat_thread) e;
  no_devices = ap (λ (y : GatewayCtx). y.devices) e;
  no_handlers = refl;
  closed = (x.trace, close_devices x.devices, ap (λ (y : GatewayCtx). y.trace) e);
}

-- A run with all its threads keeps what the stop looks at.
started_keeps :
    (c : GatewayCtx) (n : ℕ) (a h k : Bool)
    → c.listen_fd ≡ some n
    → (a && h && k) ≡ true
    → ((gateway_run_interactive c true a h k).listen_fd ≡ c.listen_fd)
      × ((gateway_run_interactive c true a h k).stopped ≡ c.stopped)
started_keeps c n true true true e all = (
  ap (λ (y : GatewayCtx). y.listen_fd) (gateway_run_started c n true e),
  ap (λ (y : GatewayCtx). y.stopped) (gateway_run_started c n true e),
)
started_keeps c n false h k e all = absurd (ground (arith, all))
started_keeps c n true false k e all = absurd (ground (arith, all))
started_keeps c n true true false e all = absurd (ground (arith, all))

module _ (calls : ServerCalls)
    (keeps : (c : GatewayCtx) (pool : Option Threadpool)
      → main_fields (calls.meanwhile (c, pool)).0 ≡ main_fields c)
    (positive : calls.socket ≢ some 0) where
  -- Stopping the context after a run, whichever threads could be started.
  run-IsReleased :
      (pool : Threadpool) (input : List ℕ) (c : GatewayCtx) (n : ℕ)
      → c.listen_fd ≡ some (suc n)
      → c.stopped ≡ false
      → IsReleased (gateway_cleanup (gateway_stop (run_server calls pool input c).ctx)) (suc n)
  unfolding run_server get_or_else
  run-IsReleased pool input c n e s =
      let run : GatewayCtx =
        gateway_run_interactive c true calls.accept calls.heartbeat calls.console in
      let start : Prompt = at_prompt pool input run in
      let all : Bool = calls.accept && calls.heartbeat && calls.console in
      let end : Option Prompt = interactive_thread_func calls.env calls.meanwhile start in
      let Released : Prompt → Type 0 =
        λ q. IsReleased (gateway_cleanup (gateway_stop q.ctx)) (suc n) in
      let Holds : Bool → Type 0 = λ b. Released (if b then get_or_else start end else start) in
      elim (Bool-cases all) [
        | inl started ↦
            let (same, going) =
              started_keeps c (suc n) calls.accept calls.heartbeat calls.console e started in
            let (q, ends, left, why) =
              interactive_thread_func_ends calls.env calls.meanwhile start in
            let kept : main_fields q.ctx ≡ main_fields run =
              interactive_thread_func-main_fields calls.env calls.meanwhile keeps start q ends in
            subst Holds (sym started) (
              subst (λ r. Released (get_or_else start r)) (sym ends)
                (finished-IsReleased _ q.ctx q.ctx.pool n (
                  stop_listening q.ctx n (ap (λ m. m.1) kept ∙ going ∙ s)
                    (ap (λ m. m.0) kept ∙ same ∙ e))))
        | inr aborted ↦ subst Holds (sym aborted) (
            finished-IsReleased _ c true n
              (gateway_run-stop c n true calls.accept calls.heartbeat calls.console e s))
      ]

  gateway-Releases :
      (pool : Threadpool) (input : List ℕ) (r : Option GatewayCtx × List Effect)
      → r.0 ≡ none
      → (calls.ctx_allocated ≡ false)
        ⊎ (calls.socket ≡ none)
        ⊎ ((fd : ℕ) × (calls.socket ≡ some fd) × (r.1 ≡ close fd ∷ []))
      → Releases calls (gateway_opened calls pool input r)
  unfolding gateway_opened
  gateway-Releases pool input (none, es) e why = (stops pool, why)
  gateway-Releases pool input (some c, es) e why = absurd (ground (arith, e))

  fresh-Releases :
      (pool : Threadpool) (input : List ℕ) (fd : ℕ)
      → calls.socket ≡ some fd
      → Releases calls (gateway_opened calls pool input (some (fresh_ctx 6789 fd), []))
  unfolding gateway_opened close_server register_handlers
  fresh-Releases pool input zero e = absurd (positive e)
  fresh-Releases pool input (suc n) e = (
    stops (
        get_or_else pool
          (run_server calls pool input (register_handlers (fresh_ctx 6789 (suc n)))).pool),
    suc n,
    e,
    run-IsReleased pool input (register_handlers (fresh_ctx 6789 (suc n))) n refl refl,
  )

  opened-Releases :
      (pool : Threadpool) (input : List ℕ)
      → Releases calls (pool_opened calls input (pool_made pool))
  unfolding pool_opened
  opened-Releases pool input =
      elim (gateway_init_cases 6789 calls.ctx_allocated calls.socket calls.bound calls.listening) [
        | inl (fd, allocated, opened, bound, listening, same) ↦
            subst (λ r. Releases calls (gateway_opened calls pool input r)) (sym same)
              (fresh-Releases pool input fd opened)
        | inr (nothing, why) ↦ gateway-Releases pool input _ nothing why
      ]

  pool-Releases :
      (pool : Threadpool) (input : List ℕ) (allocated ids locks : Bool)
      → calls.pool_allocated ≡ allocated
      → calls.ids_allocated ≡ ids
      → calls.locks_ready ≡ locks
      → Releases calls (pool_opened calls input (create_pool allocated ids locks pool))
  unfolding create_pool pool_opened
  pool-Releases pool input false ids locks a i l = a
  pool-Releases pool input true false locks a i l = (a, inl i)
  pool-Releases pool input true true false a i l = (a, inr l)
  pool-Releases pool input true true true a i l = opened-Releases pool input

  -- When `socket` does not return 0, and the threads leave the listening socket and `stopped` to the
  -- main thread, and the pool's `taskqueue` and all its own threads are had: whether or not the pool's own
  -- allocation, its `threadIDs`, its locks, the context, `socket`, `bind`, `listen` and the gateway's
  -- three threads are. The menu ends without a pool only when the allocation of the pool failed. Without
  -- a context, the pool was shut down, and the context's allocation or `socket` failed or the socket was
  -- closed, and nothing else done to it. With one, the pool was shut down and the context is stopped, its
  -- socket closed and empty. The unset pointer is freed only when `threadIDs` or a lock of the pool
  -- failed. The JSON log that `gateway_init` opens is left out.
  pub gateway_server_menu_lem :
      (config : Config) (input : List ℕ) → Releases calls (gateway_server_menu calls config input)
  unfolding gateway_server_menu
  gateway_server_menu_lem config input =
      pool-Releases (server_pool config calls.storage calls.fresh) input calls.pool_allocated
        calls.ids_allocated calls.locks_ready refl refl refl
