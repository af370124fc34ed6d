-- ===== src/Gateway/Lifecycle.antt =====
-- Start and stop of the gateway: `gateway_init`, `gateway_run_interactive`, `gateway_stop` and
-- `gateway_cleanup` of src/gateway.c. What `socket`, `bind`, `listen` and `pthread_create` return are
-- arguments; a join clears the thread's field.
pub mod Closing
pub mod Laws
use linux_file_manager.Prelude.{
  Bool, List, Option, [], false, if◌then◌else◌, ltb, none, some, suc, true, zero, ℕ, ◌++◌, ◌∷◌,
}
use linux_file_manager.Gateway.{Effect, GatewayCtx, GatewayDevice, close, emit, shutdown}

abbrev pub fresh_ctx : ℕ → ℕ → GatewayCtx
fresh_ctx port fd = record {
  port = port;
  listen_fd = some fd;
  running = false;
  stopped = false;
  devices = [];
  handlers = [];
  pool = false;
  accept_thread = false;
  heartbeat_thread = false;
  trace = [];
}

-- `calloc` succeeds or not, `socket` returns a descriptor or -1, `bind` and `listen` succeed or
-- not. The result is the context, if any, and what was done to the socket. `LOG_JSON_INIT` is left out.
pub gateway_init : ℕ → Bool → Option ℕ → Bool → Bool → Option GatewayCtx × List Effect
gateway_init port false socket bound listening = (none, [])
gateway_init port true none bound listening = (none, [])
gateway_init port true (some fd) bound listening =
    if bound
    then if listening then (some (fresh_ctx port fd), []) else (none, close fd ∷ [])
    else (none, close fd ∷ [])

-- `if (ctx->listen_fd > 0) { close(ctx->listen_fd); ctx->listen_fd = -1; }`
pub close_listen_from : GatewayCtx → Option ℕ → GatewayCtx
close_listen_from c none = c
close_listen_from c (some zero) = c
close_listen_from c (some (suc n)) = record (emit c (close (suc n) ∷ [])) { listen_fd = none }

pub close_listen : GatewayCtx → GatewayCtx
unfolding close_listen_from
close_listen c = close_listen_from c c.listen_fd

-- `if (ctx->accept_thread_id) { pthread_join(…); ctx->accept_thread_id = 0; }`
pub join_accept : GatewayCtx → GatewayCtx
join_accept c = if c.accept_thread then record c { accept_thread = false } else c

pub join_heartbeat : GatewayCtx → GatewayCtx
join_heartbeat c = if c.heartbeat_thread then record c { heartbeat_thread = false } else c

pub run_started : GatewayCtx → Bool → Bool → Bool → GatewayCtx
unfolding close_listen join_accept join_heartbeat
run_started c accept heartbeat console =
    if accept
    then if heartbeat
      then if console
        then record c { accept_thread = true; heartbeat_thread = true }
        else join_heartbeat (
            join_accept (
              close_listen
                (record c { accept_thread = true; heartbeat_thread = true; running = false })))
      else join_accept (
          close_listen
            (record c { accept_thread = true; heartbeat_thread = false; running = false }))
    else record c { accept_thread = false; running = false }

-- Up to the return of this function, or to the wait for the console thread. The last arguments say
-- whether each `pthread_create` succeeds; `pool` says whether there is a thread pool.
pub gateway_run_interactive : GatewayCtx → Bool → Bool → Bool → Bool → GatewayCtx
unfolding run_started
gateway_run_interactive c pool accept heartbeat console = elim c.listen_fd [
  | none ↦ c
  | some _ ↦
      run_started
        (record c { pool = pool; running = true; accept_thread = false; heartbeat_thread = false })
        accept heartbeat console
]

-- `gateway_run`, up to its wait for `running`, with the `pthread_create` of the two threads.
pub gateway_run : GatewayCtx → Bool → Bool → GatewayCtx
gateway_run c accept heartbeat = elim c.listen_fd [
  | none ↦ c
  | some _ ↦
      if accept
      then if heartbeat
        then record c { running = true; accept_thread = true; heartbeat_thread = true }
        else record c { running = false; accept_thread = true }
      else record c { running = true }
]

-- `for` over the table: the sockets with a positive descriptor.
pub close_devices : List GatewayDevice → List Effect
close_devices [] = []
close_devices (d ∷ ds) =
    (if ltb 0 d.fd then shutdown d.fd ∷ close d.fd ∷ [] else []) ++ close_devices ds

pub stop_devices : GatewayCtx → GatewayCtx
unfolding close_devices
stop_devices c = record (emit c (close_devices c.devices)) { devices = [] }

pub gateway_stop : GatewayCtx → GatewayCtx
unfolding stop_devices close_listen join_accept join_heartbeat
gateway_stop c =
    if c.stopped
    then c
    else stop_devices
        (join_heartbeat (join_accept (close_listen (record c { stopped = true; running = false }))))

-- The list of handlers is freed node by node; the context is freed by the caller's last use.
unfoldable pub gateway_cleanup : GatewayCtx → GatewayCtx
gateway_cleanup c = record c { handlers = [] }
