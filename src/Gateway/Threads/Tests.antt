-- ===== src/Gateway/Threads/Tests.antt =====
-- The interleaved threads of src/gateway.c at concrete clients.
use linux_file_manager.Gateway.Heartbeat.Steps.{resting, sweeping}
use linux_file_manager.Prelude.{
  List, [], arith, get_elem?, none, refl, some, ℕ, ◌++◌, ◌+◌, ◌∷◌, ◌≡◌, ◌≤◌,
}
use linux_file_manager.Gateway.{
  GatewayCtx, GatewayDevice, add_device, close, emit, find_device_by_fd, new_device, remove_device,
  shutdown,
}
use linux_file_manager.Gateway.Kept.{closes, main_state, times}
use linux_file_manager.Gateway.Registry.{HasNoFd, IsValid}
use linux_file_manager.Gateway.Heartbeat.{heartbeat_sweep}
use linux_file_manager.Gateway.Tests.{lamp, sample_ctx, sample_env, sensor}
use linux_file_manager.Gateway.Heartbeat.Steps.Alone.{beats-heartbeat_sweep}
use linux_file_manager.Gateway.Heartbeat.Steps.Beats.{beats}
use linux_file_manager.Gateway.Threads.Counting.{waits, works}
use linux_file_manager.Gateway.Threads.Others.{Meanwhile, meanwhile-main_state, nothing, other}
use linux_file_manager.Gateway.Threads.Stopping.{stopped, stopped_twice}
use linux_file_manager.Gateway.Threads.Table.{
  reach-IsValid, sockets_closed_once, waiting-HasNoFd, worker_finds,
}
use linux_file_manager.Gateway.Threads.{
  Conn, Reach, Threads, accept, enlist, finish, hang_up, here, leaving, move, next, queued, reading,
  remove_one, start, started, unlist, unlisted,
}

abbrev pub ip : List ℕ
ip = b'1' ∷ []

abbrev pub waiting : ℕ → Threads → Threads
waiting fd s = record s {
  accepting = some fd;
  open_fds = fd ∷ s.open_fds;
  accepted = fd ∷ s.accepted;
}

abbrev pub enlisted : ℕ → Threads → Threads
enlisted fd s = record s {
  ctx = record s.ctx { devices = s.ctx.devices ++ new_device fd ip 9000 100 ∷ [] };
  accepting = none;
  conns = s.conns ++ record { fd = fd; phase = queued } ∷ [];
}

abbrev second : Conn
second = record { fd = 5; phase = reading }

abbrev pub first : Conn
first = record { fd = 4; phase = reading }

abbrev pub first_queued : Conn
first_queued = record { fd = 4; phase = queued }

abbrev second_queued : Conn
second_queued = record { fd = 5; phase = queued }

-- The first client, 4, whose worker runs, and the second, 5, queued and then running.
abbrev one_runs : Threads
one_runs = move (enlisted 4 (waiting 4 (started sample_ctx))) [] first_queued reading []

abbrev second_waits : Threads
second_waits = enlisted 5 (waiting 5 one_runs)

abbrev two_clients : Threads
two_clients = move second_waits (first ∷ []) second_queued reading []

second_waits-Reach : Reach sample_env (started sample_ctx) second_waits
unfolding add_device
second_waits-Reach =
    next
      (next
        (next (next (next here (accept 4 refl refl refl)) (enlist 4 ip 9000 100 _ refl refl refl))
          (start [] first_queued [] refl refl))
        (accept 5 refl refl refl))
      (enlist 5 ip 9000 100 _ refl refl refl)

two_clients-Reach : Reach sample_env (started sample_ctx) two_clients
two_clients-Reach = next second_waits-Reach (start (first ∷ []) second_queued [] refl refl)

two_clients-Meanwhile : Meanwhile sample_env (started sample_ctx) second_waits
unfolding add_device
two_clients-Meanwhile =
    other
      (other
        (other
          (other (other nothing (accept 4 refl refl refl) refl)
            (enlist 4 ip 9000 100 _ refl refl refl) refl)
          (start [] first_queued [] refl refl) refl)
        (accept 5 refl refl refl) refl)
      (enlist 5 ip 9000 100 _ refl refl refl) refl

meanwhile-main_state_example : main_state second_waits.ctx ≡ main_state (started sample_ctx).ctx
meanwhile-main_state_example = meanwhile-main_state sample_env two_clients-Meanwhile

-- The first client goes, and the kernel gives its descriptor to a third.
abbrev first_leaves : Threads
first_leaves = move two_clients [] first leaving (second ∷ [])

abbrev first_unlisted : Threads
first_unlisted =
    record (move first_leaves [] (record first { phase = leaving }) unlisted (second ∷ [])) {
      ctx = remove_device two_clients.ctx 4;
    }

abbrev first_gone : Threads
first_gone = record first_unlisted {
  ctx = emit first_unlisted.ctx (shutdown 4 ∷ close 4 ∷ []);
  conns = second ∷ [];
  open_fds = remove_one 4 first_unlisted.open_fds;
}

reused-Reach : Reach sample_env (started sample_ctx) (waiting 4 first_gone)
unfolding remove_device
reused-Reach =
    next
      (next
        (next (next two_clients-Reach (hang_up [] first (second ∷ []) refl refl))
          (unlist [] (record first { phase = leaving }) (second ∷ []) refl refl refl))
        (finish [] (record first { phase = unlisted }) (second ∷ []) refl refl))
      (accept 4 refl refl refl)

reach-IsValid_example : IsValid first_gone.ctx
reach-IsValid_example = reach-IsValid sample_env sample_ctx reused-Reach

waiting-HasNoFd_example : HasNoFd 4 first_gone.ctx.devices
waiting-HasNoFd_example = waiting-HasNoFd sample_env sample_ctx 4 reused-Reach refl

worker_finds_example :
    (i : ℕ) × (d : GatewayDevice) × (find_device_by_fd first_gone.ctx 5 ≡ some i)
    × (get_elem? first_gone.ctx.devices i ≡ some d)
    × (d.fd ≡ 5)
worker_finds_example = worker_finds sample_env sample_ctx [] second [] reused-Reach refl refl

sockets_closed_once_example :
    (times 4 (waiting 4 first_gone).open_fds ≤ 1)
    × (waits 4 (some 4) + works 4 (second ∷ []) ≡ times 4 (waiting 4 first_gone).open_fds)
    × (closes 4 first_gone.ctx.trace + times 4 (waiting 4 first_gone).open_fds
        ≡ times 4 (waiting 4 first_gone).accepted)
sockets_closed_once_example = sockets_closed_once sample_env sample_ctx 4 reused-Reach

-- `sensor` and `lamp`, at a time when a PING is due to one and the other has missed three.
abbrev silent : GatewayCtx
silent = record sample_ctx {
  devices = record lamp { last_active_time = 0; heartbeat_fail = 3 } ∷ sensor ∷ [];
}

beats-heartbeat_sweep_example :
    (n : ℕ) × (n ≤ 7)
    × (beats sample_env 0 n (sweeping 120 0, silent)
        ≡ (resting, heartbeat_sweep sample_env silent 120))
beats-heartbeat_sweep_example = beats-heartbeat_sweep sample_env 0 silent 120

-- Behind the stop, the first worker sees that its socket is closed, and ends; the pool never runs the
-- second one's task.
first_ends :
    (t : Threads) × Meanwhile sample_env (stopped second_waits []) t
    × (t.conns ≡ second_queued ∷ [])
first_ends = (
  _,
  other
      (other (other nothing (hang_up [] first (second_queued ∷ []) refl refl) refl)
        (unlist [] (record first { phase = leaving }) (second_queued ∷ []) refl refl refl) refl)
      (finish [] (record first { phase = unlisted }) (second_queued ∷ []) refl refl) refl,
  refl,
)

stopped_twice_example :
    (first_ends.0.accepted ≡ second_waits.accepted)
    × (closes 4 first_ends.0.ctx.trace + 0 ≡ times 4 first_ends.0.accepted + 1)
unfolding first_ends
stopped_twice_example =
    stopped_twice sample_env sample_ctx second_waits first_ends.0 [] 4 2 second_waits-Reach refl
      refl refl refl (omega arith) refl first_ends.1

-- The second one's socket has been closed as often as it was accepted.
stopped_once_example :
    (first_ends.0.accepted ≡ second_waits.accepted)
    × (closes 5 first_ends.0.ctx.trace + 1 ≡ times 5 first_ends.0.accepted + 1)
unfolding first_ends
stopped_once_example =
    stopped_twice sample_env sample_ctx second_waits first_ends.0 [] 5 2 second_waits-Reach refl
      refl refl refl (omega arith) refl first_ends.1
