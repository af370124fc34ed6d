-- ===== src/Gateway/Threads/Reused.antt =====
-- A client of src/gateway.c whose descriptor the heartbeat closes under its worker.
use linux_file_manager.Gateway.Heartbeat.Steps.{
  count_fail, dropped, fd_at, heart_check, heart_step, sweeping, unlocked,
}
use linux_file_manager.Prelude.{[], none, refl, true, ℕ, ◌∷◌, ◌≡◌, ◌≤◌}
use linux_file_manager.Gateway.{
  add_device, cmd_ping, device_count, flag_heartbeat, remove_device, send_frame_raw,
}
use linux_file_manager.Gateway.Tests.{sample_ctx, sample_env}
use linux_file_manager.Gateway.Threads.{
  ReachAll, Threads, accept, beat, begin, drop_all, enlist, expire, finish, hang_up, here_all,
  leaving, move, reading, start, started, step_all, unlist, unlisted,
}
use linux_file_manager.Gateway.Threads.Tests.{enlisted, first, first_queued, ip, waiting}
use linux_file_manager.Gateway.Threads.Room.{reach_room}
use linux_file_manager.Protocol.{proto_build_frame}

abbrev one_client : Threads
one_client = move (enlisted 4 (waiting 4 (started sample_ctx))) [] first_queued reading []

one_client-ReachAll : ReachAll sample_env (started sample_ctx) one_client
unfolding add_device
one_client-ReachAll =
    step_all
      (step_all (step_all here_all (accept 4 refl refl refl))
        (enlist 4 ip 9000 100 _ refl refl refl))
      (start [] first_queued [] refl refl)

-- One step of the heartbeat thread.
abbrev beaten : Threads → Threads
beaten s = record s {
  heart = (heart_step sample_env 0 (s.heart, s.ctx)).0;
  ctx = (heart_step sample_env 0 (s.heart, s.ctx)).1;
}

abbrev begun : ℕ → Threads → Threads
begun n s = record s { heart = sweeping n 0 }

-- A sweep over the one client.
abbrev swept : ℕ → Threads → Threads
swept n s = beaten (beaten (beaten (beaten (begun n s))))

swept_once : ReachAll sample_env (started sample_ctx) (swept 200 one_client)
unfolding heart_step heart_check fd_at count_fail dropped send_frame_raw proto_build_frame
swept_once =
    step_all
      (step_all
        (step_all (step_all (step_all one_client-ReachAll (begin 200 refl refl)) (beat 0 refl))
          (beat 0 refl))
        (beat 0 refl))
      (beat 0 refl)

swept_twice : ReachAll sample_env (started sample_ctx) (swept 300 (swept 200 one_client))
unfolding heart_step heart_check fd_at count_fail dropped send_frame_raw proto_build_frame
swept_twice =
    step_all
      (step_all
        (step_all (step_all (step_all swept_once (begin 300 refl refl)) (beat 0 refl))
          (beat 0 refl))
        (beat 0 refl))
      (beat 0 refl)

swept_thrice :
    ReachAll sample_env (started sample_ctx) (swept 400 (swept 300 (swept 200 one_client)))
unfolding heart_step heart_check fd_at count_fail dropped send_frame_raw proto_build_frame
swept_thrice =
    step_all
      (step_all
        (step_all (step_all (step_all swept_twice (begin 400 refl refl)) (beat 0 refl))
          (beat 0 refl))
        (beat 0 refl))
      (beat 0 refl)

-- The client has missed three PINGs: the next sweep closes its socket.
abbrev cut_off : Threads
cut_off = record (beaten (begun 500 (swept 400 (swept 300 (swept 200 one_client))))) {
  open_fds = [];
}

cut_off-ReachAll : ReachAll sample_env (started sample_ctx) cut_off
unfolding heart_step heart_check fd_at count_fail dropped send_frame_raw proto_build_frame
cut_off-ReachAll = drop_all (step_all swept_thrice (begin 500 refl refl)) (expire 4 0 refl)

-- The kernel gives the descriptor to the next client before the first one's worker ends. That worker
-- then takes the new client's record out and closes its socket, while the new client's worker is queued.
reused :
    (s : Threads) × ReachAll sample_env (started sample_ctx) s
    × (s.conns ≡ first_queued ∷ [])
    × (s.ctx.devices ≡ [])
    × (s.open_fds ≡ [])
unfolding heart_step heart_check fd_at count_fail dropped send_frame_raw proto_build_frame
    add_device remove_device
reused = (
  _,
  step_all
      (step_all
        (step_all
          (step_all (step_all (step_all cut_off-ReachAll (beat 0 refl)) (accept 4 refl refl refl))
            (enlist 4 ip 9000 600 _ refl refl refl))
          (hang_up [] first (first_queued ∷ []) refl refl))
        (unlist [] (record first { phase = leaving }) (first_queued ∷ []) refl refl refl))
      (finish [] (record first { phase = unlisted }) (first_queued ∷ []) refl refl),
  refl,
  refl,
  refl,
)

reach_room_example : device_count cut_off.ctx ≤ 32
reach_room_example = reach_room sample_env sample_ctx cut_off-ReachAll

-- The device at index 0 is taken out while the heartbeat has the mutex given back: its PING, with its
-- sequence number, goes to the device that moved there.
pings_other :
    (heart_step sample_env 0 (unlocked 120 0 10 true, remove_device sample_ctx 5)).1
    ≡ (send_frame_raw sample_env (remove_device sample_ctx 5) 6 cmd_ping flag_heartbeat 10 none 0).1
unfolding heart_step fd_at remove_device
pings_other = refl
