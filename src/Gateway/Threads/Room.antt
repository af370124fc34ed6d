-- ===== src/Gateway/Threads/Room.antt =====
-- The device array of src/gateway.c over the interleaved threads, the heartbeat's drops included.
use linux_file_manager.Prelude.{
  some, List, [], ap, arith, length, length-append, refl, sym, ◌∙◌, ◌∷◌, ◌≡◌, ◌≤◌,
}
use linux_file_manager.Gateway.Registry.{length-remove_fd}
use linux_file_manager.Gateway.{
  flag_response, Env, GatewayCtx, GatewayDevice, device_count, gateway_max_clients, new_device,
  remove_device,
}
use linux_file_manager.Gateway.Kept.{send_frame_raw-Keeps, Keeps, fds, update_device_activity-Keeps}
use linux_file_manager.Gateway.Worker.Table.{answer-Keeps}
use linux_file_manager.Gateway.Console.Table.{interactive_line-Keeps}
use linux_file_manager.Gateway.Heartbeat.Steps.Table.{beat-Keeps, heart_step_room}
use linux_file_manager.Gateway.Threads.Counting.{add_device_added, add_device_refused}
use linux_file_manager.Gateway.Threads.{
  reply_stale, start, quit, Reach, ReachAll, Step, Threads, accept, beat, begin, command, drop_all,
  enlist, expire, find, finish, hang_up, here, here_all, next, refuse, reply, started, step_all,
  touch, unlist,
}

length-fds : (ds : List GatewayDevice) → length (fds ds) ≡ length ds
length-fds [] = refl
length-fds (d ∷ ds) = omega (arith, length-fds ds)

length-kept : (c c' : GatewayCtx) → Keeps c c' → device_count c' ≡ device_count c
length-kept c c' keeps =
    sym (length-fds c'.devices) ∙ ap length keeps.same_fds ∙ length-fds c.devices

module _ (env : Env) where
  step_room :
      {s t : Threads}
      → Step env s t
      → device_count s.ctx ≤ gateway_max_clients
      → device_count t.ctx ≤ gateway_max_clients
  unfolding remove_device
  step_room (accept fd running idle fresh) h = h
  step_room {s} (enlist fd ip port now c waiting free e) h =
      let (same, room) = add_device_added s.ctx c fd ip port now e in
      omega (
        arith,
        room,
        ap device_count same,
        length-append {0} s.ctx.devices (new_device fd ip port now ∷ []),
      )
  step_room {s} (refuse fd ip port now c waiting free e) h =
      omega (arith, h, ap device_count (add_device_refused s.ctx c fd ip port now e))
  step_room (start ls w rs e at_p) h = h
  step_room (find ls w rs i m e at_p free hit) h = h
  step_room {s} (touch ls w rs i m now e at_p free) h =
      omega (arith, h, length-kept _ _ (update_device_activity-Keeps s.ctx w.fd now))
  step_room {s} (reply ls w rs i m c e at_p answered) h =
      omega (arith, h, length-kept _ _ (answer-Keeps env s.ctx c w.fd i m answered))
  step_room {s} (reply_stale ls w rs i m old cmd payload len e at_p stale) h = omega (
    arith,
    h,
    length-kept _ _ (send_frame_raw-Keeps env s.ctx old cmd flag_response m.seq (some payload) len),
  )
  step_room (hang_up ls w rs e at_p) h = h
  step_room {s} (unlist ls w rs e at_p free) h =
      omega (arith, h, length-remove_fd w.fd s.ctx.devices)
  step_room (finish ls w rs e at_p) h = h
  step_room (begin now asleep running) h = h
  step_room {s} (beat old stays) h =
      omega (arith, h, length-kept _ _ (beat-Keeps env old s.heart s.ctx stays))
  step_room {s} (quit k line e) h =
      omega (arith, h, length-kept _ _ (interactive_line-Keeps env s.ctx (k ∷ line)))
  step_room {s} (command line free) h =
      omega (arith, h, length-kept _ _ (interactive_line-Keeps env s.ctx line))

  -- The table fits its array of 32 in every state that the threads reach, in whatever order they take
  -- their steps, the heartbeat's drops among them.
  pub reach_room :
      (c : GatewayCtx) {s : Threads}
      → ReachAll env (started c) s
      → device_count s.ctx ≤ gateway_max_clients
  reach_room c here_all = omega arith
  reach_room c (step_all r step) = step_room step (reach_room c r)
  reach_room c (drop_all {t} r (expire fd old e)) =
      omega (arith, reach_room c r, heart_step_room env old t.heart t.ctx fd e)

  pub Reach-ReachAll : {s t : Threads} → Reach env s t → ReachAll env s t
  Reach-ReachAll here = here_all
  Reach-ReachAll (next r step) = step_all (Reach-ReachAll r) step
