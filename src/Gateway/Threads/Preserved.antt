-- ===== src/Gateway/Threads/Preserved.antt =====
-- The sockets' invariant over the steps of the threads of src/gateway.c.
use linux_file_manager.Gateway.Heartbeat.Steps.{heart_step, sweeping}
use linux_file_manager.Gateway.Heartbeat.Steps.Table.{beat-Keeps}
use linux_file_manager.Prelude.{some, List, [], none, refl, subst, sym, ℕ, ◌++◌, ◌∷◌}
use linux_file_manager.Gateway.Console.{interactive_line}
use linux_file_manager.Gateway.Console.Table.{interactive_line-Keeps}
use linux_file_manager.Gateway.Worker.Table.{answer-Keeps}
use linux_file_manager.Gateway.{
  send_frame_raw, flag_response, Env, GatewayCtx, close, emit, new_device, update_device_activity,
}
use linux_file_manager.Gateway.Kept.{send_frame_raw-Keeps, Keeps-refl, update_device_activity-Keeps}
use linux_file_manager.Gateway.Threads.Counting.{add_device_added, add_device_refused}
use linux_file_manager.Gateway.Threads.{
  reply_stale, queued, start, Reach, Step, Threads, accept, beat, begin, command, enlist, find,
  finish, found, hang_up, here, leaving, next, quit, reading, refuse, remove_one, reply, started,
  touch, touched, unlist,
}
use linux_file_manager.Gateway.Threads.Sockets.{
  Inv, accept-Inv, context-Inv, enlist-Inv, finish-Inv, move-Inv, refuse-Inv, started-Inv,
  unlist-Inv,
}

module _ (env : Env) where
  line-Inv :
      (s : Threads) (line : List ℕ)
      → Inv s
      → Inv (record s { ctx = interactive_line env s.ctx line })
  line-Inv s line inv =
      let c : GatewayCtx = interactive_line env s.ctx line in
      let begun : Threads = record s { ctx = record s.ctx { running = c.running } } in
      context-Inv begun s.heart c (interactive_line-Keeps env s.ctx line) (record {
        listed = inv.listed;
        owned = inv.owned;
        single = inv.single;
        settled = inv.settled;
      })

  step-Inv : {s t : Threads} → Step env s t → Inv s → Inv t
  step-Inv {s} (accept fd running idle fresh) inv = accept-Inv s fd idle fresh inv
  step-Inv {s} (enlist fd ip port now c waiting free e) inv =
      subst
        (λ c'. Inv (record s {
          ctx = c';
          accepting = none;
          conns = s.conns ++ record { fd = fd; phase = queued } ∷ [];
        }))
        (sym (add_device_added s.ctx c fd ip port now e).0)
        (enlist-Inv s fd (new_device fd ip port now) waiting refl inv)
  step-Inv {s} (refuse fd ip port now c waiting free e) inv =
      subst
        (λ c'. Inv (record s {
          ctx = emit c' (close fd ∷ []);
          accepting = none;
          open_fds = remove_one fd s.open_fds;
        }))
        (sym (add_device_refused s.ctx c fd ip port now e)) (refuse-Inv s fd waiting inv)
  step-Inv {s} (start ls w rs e at_p) inv =
      move-Inv s ls w rs queued reading s.ctx e at_p refl (Keeps-refl s.ctx) inv
  step-Inv {s} (find ls w rs i m e at_p free hit) inv =
      move-Inv s ls w rs reading (found i m) s.ctx e at_p refl (Keeps-refl s.ctx) inv
  step-Inv {s} (touch ls w rs i m now e at_p free) inv =
      move-Inv s ls w rs (found i m) (touched i m) (update_device_activity s.ctx w.fd now) e at_p
        refl (update_device_activity-Keeps s.ctx w.fd now) inv
  step-Inv {s} (reply ls w rs i m c e at_p answered) inv =
      move-Inv s ls w rs (touched i m) reading c e at_p refl
        (answer-Keeps env s.ctx c w.fd i m answered) inv
  step-Inv {s} (reply_stale ls w rs i m old cmd payload len e at_p stale) inv =
      move-Inv s ls w rs (touched i m) reading
        (send_frame_raw env s.ctx old cmd flag_response m.seq (some payload) len).1 e at_p refl
        (send_frame_raw-Keeps env s.ctx old cmd flag_response m.seq (some payload) len) inv
  step-Inv {s} (hang_up ls w rs e at_p) inv =
      move-Inv s ls w rs reading leaving s.ctx e at_p refl (Keeps-refl s.ctx) inv
  step-Inv {s} (unlist ls w rs e at_p free) inv = unlist-Inv s ls w rs e at_p inv
  step-Inv {s} (finish ls w rs e at_p) inv = finish-Inv s ls w rs e at_p inv
  step-Inv {s} (begin now asleep running) inv =
      context-Inv s (sweeping now 0) s.ctx (Keeps-refl s.ctx) inv
  step-Inv {s} (beat old stays) inv =
      context-Inv s (heart_step env old (s.heart, s.ctx)).0 (heart_step env old (s.heart, s.ctx)).1
        (beat-Keeps env old s.heart s.ctx stays) inv
  step-Inv {s} (command line free) inv = line-Inv s line inv
  step-Inv {s} (quit k line e) inv = line-Inv s (k ∷ line) inv

  pub reach-Inv : (c : GatewayCtx) {s : Threads} → Reach env (started c) s → Inv s
  reach-Inv c here = started-Inv c
  reach-Inv c (next r step) = step-Inv step (reach-Inv c r)
