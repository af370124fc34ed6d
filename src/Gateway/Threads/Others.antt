-- ===== src/Gateway/Threads/Others.antt =====
-- What the threads of src/gateway.c but the console leave to the console and the main thread.
use linux_file_manager.Prelude.{some, Bool, ap, arith, false, refl, true, ◌∙◌, ◌≡◌}
use linux_file_manager.Gateway.{flag_response, Env, remove_device}
use linux_file_manager.Gateway.Kept.{send_frame_raw-Keeps, main_state, update_device_activity-Keeps}
use linux_file_manager.Gateway.Heartbeat.Steps.Table.{beat-Keeps, heart_step-main_state}
use linux_file_manager.Gateway.Worker.Table.{answer-Keeps}
use linux_file_manager.Gateway.Threads.Counting.{add_device_added, add_device_refused}
use linux_file_manager.Gateway.Threads.{
  reply_stale, start, quit, Drop, Step, Threads, accept, beat, begin, command, enlist, expire, find,
  finish, hang_up, refuse, reply, touch, unlist,
}

module _ (env : Env) where
  abbrev pub is_command : {s t : Threads} → Step env s t → Bool
  is_command (accept fd running idle fresh) = false
  is_command (enlist fd ip port now c waiting free e) = false
  is_command (refuse fd ip port now c waiting free e) = false
  is_command (start ls w rs e at_p) = false
  is_command (find ls w rs i m e at_p free hit) = false
  is_command (touch ls w rs i m now e at_p free) = false
  is_command (reply ls w rs i m c e at_p answered) = false
  is_command (reply_stale ls w rs i m old cmd payload len e at_p stale) = false
  is_command (hang_up ls w rs e at_p) = false
  is_command (unlist ls w rs e at_p free) = false
  is_command (finish ls w rs e at_p) = false
  is_command (begin now asleep running) = false
  is_command (beat old stays) = false
  is_command (command line free) = true
  is_command (quit k line e) = true

  -- What happens while the console waits for a line.
  pub data Meanwhile (s : Threads) : Threads → Type 0 where
    nothing : Meanwhile s s
    other :
        {t u : Threads}
        → Meanwhile s t
        → (step : Step env t u) → is_command step ≡ false
        → Meanwhile s u
    drops : {t u : Threads} → Meanwhile s t → Drop env t u → Meanwhile s u

  step-main_state :
      {s t : Threads} (step : Step env s t)
      → is_command step ≡ false
      → main_state t.ctx ≡ main_state s.ctx
  unfolding remove_device
  step-main_state (accept fd running idle fresh) h = refl
  step-main_state {s} (enlist fd ip port now c waiting free e) h =
      ap main_state (add_device_added s.ctx c fd ip port now e).0
  step-main_state {s} (refuse fd ip port now c waiting free e) h =
      ap main_state (add_device_refused s.ctx c fd ip port now e)
  step-main_state (start ls w rs e at_p) h = refl
  step-main_state (find ls w rs i m e at_p free hit) h = refl
  step-main_state {s} (touch ls w rs i m now e at_p free) h =
      (update_device_activity-Keeps s.ctx w.fd now).same_main
  step-main_state {s} (reply ls w rs i m c e at_p answered) h =
      (answer-Keeps env s.ctx c w.fd i m answered).same_main
  step-main_state {s} (reply_stale ls w rs i m old cmd payload len e at_p stale) h =
      (send_frame_raw-Keeps env s.ctx old cmd flag_response m.seq (some payload) len).same_main
  step-main_state (hang_up ls w rs e at_p) h = refl
  step-main_state (unlist ls w rs e at_p free) h = refl
  step-main_state (finish ls w rs e at_p) h = refl
  step-main_state (begin now asleep running) h = refl
  step-main_state {s} (beat old stays) h = (beat-Keeps env old s.heart s.ctx stays).same_main
  step-main_state (command line free) h = absurd (ground (arith, h))
  step-main_state (quit k line e) h = absurd (ground (arith, h))

  -- While the console waits for a line, whatever the other threads do in whatever order, the heartbeat's
  -- drops among them, they leave the listening socket, `stopped` and `running` as they are.
  pub meanwhile-main_state : {s t : Threads} → Meanwhile s t → main_state t.ctx ≡ main_state s.ctx
  meanwhile-main_state nothing = refl
  meanwhile-main_state (other m step h) = step-main_state step h ∙ meanwhile-main_state m
  meanwhile-main_state (drops {t} m (expire fd old e)) =
      heart_step-main_state env old t.heart t.ctx fd e ∙ meanwhile-main_state m
