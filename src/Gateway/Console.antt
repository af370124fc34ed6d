-- ===== src/Gateway/Console.antt =====
-- `interactive_thread_func` of src/gateway.c: the commands typed at the `gateway>` prompt. What they
-- print is in Status, and the loop in Prompt.
pub mod Restart
pub mod Table
pub mod Status
pub mod Prompt
use linux_file_manager.Prelude.{List, [], false, if◌then◌else◌, some, ℕ, ◌%◌, ◌+◌, ◌==◌, ◌||◌, ◌∷◌}
use linux_file_manager.Gateway.{
  Env, GatewayCtx, GatewayDevice, cmd_gpio_control, flag_request, send_frame_raw,
}

-- Up to the first newline: `cmd_buf[strcspn(cmd_buf, "\n")] = 0`.
pub strip_newline : List ℕ → List ℕ
strip_newline [] = []
strip_newline (b ∷ bs) = if b == b'\n' then [] else b ∷ strip_newline bs

module _ (env : Env) where
  -- The payload of the restart command: PA7 = 7, HIGH = 1. The sequence number is not stored.
  pub send_restart : GatewayCtx → List GatewayDevice → GatewayCtx
  send_restart c [] = c
  send_restart c (d ∷ ds) =
      send_restart
        (send_frame_raw env c d.fd cmd_gpio_control flag_request ((d.last_seq + 1) % 65536)
          (some (7 ∷ 1 ∷ [])) 2).1
        ds

  pub run_command : GatewayCtx → ℕ → GatewayCtx
  unfolding send_restart
  run_command c k =
      if k == b'q' || k == b'Q'
      then record c { running = false }
      else if k == b'r' || k == b'R'
      then send_restart c c.devices
      else c

  pub run_stripped : GatewayCtx → List ℕ → GatewayCtx
  unfolding run_command
  run_stripped c [] = c
  run_stripped c (k ∷ _) = run_command c k

  -- One line from `fgets`. `s`, `h`, `l` and unknown commands print only.
  pub interactive_line : GatewayCtx → List ℕ → GatewayCtx
  unfolding run_stripped strip_newline
  interactive_line c line = run_stripped c (strip_newline line)
