-- ===== src/Gateway/Console/Restart.antt =====
-- The commands of the gateway's prompt in src/gateway.c that act.
use linux_file_manager.Prelude.{
  List, [], ap, append-nil, append_assoc, arith, false, if◌then◌else◌, length, some, ℕ, ◌%◌, ◌+◌,
  ◌==◌, ◌||◌, ◌∙◌, ◌∷◌, ◌≡◌,
}
use linux_file_manager.Protocol.{proto_max_payload}
use linux_file_manager.Gateway.{
  Effect, Env, GatewayCtx, GatewayDevice, cmd_gpio_control, emit, flag_request, send,
}
use linux_file_manager.Gateway.Sending.{HasBuffer, send_frame_raw_lem, sent_bytes}
use linux_file_manager.Gateway.Console.{interactive_line, send_restart}

abbrev pub restart_frames : List GatewayDevice → List Effect
restart_frames [] = []
restart_frames (d ∷ ds) =
    send d.fd
      (sent_bytes cmd_gpio_control flag_request ((d.last_seq + 1) % 65536) (some (7 ∷ 1 ∷ [])) 2)
    ∷ restart_frames ds

module _ (env : Env) (full : HasBuffer env)
    (frame : length env.stack_frame.payload ≡ proto_max_payload) where
  send_restart_lem :
      (c : GatewayCtx) (ds : List GatewayDevice)
      → send_restart env c ds ≡ emit c (restart_frames ds)
  unfolding send_restart
  send_restart_lem c [] = rw (append-nil c.trace)
  send_restart_lem c (d ∷ ds) =
      let first : List Effect =
        send d.fd (
          sent_bytes cmd_gpio_control flag_request ((d.last_seq + 1) % 65536) (some (7 ∷ 1 ∷ [])) 2)
        ∷ [] in
      ap (λ r. send_restart env r.1 ds)
        (send_frame_raw_lem env c d.fd cmd_gpio_control flag_request ((d.last_seq + 1) % 65536)
          (some (7 ∷ 1 ∷ [])) 2 full frame (omega arith))
      ∙ send_restart_lem (emit c first) ds
      ∙ simp append_assoc

  -- A line acts by its first byte alone. `r` sends one control frame to every device, in the
  -- table's order, and leaves the table as it is, so the next `r` repeats the sequence numbers; `q`
  -- ends the gateway's loops and changes nothing else; every other line changes nothing.
  interactive_line_lem :
      (c : GatewayCtx) (k : ℕ) (rest : List ℕ)
      → interactive_line env c (k ∷ rest) ≡ (
          if k == b'q' || k == b'Q'
          then record c { running = false }
          else if k == b'r' || k == b'R'
          then emit c (restart_frames c.devices)
          else c)
  unfolding interactive_line
  interactive_line_lem c k rest = ground (arith, send_restart_lem c c.devices)
