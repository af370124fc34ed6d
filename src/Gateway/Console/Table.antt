-- ===== src/Gateway/Console/Table.antt =====
-- The commands of the prompt in src/gateway.c leave the descriptors in the table, and close no socket.
use linux_file_manager.Prelude.{
  Bool-cases, List, [], ap, false, inl, inr, some, ℕ, ◌%◌, ◌+◌, ◌==◌, ◌||◌, ◌∷◌,
}
use linux_file_manager.Gateway.{
  Env, GatewayCtx, GatewayDevice, cmd_gpio_control, flag_request, send_frame_raw,
}
use linux_file_manager.Gateway.Kept.{Keeps, Keeps-refl, Keeps-trans, send_frame_raw-Keeps}
use linux_file_manager.Gateway.Console.{
  interactive_line, run_command, run_stripped, send_restart, strip_newline,
}

module _ (env : Env) where
  send_restart-Keeps : (ds : List GatewayDevice) (c : GatewayCtx) → Keeps c (send_restart env c ds)
  unfolding send_restart
  send_restart-Keeps [] c = Keeps-refl c
  send_restart-Keeps (d ∷ ds) c =
      let after : GatewayCtx =
        (send_frame_raw env c d.fd cmd_gpio_control flag_request ((d.last_seq + 1) % 65536)
          (some (7 ∷ 1 ∷ [])) 2).1 in
      Keeps-trans c after (send_restart env after ds)
        (send_frame_raw-Keeps env c d.fd cmd_gpio_control flag_request ((d.last_seq + 1) % 65536)
          (some (7 ∷ 1 ∷ [])) 2)
        (send_restart-Keeps ds after)

  -- What is left of a context but `running`, which a line may set.
  Keeps-running : (c c' : GatewayCtx) → Keeps c c' → Keeps (record c { running = c'.running }) c'
  Keeps-running c c' k = record {
    same_fds = k.same_fds;
    same_closes = k.same_closes;
    same_main = ap (λ m. (m.0, m.1, c'.running)) k.same_main;
  }

  run_command-Keeps :
      (c : GatewayCtx) (k : ℕ)
      → Keeps (record c { running = (run_command env c k).running }) (run_command env c k)
  unfolding run_command
  run_command-Keeps c k = elim (Bool-cases (k == b'q' || k == b'Q')) [
    | inl quits ↦ rw quits (Keeps-refl (record c { running = false }))
    | inr other ↦ elim (Bool-cases (k == b'r' || k == b'R')) [
      | inl restarts ↦
          rw (other, restarts)
            (Keeps-running c (send_restart env c c.devices) (send_restart-Keeps c.devices c))
      | inr nothing ↦ rw (other, nothing) (Keeps-refl c)
    ]
  ]

  run_stripped-Keeps :
      (c : GatewayCtx) (line : List ℕ)
      → Keeps (record c { running = (run_stripped env c line).running }) (run_stripped env c line)
  unfolding run_stripped
  run_stripped-Keeps c [] = Keeps-refl c
  run_stripped-Keeps c (k ∷ line) = run_command-Keeps c k

  pub interactive_line-Keeps :
      (c : GatewayCtx) (line : List ℕ)
      → Keeps
          (record c { running = (interactive_line env c line).running })
          (interactive_line env c line)
  unfolding interactive_line
  interactive_line-Keeps c line = run_stripped-Keeps c (strip_newline line)
