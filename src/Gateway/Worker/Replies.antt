-- ===== src/Gateway/Worker/Replies.antt =====
-- What `client_worker` of src/gateway.c does with a complete frame.
use Prim.Native.Nat.{bit_and}
use mathlib.Core.Logic.{◌↔◌}
use linux_file_manager.Prelude.{
  Bool, [], arith, false, if◌then◌else◌, length, none, not, refl, some, true, ℕ, ◌&&◌, ◌<◌, ◌==◌,
  ◌∷◌, ◌≡◌, ◌≢◌, ◌⊎◌,
}
use linux_file_manager.Protocol.{ProtoMessage, proto_max_payload}
use linux_file_manager.Gateway.{
  Env, GatewayCtx, cmd_error, cmd_ping, cmd_pong, emit, find_device_by_fd, find_handler,
  flag_heartbeat, flag_response, send, update_device_activity,
}
use linux_file_manager.Gateway.Sending.{HasBuffer, send_frame_raw_lem, sent_bytes}
use linux_file_manager.Gateway.Worker.{on_message}

-- `msg.cmd == CMD_PING && (msg.flags & FLAG_HEARTBEAT)`
abbrev pub is_ping : ProtoMessage → Bool
is_ping m = m.cmd == cmd_ping && not (bit_and m.flags flag_heartbeat == 0)

find_handler-update :
    (c : GatewayCtx) (fd now cmd : ℕ)
    → find_handler (update_device_activity c fd now) cmd ≡ find_handler c cmd
unfolding find_handler update_device_activity
find_handler-update c fd now cmd = refl

-- Whether the sender is in the table.
abbrev pub is_known : GatewayCtx → ℕ → Bool
is_known c fd = elim (find_device_by_fd c fd) [ none ↦ false | some _ ↦ true ]

module _ (env : Env) (fd now : ℕ) (c : GatewayCtx) (m : ProtoMessage) where
  -- A frame leads to a write past the 512 bytes of `payload_copy` exactly when its sender is in the
  -- table, it is no heartbeat, a handler is registered for its command, and its payload is longer.
  pub on_message_faults : (on_message env fd now c m ≡ none) ↔ (
      (is_known c fd ≡ true)
      × (is_ping m ≡ false)
      × (find_handler c m.cmd ≢ none)
      × (proto_max_payload < m.payload_len))
  unfolding on_message
  on_message_faults = (
    (λ h. ground (arith, find_handler-update c fd now m.cmd)),
    (λ h. ground (arith, find_handler-update c fd now m.cmd)),
  )

  -- For a frame that is a heartbeat, or whose command has no handler: when its descriptor is in the
  -- table, a heartbeat is answered by one PONG, another such frame by one error frame, each with the
  -- sequence number of the frame that it answers; the time of the device's last activity is set, and that
  -- is all. When its descriptor is not in the table, nothing changes. Condition: the buffers of a send
  -- have their size.
  pub on_message_replies :
      HasBuffer env
      → length env.stack_frame.payload ≡ proto_max_payload
      → (is_ping m ≡ true) ⊎ (find_handler c m.cmd ≡ none)
      → on_message env fd now c m
        ≡ some (
            if is_known c fd
            then emit (update_device_activity c fd now) (
                send fd (
                  if is_ping m
                  then sent_bytes cmd_pong flag_heartbeat m.seq none 0
                  else sent_bytes cmd_error flag_response m.seq none 0)
                ∷ [])
            else c)
  unfolding on_message
  on_message_replies full frame own =
      let u : GatewayCtx = update_device_activity c fd now in
      ground (
        arith,
        send_frame_raw_lem env u fd cmd_pong flag_heartbeat m.seq none 0 full frame refl,
        send_frame_raw_lem env u fd cmd_error flag_response m.seq none 0 full frame refl,
        find_handler-update c fd now m.cmd,
      )
