-- ===== src/Gateway/Heartbeat.antt =====
-- `heartbeat_thread_func` of src/gateway.c: one sweep over the device table. The mutex is given up
-- around each `send_frame_raw`; the sweep here is the one where no other thread changes the table
-- meanwhile, and Steps has it cut into the thread's steps.
pub mod Steps
pub mod Sweep
pub mod Timeout
use linux_file_manager.Prelude.{List, [], if◌then◌else◌, leb, ltb, none, ℕ, ◌%◌, ◌++◌, ◌+◌, ◌∷◌}
use linux_file_manager.Gateway.{
  Env, GatewayCtx, GatewayDevice, close, cmd_ping, emit, flag_heartbeat,
  gateway_heartbeat_interval_s, gateway_heartbeat_timeout_s, send_frame_raw, shutdown,
}

-- `uint16_t seq = ++dev->last_seq`
abbrev pub next_seq : ℕ → ℕ
next_seq seq = (seq + 1) % 65536

-- What the sweep does with one device: drop it after closing its socket, or keep it, with or
-- without a PING.
pub data Verdict : Type 0 where
  drop_it : Verdict
  keep_it : GatewayDevice → Verdict
  ping_it : GatewayDevice → Verdict

-- `idle = now - last_active_time` is a signed difference: `idle > t` is `last_active_time + t < now`.
pub check_device : ℕ → GatewayDevice → Verdict
check_device now d =
    if ltb (d.last_active_time + gateway_heartbeat_timeout_s) now
    then if leb 3 d.heartbeat_fail
      then drop_it
      else ping_it
          (record d { last_seq = next_seq d.last_seq; heartbeat_fail = d.heartbeat_fail + 1 })
    else if ltb (d.last_active_time + gateway_heartbeat_interval_s) now
    then ping_it (record d { last_seq = next_seq d.last_seq })
    else keep_it (record d { heartbeat_fail = 0 })

module _ (env : Env) where
  abbrev pub ping : GatewayCtx → GatewayDevice → GatewayCtx
  ping c d = (send_frame_raw env c d.fd cmd_ping flag_heartbeat d.last_seq none 0).1

  -- The loop at the devices from `i` on, with those before it behind it: a device that goes is
  -- replaced by the next one at the same index.
  pub sweep_from : ℕ → GatewayCtx → List GatewayDevice → List GatewayDevice → GatewayCtx
  unfolding check_device
  sweep_from now c kept [] = record c { devices = kept }
  sweep_from now c kept (d ∷ ds) = elim (check_device now d) [
    | drop_it ↦ sweep_from now (emit c (shutdown d.fd ∷ close d.fd ∷ [])) kept ds
    | keep_it d' ↦ sweep_from now c (kept ++ d' ∷ []) ds
    | ping_it d' ↦ sweep_from now (ping c d') (kept ++ d' ∷ []) ds
  ]

  pub heartbeat_sweep : GatewayCtx → ℕ → GatewayCtx
  unfolding sweep_from
  heartbeat_sweep c now = sweep_from now c [] c.devices

-- The thread's state: the time of its last sweep and the context. One turn of its loop, after
-- `sleep(1)`, at the time `now`.
pub heartbeat_turn : Env → ℕ × GatewayCtx → ℕ → ℕ × GatewayCtx
unfolding heartbeat_sweep
heartbeat_turn env (last_check, c) now =
    if c.running
    then if ltb now (last_check + gateway_heartbeat_interval_s)
      then (last_check, c)
      else (now, heartbeat_sweep env c now)
    else (last_check, c)
