-- ===== src/Gateway/Heartbeat/Timeout.antt =====
-- When the heartbeat of src/gateway.c gives a device up.
use linux_file_manager.Prelude.{
  All, Bool-cases, List, [], ap, arith, if◌then◌else◌, inl, inr, leb, length, none, some, ℕ, ◌%◌,
  ◌+◌, ◌<◌, ◌∙◌, ◌∷◌, ◌≡◌, ◌≤◌,
}
use linux_file_manager.Protocol.{proto_max_payload}
use linux_file_manager.Gateway.{
  Env, GatewayCtx, GatewayDevice, gateway_heartbeat_interval_s, gateway_heartbeat_timeout_s,
}
use linux_file_manager.Gateway.Registry.{IsValid, lookup_fd}
use linux_file_manager.Gateway.Sending.{HasBuffer}
use linux_file_manager.Gateway.Heartbeat.{check_device, heartbeat_sweep, next_seq}
use linux_file_manager.Gateway.Heartbeat.Sweep.{
  checked, heartbeat_sweep_lem, length-survivors, lookup_fd-survivors, survivors-HasUniqueFds,
}

-- Sweeps at the given times.
pub sweeps : Env → GatewayCtx → List ℕ → GatewayCtx
sweeps env c [] = c
sweeps env c (t ∷ ts) = sweeps env (heartbeat_sweep env c t) ts

-- A device after `n` more unanswered PINGs.
abbrev pub silent : GatewayDevice → ℕ → GatewayDevice
silent d n = record d { last_seq = (d.last_seq + n) % 65536; heartbeat_fail = d.heartbeat_fail + n }

-- At each of these times the device has been silent for more than the timeout.
abbrev pub IsSilent : GatewayDevice → List ℕ → Type 0
IsSilent d ts = All (λ t. d.last_active_time + gateway_heartbeat_timeout_s < t) ts

module _ (env : Env) (full : HasBuffer env)
    (frame : length env.stack_frame.payload ≡ proto_max_payload) where
  -- A sweep keeps the table within its array and its descriptors distinct.
  pub heartbeat_sweep-IsValid :
      (c : GatewayCtx) (now : ℕ) → IsValid c → IsValid (heartbeat_sweep env c now)
  heartbeat_sweep-IsValid c now v = rw (heartbeat_sweep_lem env full frame c now) (record {
    bounded = omega (arith, length-survivors now c.devices, v.bounded);
    unique = survivors-HasUniqueFds now c.devices v.unique;
  })

  lookup_fd-heartbeat_sweep :
      (c : GatewayCtx) (now k : ℕ)
      → IsValid c
      → lookup_fd k (heartbeat_sweep env c now).devices ≡ checked now (lookup_fd k c.devices)
  lookup_fd-heartbeat_sweep c now k v =
      rw (heartbeat_sweep_lem env full frame c now) (lookup_fd-survivors now k c.devices v.unique)

  -- A device that was heard of in the last 30 seconds stays. In the first 10 of them its failures
  -- are forgotten, and after that it is sent a PING with the next sequence number.
  pub heartbeat_active :
      (c : GatewayCtx) (now k : ℕ) (d : GatewayDevice)
      → IsValid c
      → lookup_fd k c.devices ≡ some d
      → now ≤ d.last_active_time + gateway_heartbeat_timeout_s
      → lookup_fd k (heartbeat_sweep env c now).devices
        ≡ some (
            if leb now (d.last_active_time + gateway_heartbeat_interval_s)
            then record d { heartbeat_fail = 0 }
            else record d { last_seq = next_seq d.last_seq })
  unfolding check_device
  heartbeat_active c now k d v e h = rw (lookup_fd-heartbeat_sweep c now k v, e) (ground arith)

  gone :
      (c : GatewayCtx) (k : ℕ) (ts : List ℕ)
      → IsValid c
      → lookup_fd k c.devices ≡ none
      → lookup_fd k (sweeps env c ts).devices ≡ none
  unfolding sweeps
  gone c k [] v e = e
  gone c k (t ∷ ts) v e =
      gone (heartbeat_sweep env c t) k ts (heartbeat_sweep-IsValid c t v)
        (rw (lookup_fd-heartbeat_sweep c t k v, e))

  -- A device that stays silent goes exactly at the fourth sweep past its timeout: with `f` failures
  -- counted (at most 3) and `n` sweeps more than 30 seconds after its last activity, it is in the
  -- table, with `n` more failures and sequence numbers, while `f + n` is at most 3, and is gone from
  -- there on.
  pub heartbeat_timeout :
      (c : GatewayCtx) (ts : List ℕ) (k : ℕ) (d : GatewayDevice)
      → IsValid c
      → lookup_fd k c.devices ≡ some d
      → d.last_seq < 65536
      → d.heartbeat_fail ≤ 3
      → IsSilent d ts
      → lookup_fd k (sweeps env c ts).devices
        ≡ (if leb (d.heartbeat_fail + length ts) 3 then some (silent d (length ts)) else none)
  unfolding sweeps check_device
  heartbeat_timeout c [] k d v e seq low s = ground arith
  heartbeat_timeout c (t ∷ ts) k d v e seq low s =
      let v' = heartbeat_sweep-IsValid c t v in
      let look : lookup_fd k (heartbeat_sweep env c t).devices ≡ checked t (some d) =
        lookup_fd-heartbeat_sweep c t k v ∙ ap (checked t) e in
      elim (Bool-cases (leb 3 d.heartbeat_fail)) [
        | inl last ↦ ground (arith, gone (heartbeat_sweep env c t) k ts v', look)
        | inr more ↦ ground (
          arith,
          look,
          heartbeat_timeout (heartbeat_sweep env c t) ts k
              (record d { last_seq = next_seq d.last_seq; heartbeat_fail = d.heartbeat_fail + 1 })
              v',
        )
      ]
