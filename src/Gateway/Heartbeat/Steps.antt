-- ===== src/Gateway/Heartbeat/Steps.antt =====
-- The sweep of `heartbeat_thread_func` of src/gateway.c cut into the steps between which other threads
-- run, since the mutex is given up around each `send_frame_raw`.
pub mod Alone
pub mod Beats
pub mod Table
use linux_file_manager.Prelude.{
  Bool, List, Option, [], drop, false, get_elem?, if◌then◌else◌, leb, ltb, none, set, some, suc,
  take, true, ℕ, ◌&&◌, ◌++◌, ◌+◌, ◌∷◌,
}
use linux_file_manager.Gateway.{
  Env, GatewayCtx, GatewayDevice, close, cmd_ping, emit, flag_heartbeat,
  gateway_heartbeat_interval_s, gateway_heartbeat_timeout_s, send_frame_raw, shutdown,
}
use linux_file_manager.Gateway.Heartbeat.{next_seq}
use linux_file_manager.Gateway.Heartbeat.{next_seq}

-- Where the heartbeat thread stands: asleep; in its loop at an index, with the mutex; behind the
-- unlock, on its way to send; and behind the send. The first number is the sweep's `now`, and the
-- Boolean says whether the device is over its timeout.
pub data Heart : Type 0 where
  resting : Heart
  sweeping : ℕ → ℕ → Heart
  unlocked : ℕ → ℕ → ℕ → Bool → Heart
  sent : ℕ → ℕ → Bool → Heart

abbrev pub is_free : Heart → Bool
is_free (sweeping now i) = false
is_free resting = true
is_free (unlocked now i seq overdue) = true
is_free (sent now i overdue) = true

-- `idle > t`, with the signed difference `idle = now - last_active_time`.
abbrev pub idle_over : ℕ → ℕ → GatewayDevice → Bool
idle_over t now d = ltb (d.last_active_time + t) now

abbrev pub is_due : ℕ → GatewayDevice → Bool
is_due now d = idle_over gateway_heartbeat_timeout_s now d && leb 3 d.heartbeat_fail

-- The entry at an index goes, and the later ones move down.
abbrev pub cut : {A : Type 0} → List A → ℕ → List A
cut xs i = take i xs ++ drop (suc i) xs

-- The loop's body at index `i` up to the next unlock or the next index; behind the last index the
-- mutex is given back.
unfoldable pub heart_check : ℕ → ℕ → GatewayCtx → Option GatewayDevice → Heart × GatewayCtx
heart_check now i c none = (resting, c)
heart_check now i c (some d) =
    if is_due now d
    then (
      sweeping now i,
      record (emit c (shutdown d.fd ∷ close d.fd ∷ [])) { devices = cut c.devices i },
    )
    else if idle_over gateway_heartbeat_timeout_s now d
    then (
      unlocked now i (next_seq d.last_seq) true,
      record c { devices = set c.devices i (record d { last_seq = next_seq d.last_seq }) },
    )
    else if idle_over gateway_heartbeat_interval_s now d
    then (
      unlocked now i (next_seq d.last_seq) false,
      record c { devices = set c.devices i (record d { last_seq = next_seq d.last_seq }) },
    )
    else (
      sweeping now (suc i),
      record c { devices = set c.devices i (record d { heartbeat_fail = 0 }) },
    )

-- `dev->fd`, where `dev` points at index `i`. Behind the table it is what an older record left there.
unfoldable pub fd_at : ℕ → List GatewayDevice → ℕ → ℕ
fd_at old ds i = elim (get_elem? ds i) [ none ↦ old | some d ↦ d.fd ]

-- `dev->heartbeat_fail++`
unfoldable pub count_fail : GatewayCtx → ℕ → GatewayCtx
count_fail c i = elim (get_elem? c.devices i) [
  | none ↦ c
  | some d ↦ record c {
    devices = set c.devices i (record d { heartbeat_fail = d.heartbeat_fail + 1 });
  }
]

module _ (env : Env) where
  -- `old` is what `fd_at` finds behind the table.
  unfoldable pub heart_step : ℕ → Heart × GatewayCtx → Heart × GatewayCtx
  unfolding heart_check fd_at count_fail
  heart_step old (resting, c) = (resting, c)
  heart_step old (sweeping now i, c) = heart_check now i c (get_elem? c.devices i)
  heart_step old (unlocked now i seq overdue, c) = (
    sent now i overdue,
    (send_frame_raw env c (fd_at old c.devices i) cmd_ping flag_heartbeat seq none 0).1,
  )
  heart_step old (sent now i overdue, c) =
      (sweeping now (suc i), if overdue then count_fail c i else c)

-- Whether the next step of the heartbeat thread drops a device, and which.
unfoldable pub dropped : Heart → GatewayCtx → Option ℕ
dropped (sweeping now i) c = elim (get_elem? c.devices i) [
  | none ↦ none
  | some d ↦ if is_due now d then some d.fd else none
]
dropped resting c = none
dropped (unlocked now i seq overdue) c = none
dropped (sent now i overdue) c = none
