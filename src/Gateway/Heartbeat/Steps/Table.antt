-- ===== src/Gateway/Heartbeat/Steps/Table.antt =====
-- What a step of the heartbeat thread of src/gateway.c leaves of the device table.
use linux_file_manager.Prelude.{
  Bool-cases, List, Option-cases, [], arith, false, get_elem?, inl, inr, length, none, refl, set,
  some, suc, true, zero, ℕ, ◌+◌, ◌∷◌, ◌≡◌, ◌≤◌,
}
use linux_file_manager.Gateway.Heartbeat.{next_seq}
use linux_file_manager.Gateway.{
  Env, GatewayCtx, GatewayDevice, cmd_ping, device_count, flag_heartbeat,
  gateway_heartbeat_interval_s, gateway_heartbeat_timeout_s,
}
use linux_file_manager.Gateway.Kept.{Keeps, Keeps-refl, fds-set, main_state, send_frame_raw-Keeps}
use linux_file_manager.Gateway.Heartbeat.Steps.{
  Heart, count_fail, cut, dropped, fd_at, heart_check, heart_step, idle_over, is_due, resting, sent,
  sweeping, unlocked,
}

length-cut : (ds : List GatewayDevice) (i : ℕ) → length (cut ds i) ≤ length ds
length-cut [] zero = omega arith
length-cut [] (suc i) = omega arith
length-cut (d ∷ ds) zero = omega arith
length-cut (d ∷ ds) (suc i) = omega (arith, length-cut ds i)

-- A step of the heartbeat thread that drops no device.
heart_check-Keeps :
    (now i : ℕ) (c : GatewayCtx) (d : GatewayDevice)
    → get_elem? c.devices i ≡ some d
    → is_due now d ≡ false
    → Keeps c (heart_check now i c (some d)).1
unfolding heart_check
heart_check-Keeps now i c d e late =
    elim (Bool-cases (idle_over gateway_heartbeat_timeout_s now d)) [
      | inl over ↦ rw (late, over) (put-Keeps (record d { last_seq = next_seq d.last_seq }) refl)
      | inr under ↦ elim (Bool-cases (idle_over gateway_heartbeat_interval_s now d)) [
        | inl pinged ↦
            rw (late, under, pinged) (put-Keeps (record d { last_seq = next_seq d.last_seq }) refl)
        | inr fresh ↦ rw (late, under, fresh) (put-Keeps (record d { heartbeat_fail = 0 }) refl)
      ]
    ]
  where
    put-Keeps :
        (d' : GatewayDevice) → d'.fd ≡ d.fd → Keeps c (record c { devices = set c.devices i d' })
    put-Keeps d' same = record {
      same_fds = fds-set c.devices i d d' e same;
      same_closes = λ k. refl;
      same_main = refl;
    }

count_fail-Keeps : (c : GatewayCtx) (i : ℕ) → Keeps c (count_fail c i)
unfolding count_fail
count_fail-Keeps c i = elim (Option-cases (get_elem? c.devices i)) [
  | inl e ↦ rw (e, count_fail) (Keeps-refl c)
  | inr (d, e) ↦
      rw (e, count_fail)
        (record {
          same_fds =
              fds-set c.devices i d (record d { heartbeat_fail = d.heartbeat_fail + 1 }) e refl;
          same_closes = λ k. refl;
          same_main = refl;
        })
]

module _ (env : Env) where
  sweeping-Keeps :
      (old now i : ℕ) (c : GatewayCtx)
      → dropped (sweeping now i) c ≡ none
      → Keeps c (heart_step env old (sweeping now i, c)).1
  unfolding heart_step dropped heart_check
  sweeping-Keeps old now i c e = elim (Option-cases (get_elem? c.devices i)) [
    | inl behind ↦ rw behind (Keeps-refl c)
    | inr (d, there) ↦
        let late : is_due now d ≡ false = is_due_false d there in
        rw there (heart_check-Keeps now i c d there late)
  ]
    where
      is_due_false : (d : GatewayDevice) → get_elem? c.devices i ≡ some d → is_due now d ≡ false
      is_due_false d there = elim (Bool-cases (is_due now d)) [
        | inl due ↦ absurd (ground (arith, e, there, due))
        | inr late ↦ late
      ]

  pub beat-Keeps :
      (old : ℕ) (h : Heart) (c : GatewayCtx)
      → dropped h c ≡ none
      → Keeps c (heart_step env old (h, c)).1
  unfolding heart_step
  beat-Keeps old resting c e = Keeps-refl c
  beat-Keeps old (sweeping now i) c e = sweeping-Keeps old now i c e
  beat-Keeps old (unlocked now i seq overdue) c e =
      send_frame_raw-Keeps env c (fd_at old c.devices i) cmd_ping flag_heartbeat seq none 0
  beat-Keeps old (sent now i true) c e = count_fail-Keeps c i
  beat-Keeps old (sent now i false) c e = Keeps-refl c

  -- A step that drops a device leaves what the main thread sets.
  pub heart_step-main_state :
      (old : ℕ) (h : Heart) (c : GatewayCtx) (fd : ℕ)
      → dropped h c ≡ some fd
      → main_state (heart_step env old (h, c)).1 ≡ main_state c
  unfolding heart_step dropped heart_check
  heart_step-main_state old resting c fd e = ground (arith, e)
  heart_step-main_state old (unlocked now i seq overdue) c fd e = absurd (ground (arith, e))
  heart_step-main_state old (sent now i overdue) c fd e = absurd (ground (arith, e))
  heart_step-main_state old (sweeping now i) c fd e = elim (Option-cases (get_elem? c.devices i)) [
    | inl behind ↦ rw behind refl
    | inr (d, there) ↦ elim (Bool-cases (is_due now d)) [
      | inl due ↦ rw (there, due) refl
      | inr stays ↦ absurd (ground (arith, e, there, stays))
    ]
  ]

  -- What the heartbeat's step leaves of the table, whatever it does to the device.
  pub heart_step_room :
      (old : ℕ) (h : Heart) (c : GatewayCtx) (fd : ℕ)
      → dropped h c ≡ some fd
      → device_count (heart_step env old (h, c)).1 ≤ device_count c
  unfolding heart_step dropped heart_check
  heart_step_room old resting c fd e = ground (arith, e)
  heart_step_room old (unlocked now i seq overdue) c fd e = ground (arith, e)
  heart_step_room old (sent now i overdue) c fd e = ground (arith, e)
  heart_step_room old (sweeping now i) c fd e = elim (Option-cases (get_elem? c.devices i)) [
    | inl behind ↦ rw behind (omega arith)
    | inr (d, there) ↦ elim (Bool-cases (is_due now d)) [
      | inl due ↦ rw (there, due) (length-cut c.devices i)
      | inr stays ↦ absurd (ground (arith, e, there, stays))
    ]
  ]
