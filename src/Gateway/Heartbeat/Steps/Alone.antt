-- ===== src/Gateway/Heartbeat/Steps/Alone.antt =====
-- The heartbeat thread of src/gateway.c when no other thread takes a step between two of its own: its
-- steps over the table, index by index, are the sweep of Gateway/Heartbeat.
use linux_file_manager.Prelude.{
  Bool-cases, List, [], ap, arith, false, inl, inr, length, refl, subst, suc, true, ℕ, ◌*◌, ◌++◌,
  ◌+◌, ◌∙◌, ◌∷◌, ◌≡◌, ◌≤◌,
}
use linux_file_manager.Gateway.{
  Env, GatewayCtx, GatewayDevice, close, device_count, emit, gateway_heartbeat_interval_s,
  gateway_heartbeat_timeout_s, shutdown,
}
use linux_file_manager.Gateway.Heartbeat.{
  check_device, drop_it, heartbeat_sweep, keep_it, next_seq, ping, ping_it, sweep_from,
}
use linux_file_manager.Gateway.Heartbeat.Steps.{
  Heart, heart_step, idle_over, is_due, resting, sent, sweeping, unlocked,
}
use linux_file_manager.Gateway.Heartbeat.Steps.Beats.{
  at_index, at_next, beats, step_drop, step_end, step_fail, step_idle, step_keep, step_late,
  step_send,
}

check_due : (now : ℕ) (d : GatewayDevice) → is_due now d ≡ true → check_device now d ≡ drop_it
unfolding check_device
check_due now d due = ground (arith, due)

check_late :
    (now : ℕ) (d : GatewayDevice)
    → is_due now d ≡ false
    → idle_over gateway_heartbeat_timeout_s now d ≡ true
    → check_device now d
      ≡ ping_it (record d { last_seq = next_seq d.last_seq; heartbeat_fail = d.heartbeat_fail + 1 })
unfolding check_device
check_late now d due over = ground (arith, due, over)

check_idle :
    (now : ℕ) (d : GatewayDevice)
    → idle_over gateway_heartbeat_timeout_s now d ≡ false
    → idle_over gateway_heartbeat_interval_s now d ≡ true
    → check_device now d ≡ ping_it (record d { last_seq = next_seq d.last_seq })
unfolding check_device
check_idle now d under over = rw (under, over) refl

check_fresh :
    (now : ℕ) (d : GatewayDevice)
    → idle_over gateway_heartbeat_timeout_s now d ≡ false
    → idle_over gateway_heartbeat_interval_s now d ≡ false
    → check_device now d ≡ keep_it (record d { heartbeat_fail = 0 })
unfolding check_device
check_fresh now d under fresh = rw (under, fresh) refl

module _ (env : Env) (old : ℕ) where
  -- A run that ends the sweep, in at most so many steps.
  Ends : ℕ → Heart × GatewayCtx → GatewayCtx → Type 0
  Ends k p c = (n : ℕ) × (n ≤ k) × (beats env old n p ≡ (resting, c))

  Ends-step :
      (k : ℕ) (p q : Heart × GatewayCtx) (c : GatewayCtx)
      → heart_step env old p ≡ q
      → Ends k q c
      → Ends (1 + k) p c
  unfolding beats Ends
  Ends-step k p q c e (n, le, end) = (suc n, omega (arith, le), ap (beats env old n) e ∙ end)

  Ends-wider : (k l : ℕ) (p : Heart × GatewayCtx) (c : GatewayCtx) → k ≤ l → Ends k p c → Ends l p c
  unfolding Ends
  Ends-wider k l p c le (n, within, end) = (n, omega (arith, le, within), end)

  -- One turn of `sweep_from`, by its verdict.
  sweep_drop :
      (now : ℕ) (c : GatewayCtx) (ls : List GatewayDevice) (d : GatewayDevice)
      (rs : List GatewayDevice)
      → check_device now d ≡ drop_it
      → sweep_from env now (emit c (shutdown d.fd ∷ close d.fd ∷ [])) ls rs
        ≡ sweep_from env now c ls (d ∷ rs)
  unfolding sweep_from
  sweep_drop now c ls d rs e = rw (e, sweep_from) refl

  sweep_keep :
      (now : ℕ) (c : GatewayCtx) (ls : List GatewayDevice) (d d' : GatewayDevice)
      (rs : List GatewayDevice)
      → check_device now d ≡ keep_it d'
      → sweep_from env now c (ls ++ d' ∷ []) rs ≡ sweep_from env now c ls (d ∷ rs)
  unfolding sweep_from
  sweep_keep now c ls d d' rs e = rw (e, sweep_from) refl

  sweep_ping :
      (now : ℕ) (c : GatewayCtx) (ls : List GatewayDevice) (d d' : GatewayDevice)
      (rs : List GatewayDevice)
      → check_device now d ≡ ping_it d'
      → sweep_from env now (ping env c d') (ls ++ d' ∷ []) rs ≡ sweep_from env now c ls (d ∷ rs)
  unfolding sweep_from
  sweep_ping now c ls d d' rs e = rw (e, sweep_from) refl

  -- The thread's steps over one device bring it to where `q` stands, and from there to the end.
  Ends-one :
      (k : ℕ) (p q : Heart × GatewayCtx) (c c' : GatewayCtx)
      → heart_step env old p ≡ q
      → c ≡ c'
      → Ends (1 + 3 * k) q c
      → Ends (1 + 3 * suc k) p c'
  Ends-one k p q c c' e same end = subst (Ends (1 + 3 * suc k) p) same (
      Ends-wider (1 + (1 + 3 * k)) (1 + 3 * suc k) p c (omega arith)
        (Ends-step (1 + 3 * k) p q c e end))

  Ends-three :
      (k : ℕ) (p a b q : Heart × GatewayCtx) (c c' : GatewayCtx)
      → heart_step env old p ≡ a
      → heart_step env old a ≡ b
      → heart_step env old b ≡ q
      → c ≡ c'
      → Ends (1 + 3 * k) q c
      → Ends (1 + 3 * suc k) p c'
  Ends-three k p a b q c c' e f g same end = subst (Ends (1 + 3 * suc k) p) same (
      Ends-wider (1 + (1 + (1 + (1 + 3 * k)))) (1 + 3 * suc k) p c (omega arith) (
        Ends-step (1 + (1 + (1 + 3 * k))) p a c e
          (Ends-step (1 + (1 + 3 * k)) a b c f (Ends-step (1 + 3 * k) b q c g end))))

  -- From an index on, the thread ends with what `sweep_from` gives.
  sweep-Ends :
      (now : ℕ) (rs : List GatewayDevice) (c : GatewayCtx) (ls : List GatewayDevice)
      → Ends (1 + 3 * length rs) (at_index now c ls rs) (sweep_from env now c ls rs)
  unfolding sweep_from Ends beats
  sweep-Ends now [] c ls = (1, omega arith, step_end env old now c ls)
  sweep-Ends now (d ∷ rs) c ls = elim (Bool-cases (is_due now d)) [
    | inl due ↦
        Ends-one (length rs) (at_index now c ls (d ∷ rs)) (at_index now closed ls rs)
          (sweep_from env now closed ls rs) (sweep_from env now c ls (d ∷ rs))
          (step_drop env old now c ls d rs due) (sweep_drop now c ls d rs (check_due now d due))
          (sweep-Ends now rs closed ls)
    | inr stays ↦ elim (Bool-cases (idle_over gateway_heartbeat_timeout_s now d)) [
      | inl late ↦
          Ends-three (length rs) (at_index now c ls (d ∷ rs))
            (unlocked now (length ls) (next_seq d.last_seq) true, with_seq)
            (
              sent now (length ls) true,
              record (ping env c numbered) { devices = ls ++ numbered ∷ rs },
            )
            (at_index now (ping env c numbered) (ls ++ failed ∷ []) rs)
            (sweep_from env now (ping env c numbered) (ls ++ failed ∷ []) rs)
            (sweep_from env now c ls (d ∷ rs)) (step_late env old now c ls d rs stays late)
            (step_send env old now c ls numbered rs true)
            (step_fail env old now (ping env c numbered) ls numbered rs)
            (sweep_ping now c ls d failed rs (check_late now d stays late))
            (sweep-Ends now rs (ping env c numbered) (ls ++ failed ∷ []))
      | inr under ↦ elim (Bool-cases (idle_over gateway_heartbeat_interval_s now d)) [
        | inl idle ↦
            Ends-three (length rs) (at_index now c ls (d ∷ rs))
              (unlocked now (length ls) (next_seq d.last_seq) false, with_seq)
              (
                sent now (length ls) false,
                record (ping env c numbered) { devices = ls ++ numbered ∷ rs },
              )
              (at_index now (ping env c numbered) (ls ++ numbered ∷ []) rs)
              (sweep_from env now (ping env c numbered) (ls ++ numbered ∷ []) rs)
              (sweep_from env now c ls (d ∷ rs)) (step_idle env old now c ls d rs under idle)
              (step_send env old now c ls numbered rs false)
              (at_next env old now (ping env c numbered) ls numbered rs)
              (sweep_ping now c ls d numbered rs (check_idle now d under idle))
              (sweep-Ends now rs (ping env c numbered) (ls ++ numbered ∷ []))
        | inr fresh ↦
            Ends-one (length rs) (at_index now c ls (d ∷ rs))
              (at_index now c (ls ++ cleared ∷ []) rs)
              (sweep_from env now c (ls ++ cleared ∷ []) rs) (sweep_from env now c ls (d ∷ rs))
              (step_keep env old now c ls d rs under fresh)
              (sweep_keep now c ls d cleared rs (check_fresh now d under fresh))
              (sweep-Ends now rs c (ls ++ cleared ∷ []))
      ]
    ]
  ]
    where
      closed : GatewayCtx
      closed = emit c (shutdown d.fd ∷ close d.fd ∷ [])

      numbered : GatewayDevice
      numbered = record d { last_seq = next_seq d.last_seq }

      failed : GatewayDevice
      failed = record d { last_seq = next_seq d.last_seq; heartbeat_fail = d.heartbeat_fail + 1 }

      cleared : GatewayDevice
      cleared = record d { heartbeat_fail = 0 }

      with_seq : GatewayCtx
      with_seq = record c { devices = ls ++ numbered ∷ rs }

  -- From the start of a sweep, the heartbeat thread comes to rest within `1 + 3 * device_count` of its
  -- steps where no other thread takes a step in between, and leaves the context that `heartbeat_sweep`
  -- gives. This holds whatever `fd_at` finds behind the table.
  pub beats-heartbeat_sweep :
      (c : GatewayCtx) (now : ℕ)
      → (n : ℕ) × (n ≤ 1 + 3 * device_count c)
        × (beats env old n (sweeping now 0, c) ≡ (resting, heartbeat_sweep env c now))
  unfolding heartbeat_sweep Ends
  beats-heartbeat_sweep c now = sweep-Ends now c.devices c []
