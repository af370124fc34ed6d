-- ===== src/Gateway/Heartbeat/Steps/Beats.antt =====
-- The steps of the heartbeat thread of src/gateway.c over one device, where no other thread takes a step
-- in between.
use linux_file_manager.Prelude.{
  Bool, List, [], ap, append-nil, append_assoc, arith, false, get_elem?, length, length-append,
  none, refl, set, some, suc, true, zero, ℕ, ◌++◌, ◌+◌, ◌∙◌, ◌∷◌, ◌≡◌,
}
use linux_file_manager.Gateway.{
  Env, GatewayCtx, GatewayDevice, close, cmd_ping, emit, flag_heartbeat,
  gateway_heartbeat_interval_s, gateway_heartbeat_timeout_s, send_frame_raw, shutdown,
}
use linux_file_manager.Gateway.Kept.{send_frame_raw-devices}
use linux_file_manager.Gateway.Heartbeat.{next_seq, ping}
use linux_file_manager.Gateway.Heartbeat.Steps.{
  Heart, count_fail, cut, fd_at, heart_check, heart_step, idle_over, is_due, resting, sent,
  sweeping, unlocked,
}

get_elem?-length :
    (ls : List GatewayDevice) (d : GatewayDevice) (rs : List GatewayDevice)
    → get_elem? (ls ++ d ∷ rs) (length ls) ≡ some d
get_elem?-length [] d rs = refl
get_elem?-length (x ∷ ls) d rs = get_elem?-length ls d rs

get_elem?-behind : (ls : List GatewayDevice) → get_elem? (ls ++ []) (length ls) ≡ none
get_elem?-behind [] = refl
get_elem?-behind (x ∷ ls) = get_elem?-behind ls

set-length :
    (ls : List GatewayDevice) (d e : GatewayDevice) (rs : List GatewayDevice)
    → set (ls ++ d ∷ rs) (length ls) e ≡ ls ++ e ∷ rs
set-length [] d e rs = refl
set-length (x ∷ ls) d e rs = ap (λ ds. x ∷ ds) (set-length ls d e rs)

cut-length :
    (ls : List GatewayDevice) (d : GatewayDevice) (rs : List GatewayDevice)
    → cut (ls ++ d ∷ rs) (length ls) ≡ ls ++ rs
cut-length [] d rs = refl
cut-length (x ∷ ls) d rs = ap (λ ds. x ∷ ds) (cut-length ls d rs)

-- The loop at the index behind `ls`, with the rest of the table still to come.
abbrev pub at_index : ℕ → GatewayCtx → List GatewayDevice → List GatewayDevice → Heart × GatewayCtx
at_index now c ls rs = (sweeping now (length ls), record c { devices = ls ++ rs })

module _ (env : Env) (old : ℕ) where
  -- The thread's next steps, with no other thread's between them.
  unfoldable pub beats : ℕ → Heart × GatewayCtx → Heart × GatewayCtx
  unfolding heart_step
  beats zero p = p
  beats (suc n) p = beats n (heart_step env old p)

  pub step_end :
      (now : ℕ) (c : GatewayCtx) (ls : List GatewayDevice)
      → heart_step env old (at_index now c ls []) ≡ (resting, record c { devices = ls })
  unfolding heart_step heart_check
  step_end now c ls = rw (get_elem?-behind ls) (rw (append-nil ls) refl)

  pub step_drop :
      (now : ℕ) (c : GatewayCtx) (ls : List GatewayDevice) (d : GatewayDevice)
      (rs : List GatewayDevice)
      → is_due now d ≡ true
      → heart_step env old (at_index now c ls (d ∷ rs))
        ≡ at_index now (emit c (shutdown d.fd ∷ close d.fd ∷ [])) ls rs
  unfolding heart_step heart_check
  step_drop now c ls d rs due = rw (get_elem?-length ls d rs, due) (rw (cut-length ls d rs) refl)

  pub at_next :
      (now : ℕ) (c : GatewayCtx) (ls : List GatewayDevice) (d : GatewayDevice)
      (rs : List GatewayDevice)
      → (sweeping now (suc (length ls)), record c { devices = ls ++ d ∷ rs })
        ≡ at_index now c (ls ++ d ∷ []) rs
  at_next now c ls d rs =
      let count : length (ls ++ d ∷ []) ≡ suc (length ls) =
        omega (arith, length-append {0} ls (d ∷ [])) in
      rw (count, append_assoc ls (d ∷ []) rs) refl

  pub step_keep :
      (now : ℕ) (c : GatewayCtx) (ls : List GatewayDevice) (d : GatewayDevice)
      (rs : List GatewayDevice)
      → idle_over gateway_heartbeat_timeout_s now d ≡ false
      → idle_over gateway_heartbeat_interval_s now d ≡ false
      → heart_step env old (at_index now c ls (d ∷ rs))
        ≡ at_index now c (ls ++ record d { heartbeat_fail = 0 } ∷ []) rs
  unfolding heart_step heart_check
  step_keep now c ls d rs under fresh =
      rw (get_elem?-length ls d rs, under, fresh)
        (rw (set-length ls d (record d { heartbeat_fail = 0 }) rs)
          (at_next now c ls (record d { heartbeat_fail = 0 }) rs))

  fd_at-length :
      (ls : List GatewayDevice) (d : GatewayDevice) (rs : List GatewayDevice)
      → fd_at old (ls ++ d ∷ rs) (length ls) ≡ d.fd
  unfolding fd_at
  fd_at-length ls d rs = rw (get_elem?-length ls d rs, fd_at) refl

  -- From the unlock on, with the new sequence number in the table.
  pub step_send :
      (now : ℕ) (c : GatewayCtx) (ls : List GatewayDevice) (d : GatewayDevice)
      (rs : List GatewayDevice) (overdue : Bool)
      → heart_step env old
          (unlocked now (length ls) d.last_seq overdue, record c { devices = ls ++ d ∷ rs })
        ≡ (sent now (length ls) overdue, record (ping env c d) { devices = ls ++ d ∷ rs })
  unfolding heart_step
  step_send now c ls d rs overdue =
      ap
        (λ fd. (
          sent now (length ls) overdue,
          (send_frame_raw env (record c { devices = ls ++ d ∷ rs }) fd cmd_ping flag_heartbeat
              d.last_seq none 0).1,
        ))
        (fd_at-length ls d rs)
      ∙ ap (λ c'. (sent now (length ls) overdue, c'))
          (send_frame_raw-devices env c (ls ++ d ∷ rs) d.fd cmd_ping flag_heartbeat d.last_seq none
            0)

  pub step_fail :
      (now : ℕ) (c : GatewayCtx) (ls : List GatewayDevice) (d : GatewayDevice)
      (rs : List GatewayDevice)
      → heart_step env old (sent now (length ls) true, record c { devices = ls ++ d ∷ rs })
        ≡ at_index now c (ls ++ record d { heartbeat_fail = d.heartbeat_fail + 1 } ∷ []) rs
  unfolding heart_step count_fail
  step_fail now c ls d rs =
      rw (get_elem?-length ls d rs, count_fail)
        (rw (set-length ls d (record d { heartbeat_fail = d.heartbeat_fail + 1 }) rs)
          (at_next now c ls (record d { heartbeat_fail = d.heartbeat_fail + 1 }) rs))

  pub step_late :
      (now : ℕ) (c : GatewayCtx) (ls : List GatewayDevice) (d : GatewayDevice)
      (rs : List GatewayDevice)
      → is_due now d ≡ false
      → idle_over gateway_heartbeat_timeout_s now d ≡ true
      → heart_step env old (at_index now c ls (d ∷ rs)) ≡ (
        unlocked now (length ls) (next_seq d.last_seq) true,
        record c { devices = ls ++ record d { last_seq = next_seq d.last_seq } ∷ rs },
      )
  unfolding heart_step heart_check
  step_late now c ls d rs stays over =
      rw (get_elem?-length ls d rs, stays, over)
        (rw (set-length ls d (record d { last_seq = next_seq d.last_seq }) rs) refl)

  pub step_idle :
      (now : ℕ) (c : GatewayCtx) (ls : List GatewayDevice) (d : GatewayDevice)
      (rs : List GatewayDevice)
      → idle_over gateway_heartbeat_timeout_s now d ≡ false
      → idle_over gateway_heartbeat_interval_s now d ≡ true
      → heart_step env old (at_index now c ls (d ∷ rs)) ≡ (
        unlocked now (length ls) (next_seq d.last_seq) false,
        record c { devices = ls ++ record d { last_seq = next_seq d.last_seq } ∷ rs },
      )
  unfolding heart_step heart_check
  step_idle now c ls d rs under over =
      rw (get_elem?-length ls d rs, under, over)
        (rw (set-length ls d (record d { last_seq = next_seq d.last_seq }) rs) refl)
