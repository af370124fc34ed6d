-- ===== src/Gateway/Heartbeat/Sweep.antt =====
-- The heartbeat sweep of src/gateway.c: who stays, who goes, and what is sent.
use linux_file_manager.Prelude.{
  List, Option, [], ap, append-nil, append_assoc, arith, inl, inr, length, none, refl, some, subst,
  ℕ, ◌++◌, ◌∙◌, ◌∷◌, ◌≡◌, ◌≤◌, ◌⊎◌,
}
use linux_file_manager.Gateway.Registry.{HasNoFd, HasUniqueFds, lookup_fd, lookup_fd-none}
use linux_file_manager.Protocol.{proto_max_payload}
use linux_file_manager.Gateway.{
  Effect, Env, GatewayCtx, GatewayDevice, close, cmd_ping, emit, flag_heartbeat, send, shutdown,
}
use linux_file_manager.Gateway.Sending.{HasBuffer, send_frame_raw_lem, sent_bytes}
use linux_file_manager.Gateway.Heartbeat.{
  Verdict, check_device, drop_it, heartbeat_sweep, keep_it, ping_it, sweep_from,
}

-- The devices that stay, and what is sent, device by device.
abbrev pub survivors_of : Verdict → List GatewayDevice
survivors_of drop_it = []
survivors_of (keep_it d) = d ∷ []
survivors_of (ping_it d) = d ∷ []

abbrev pub survivors : ℕ → List GatewayDevice → List GatewayDevice
survivors now [] = []
survivors now (d ∷ ds) = survivors_of (check_device now d) ++ survivors now ds

abbrev pub effects_of : GatewayDevice → Verdict → List Effect
effects_of d drop_it = shutdown d.fd ∷ close d.fd ∷ []
effects_of d (keep_it d') = []
effects_of d (ping_it d') = send d'.fd (sent_bytes cmd_ping flag_heartbeat d'.last_seq none 0) ∷ []

abbrev pub effects : ℕ → List GatewayDevice → List Effect
effects now [] = []
effects now (d ∷ ds) = effects_of d (check_device now d) ++ effects now ds

Verdict-cases :
    (v : Verdict)
    → (v ≡ drop_it)
      ⊎ ((d : GatewayDevice) × (v ≡ keep_it d))
      ⊎ ((d : GatewayDevice) × (v ≡ ping_it d))
Verdict-cases drop_it = inl refl
Verdict-cases (keep_it d) = inr (inl (d, refl))
Verdict-cases (ping_it d) = inr (inr (d, refl))

module _ (env : Env) (full : HasBuffer env)
    (frame : length env.stack_frame.payload ≡ proto_max_payload) where
  sweep_from_lem :
      (now : ℕ) (c : GatewayCtx) (kept ds : List GatewayDevice)
      → sweep_from env now c kept ds
        ≡ record c { devices = kept ++ survivors now ds; trace = c.trace ++ effects now ds }
  unfolding sweep_from
  sweep_from_lem now c kept [] = rw (append-nil kept, append-nil c.trace)
  sweep_from_lem now c kept (d ∷ ds) = elim (Verdict-cases (check_device now d)) [
    | inl e ↦
        rw (e, sweep_from)
          (sweep_from_lem now (emit c (shutdown d.fd ∷ close d.fd ∷ [])) kept ds
            ∙ simp append_assoc)
    | inr (inl (d', e)) ↦
        rw (e, sweep_from) (sweep_from_lem now c (kept ++ d' ∷ []) ds ∙ simp append_assoc)
    | inr (inr (d', e)) ↦
        let p =
          send_frame_raw_lem env c d'.fd cmd_ping flag_heartbeat d'.last_seq none 0 full frame
            refl in
        rw (e, sweep_from)
          (ap (λ r. sweep_from env now r.1 (kept ++ d' ∷ []) ds) p
            ∙ sweep_from_lem now
                (emit c (send d'.fd (sent_bytes cmd_ping flag_heartbeat d'.last_seq none 0) ∷ []))
                (kept ++ d' ∷ []) ds
            ∙ simp append_assoc)
  ]

  -- A sweep treats each device by itself and once, in the table's order, also behind one that goes:
  -- it keeps those that `check_device` keeps, and closes the others' sockets or sends the PINGs; it
  -- changes nothing else in the context.
  pub heartbeat_sweep_lem :
      (c : GatewayCtx) (now : ℕ)
      → heartbeat_sweep env c now
        ≡ record c { devices = survivors now c.devices; trace = c.trace ++ effects now c.devices }
  unfolding heartbeat_sweep
  heartbeat_sweep_lem c now = sweep_from_lem now c [] c.devices

-- The device that a verdict leaves.
abbrev pub verdict_device : Verdict → Option GatewayDevice
verdict_device drop_it = none
verdict_device (keep_it d) = some d
verdict_device (ping_it d) = some d

abbrev pub checked : ℕ → Option GatewayDevice → Option GatewayDevice
checked now none = none
checked now (some d) = verdict_device (check_device now d)

survivors-HasNoFd :
    (now k : ℕ) (ds : List GatewayDevice) → HasNoFd k ds → HasNoFd k (survivors now ds)
unfolding check_device
survivors-HasNoFd now k [] h = tt
survivors-HasNoFd now k (d ∷ ds) h = ground (arith, survivors-HasNoFd now k ds h.1, h.0)

pub survivors-HasUniqueFds :
    (now : ℕ) (ds : List GatewayDevice) → HasUniqueFds ds → HasUniqueFds (survivors now ds)
unfolding check_device
survivors-HasUniqueFds now [] u = tt
survivors-HasUniqueFds now (d ∷ ds) u =
    ground (arith, survivors-HasUniqueFds now ds u.1, survivors-HasNoFd now d.fd ds u.0)

pub length-survivors : (now : ℕ) (ds : List GatewayDevice) → length (survivors now ds) ≤ length ds
unfolding check_device
length-survivors now [] = omega arith
length-survivors now (d ∷ ds) = ground (arith, length-survivors now ds)

pub lookup_fd-survivors :
    (now k : ℕ) (ds : List GatewayDevice)
    → HasUniqueFds ds
    → lookup_fd k (survivors now ds) ≡ checked now (lookup_fd k ds)
unfolding lookup_fd check_device
lookup_fd-survivors now k [] u = refl
lookup_fd-survivors now k (d ∷ ds) u = ground (
  arith,
  lookup_fd-survivors now k ds u.1,
  λ (e : d.fd ≡ k). lookup_fd-none k ds (subst (λ x. HasNoFd x ds) e u.0),
)
