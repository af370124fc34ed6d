-- ===== src/Gateway/Worker/Frames.antt =====
-- Whole frames through `client_worker` of src/gateway.c and the callbacks of src/menu.c.
use mathlib.Core.Option.{some-injective}
use linux_file_manager.Prelude.{
  Bool, List, Option-cases, [], ap, append-nil, arith, drop-length, false, get_elem?, get_or,
  if◌then◌else◌, inl, inr, length, none, refl, set, some, suc, sym, take-length, true, zero, ℕ,
  ◌&&◌, ◌++◌, ◌+◌, ◌<◌, ◌==◌, ◌∙◌, ◌∷◌, ◌≡◌, ◌≢◌, ◌≤◌,
}
use linux_file_manager.Gateway.Pointers.{find_device_by_fd_lem}
use linux_file_manager.Gateway.Sending.{HasBuffer, send_frame_raw_lem, sent_bytes}
use linux_file_manager.Gateway.Callbacks.{
  c_string, call_handler, dev_id_size, put_device, register_handlers, register_id, register_type,
}
use linux_file_manager.Gateway.Registry.{lookup_fd, lookup_fd-touch_fd, touched}
use linux_file_manager.Protocol.{
  ProtoHeader, parse_raw, parsed, proto_magic_1, proto_magic_2, proto_max_payload,
}
use linux_file_manager.Protocol.Prefix.{parse_raw_nil}
use linux_file_manager.Protocol.Wire.{length-wire, message, parse_raw-wire, wire}
use linux_file_manager.Gateway.{
  Env, GatewayCtx, GatewayDevice, cmd_stm32_register, dev_type_esp8266, dev_type_stm32, emit,
  find_device_by_fd, find_fd, find_handler, flag_response, gateway_send_response, send, touch_fd,
  update_device_activity,
}
use linux_file_manager.Gateway.Worker.{
  faulted, looping, on_message, parse_all, received, recv_buf_size, returned, worker_exit,
  worker_parsed, worker_step, ◌>>=◌,
}
use linux_file_manager.Gateway.Worker.Stream.{>>=-cong, parse_all-incomplete, parse_all-parsed}
use linux_file_manager.Gateway.Worker.Replies.{is_known, is_ping, on_message_faults}

module _ (env : Env) (fd now : ℕ) (c : GatewayCtx) (h : ProtoHeader) (p : List ℕ) where
  -- A round of the worker that receives one frame.
  worker_step_frame :
      c.running ≡ true
      → h.magic1 ≡ proto_magic_1
      → h.magic2 ≡ proto_magic_2
      → h.payload_len ≡ length p
      → worker_step env fd (looping c []) (received now (wire h p))
        ≡ worker_parsed (on_message env fd now c (message h p) >>= (λ c'. some (c', [])))
  unfolding worker_step
  worker_step_frame on m1 m2 len =
      let q : parse_raw (wire h p) ≡ parsed (8 + length p + 1) (message h p) =
        ap parse_raw (sym (append-nil (wire h p))) ∙ parse_raw-wire h p [] m1 m2 len in
      ap
        (λ b.
          if b
          then worker_parsed (parse_all (on_message env fd now) c (wire h p))
          else returned (worker_exit c fd))
        on
      ∙ ap worker_parsed (
          parse_all-parsed (on_message env fd now) c (wire h p) _ _ q
          ∙ >>=-cong (on_message env fd now c (message h p)) _ _ (λ c'.
            rw (drop-length (8 + length p + 1) (wire h p) (omega (arith, length-wire h p)))
              (parse_all-incomplete (on_message env fd now) c' [] parse_raw_nil)))

  -- A peer in the table can send a frame with a correct checksum that fits the receive buffer, for a
  -- command with a handler, and with a payload of 513 to 2074 bytes: the worker then writes past
  -- the end of `payload_copy`.
  pub oversized_frame_faults :
      c.running ≡ true
      → h.magic1 ≡ proto_magic_1
      → h.magic2 ≡ proto_magic_2
      → h.payload_len ≡ length p
      → proto_max_payload < length p
      → length p ≤ 2074
      → is_known c fd ≡ true
      → is_ping (message h p) ≡ false
      → find_handler c h.cmd ≢ none
      → (length (wire h p) < recv_buf_size)
        × (worker_step env fd (looping c []) (received now (wire h p)) ≡ faulted)
  unfolding worker_parsed
  oversized_frame_faults on m1 m2 len large room known other handled = (
    omega (arith, length-wire h p),
    worker_step_frame on m1 m2 len
        ∙ rw ((on_message_faults env fd now c (message h p)).1 (known, other, handled, large)),
  )

lookup_fd-set :
    (fd k i : ℕ) (ds : List GatewayDevice) (d : GatewayDevice)
    → find_fd fd ds ≡ some i
    → d.fd ≡ fd
    → lookup_fd k (set ds i d) ≡ (if fd == k then some d else lookup_fd k ds)
unfolding lookup_fd find_fd
lookup_fd-set fd k i [] d e same = cc
lookup_fd-set fd k zero (x ∷ ds) d e same = elim (Option-cases (find_fd fd ds)) [
  | inl miss ↦ ground (arith, miss)
  | inr (j, hit) ↦ ground (arith, hit)
]
lookup_fd-set fd k (suc i) (x ∷ ds) d e same = elim (Option-cases (find_fd fd ds)) [
  | inl miss ↦ ground (arith, miss)
  | inr (j, hit) ↦ ground (arith, hit, lookup_fd-set fd k i ds d)
]

find_fd-touch_fd :
    (fd k now : ℕ) (ds : List GatewayDevice) → find_fd fd (touch_fd k now ds) ≡ find_fd fd ds
unfolding find_fd touch_fd
find_fd-touch_fd fd k now [] = refl
find_fd-touch_fd fd k now (d ∷ ds) = ground (arith, find_fd-touch_fd fd k now ds)

get_elem?-touch_fd :
    (fd now i : ℕ) (ds : List GatewayDevice) (d : GatewayDevice)
    → find_fd fd ds ≡ some i
    → get_elem? ds i ≡ some d
    → get_elem? (touch_fd fd now ds) i ≡ some (touched now d)
unfolding find_fd touch_fd
get_elem?-touch_fd fd now i [] d e g = cc
get_elem?-touch_fd fd now zero (x ∷ ds) d e g = elim (Option-cases (find_fd fd ds)) [
  | inl miss ↦ ground (arith, miss)
  | inr (j, hit) ↦ ground (arith, hit)
]
get_elem?-touch_fd fd now (suc i) (x ∷ ds) d e g = elim (Option-cases (find_fd fd ds)) [
  | inl miss ↦ ground (arith, miss)
  | inr (j, hit) ↦ ground (arith, hit, get_elem?-touch_fd fd now i ds d)
]

abbrev starts_with : List ℕ → ℕ → ℕ → Bool
starts_with p a b = get_or p 0 0 == a && get_or p 1 0 == b

-- The device after a registration with the payload `p`.
abbrev registered : ℕ → List ℕ → GatewayDevice → GatewayDevice
registered now p d = record d {
  dev_id = c_string p;
  dev_type =
      if starts_with p b'S' b'T'
      then dev_type_stm32
      else if starts_with p b'E' b'S'
      then dev_type_esp8266
      else d.dev_type;
  last_active_time = now;
}

register_lem :
    (now : ℕ) (p : List ℕ) (d : GatewayDevice)
    → 2 ≤ length p
    → length p < dev_id_size
    → register_type (register_id (touched now d) p (length p)) p (length p) ≡ registered now p d
unfolding register_type register_id
register_lem now p d low high = ground (arith, take-length (length p) p)

abbrev registered_ctx : ℕ → ℕ → GatewayCtx → ProtoHeader → List ℕ → GatewayDevice → ℕ → GatewayCtx
registered_ctx fd now c h p d i =
    emit (put_device (update_device_activity (register_handlers c) fd now) i (registered now p d))
      (send fd (sent_bytes cmd_stm32_register flag_response h.seq (some (0x00 ∷ 0x01 ∷ [])) 2) ∷ [])

on_message_registers :
    (env : Env) (fd now : ℕ) (c : GatewayCtx) (h : ProtoHeader) (p : List ℕ) (d : GatewayDevice)
    (i : ℕ)
    → HasBuffer env
    → length env.stack_frame.payload ≡ proto_max_payload
    → h.payload_len ≡ length p
    → h.cmd ≡ cmd_stm32_register
    → 2 ≤ length p
    → length p < dev_id_size
    → find_fd fd c.devices ≡ some i
    → get_elem? c.devices i ≡ some d
    → d.fd ≡ fd
    → on_message env fd now (register_handlers c) (message h p)
      ≡ some (registered_ctx fd now c h p d i)
unfolding on_message call_handler find_device_by_fd update_device_activity find_handler
    register_handlers gateway_send_response
on_message_registers env fd now c h p d i full frame len cmd low high e g same =
    let u : GatewayCtx = update_device_activity (register_handlers c) fd now in
    ground (
      arith,
      get_elem?-touch_fd fd now i c.devices d e g,
      register_lem now p d low high,
      send_frame_raw_lem env (put_device u i (registered now p d)) fd cmd_stm32_register
          flag_response h.seq (some (0x00 ∷ 0x01 ∷ [])) 2 full frame (omega arith),
    )

-- A registration frame of 2 to 31 payload bytes from a device in the table, with the handlers that
-- the menu registers: the worker stays in its loop with nothing left over; the device has the
-- payload's string as its identifier, the type that its first two letters say (else the one it had),
-- and the time as its last activity; every other device is as it was; and the registration response
-- goes out with the same sequence number.
pub worker_registers :
    (env : Env) (fd now : ℕ) (c : GatewayCtx) (h : ProtoHeader) (p : List ℕ) (d : GatewayDevice)
    (k : ℕ)
    → HasBuffer env
    → length env.stack_frame.payload ≡ proto_max_payload
    → c.running ≡ true
    → h.magic1 ≡ proto_magic_1
    → h.magic2 ≡ proto_magic_2
    → h.payload_len ≡ length p
    → h.cmd ≡ cmd_stm32_register
    → 2 ≤ length p
    → length p < dev_id_size
    → lookup_fd fd c.devices ≡ some d
    → (c' : GatewayCtx) × (worker_step env fd
          (looping (register_handlers c) [])
          (received now (wire h p))
        ≡ looping c' [])
      × (lookup_fd k c'.devices
          ≡ (if fd == k then some (registered now p d) else lookup_fd k c.devices))
      × (c'.trace
          ≡ c.trace
            ++ send fd
                (sent_bytes cmd_stm32_register flag_response h.seq (some (0x00 ∷ 0x01 ∷ [])) 2)
              ∷ [])
unfolding find_device_by_fd register_handlers update_device_activity worker_parsed
worker_registers env fd now c h p d k full frame on m1 m2 len cmd low high known =
    elim (find_device_by_fd_lem c fd) [
      | inl (e, gone) ↦ absurd (ground (arith, gone, known))
      | inr (i, e, d', g, l, same, lt) ↦
          let found : d' ≡ d = some-injective d' d (sym l ∙ known) in
          let g' : get_elem? c.devices i ≡ some d = g ∙ ap some found in
          let fd_of : d.fd ≡ fd = ap (λ x. x.fd) (sym found) ∙ same in
          (
            registered_ctx fd now c h p d i,
            worker_step_frame env fd now (register_handlers c) h p on m1 m2 len
                ∙ ap (λ o. worker_parsed (o >>= (λ c'. some (c', []))))
                    (on_message_registers env fd now c h p d i full frame len cmd low high e g'
                      fd_of),
            ground (
              arith,
              lookup_fd-set fd k i (touch_fd fd now c.devices) (registered now p d)
                  (find_fd-touch_fd fd fd now c.devices ∙ e) fd_of,
              lookup_fd-touch_fd k fd now c.devices,
            ),
            refl,
          )
    ]
