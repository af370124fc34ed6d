-- ===== src/Gateway/Tests.antt =====
-- The gateway of src/gateway.c at concrete devices and frames.
use linux_file_manager.Prelude.{
  List, Option, [], ap, arith, false, inl, length, none, refl, some, suc, sym, true, zero, ℕ, ◌++◌,
  ◌<◌, ◌∷◌, ◌≡◌, ◌⊎◌,
}
use linux_file_manager.Protocol.Wire.{message, sent_header, wire}
use linux_file_manager.Gateway.Worker.Frames.{oversized_frame_faults, worker_registers}
use linux_file_manager.Gateway.Worker.Replies.{on_message_replies}
use linux_file_manager.Gateway.Worker.Delivery.{deliver, receive_all-stream}
use linux_file_manager.Gateway.Worker.Leftover.{Item}
use linux_file_manager.Gateway.Worker.{
  faulted, looping, on_message, receive_all, received, recv_buf_size, worker_step,
}
use linux_file_manager.Gateway.Callbacks.{c_string, register_handlers}
use linux_file_manager.Gateway.Registry.Unordered.{added, call, call_comm, removed, view}
use linux_file_manager.Gateway.Registry.{
  IsValid, add_device_refines, lookup_fd, remove_update_refine,
}
use linux_file_manager.Protocol.{
  ProtoHeader, ProtoMessage, checksum_from, header_bytes, proto_max_payload,
}
use linux_file_manager.Gateway.{
  Env, GatewayCtx, GatewayDevice, add_device, cmd_pong, cmd_sensor_data, cmd_stm32_register,
  device_count, emit, find_device_by_fd, find_handler, flag_heartbeat, flag_response, new_device,
  remove_device, send, update_device_activity,
}
use linux_file_manager.Gateway.Sending.{HasBuffer, sent_bytes}

pub zeros : ℕ → List ℕ
zeros zero = []
zeros (suc n) = 0 ∷ zeros n

length-zeros : (n : ℕ) → length (zeros n) ≡ n
unfolding zeros
length-zeros zero = refl
length-zeros (suc n) = ap suc (length-zeros n)

-- A `send` that takes all bytes.
abbrev pub sample_env : Env
sample_env = record {
  stack_frame = record {
    header = record { magic1 = 0; magic2 = 0; cmd = 0; flags = 0; seq = 0; payload_len = 0 };
    payload = zeros 512;
    checksum = 0;
    total_len = 0;
  };
  stack_temp = [];
  stack_buf = zeros 521;
  send_result = λ fd bytes. some (length bytes);
}

pub sample_buffer : HasBuffer sample_env
sample_buffer = length-zeros 521

pub sample_frame : length sample_env.stack_frame.payload ≡ proto_max_payload
sample_frame = length-zeros 512

abbrev pub sensor : GatewayDevice
sensor = record (new_device 5 (b'1' ∷ b'.' ∷ b'2' ∷ []) 4000 100) { last_seq = 9 }

abbrev pub lamp : GatewayDevice
lamp = new_device 6 (b'1' ∷ b'.' ∷ b'3' ∷ []) 4001 100

abbrev pub sample_ctx : GatewayCtx
sample_ctx = record {
  port = 6789;
  listen_fd = some 3;
  running = true;
  stopped = false;
  devices = sensor ∷ lamp ∷ [];
  handlers = [];
  pool = true;
  accept_thread = true;
  heartbeat_thread = true;
  trace = [];
}

pub sample_ctx-IsValid : IsValid sample_ctx
sample_ctx-IsValid = record { bounded = omega arith; unique = omega arith }

abbrev ping_frame : ProtoHeader
ping_frame = sent_header 1 2 7 0

abbrev register_frame : ProtoHeader
register_frame = sent_header 0x10 0 258 3

abbrev st1 : List ℕ
st1 = b'S' ∷ b'T' ∷ b'1' ∷ []

add_device_refines_example :
    (device_count sample_ctx ≡ 32) × (add_device sample_ctx 7 [] 80 101 ≡ (false, sample_ctx))
    ⊎ (device_count sample_ctx < 32)
      × ((add_device sample_ctx 7 [] 80 101).0 ≡ true)
      × (lookup_fd 7 (add_device sample_ctx 7 [] 80 101).1.devices ≡ some (new_device 7 [] 80 101))
add_device_refines_example =
    add_device_refines sample_ctx 7 [] 80 101 7 sample_ctx-IsValid (omega arith)

remove_update_refine_example :
    (lookup_fd 6 (remove_device sample_ctx 5).devices ≡ lookup_fd 6 sample_ctx.devices)
    × (lookup_fd 6 (update_device_activity sample_ctx 5 120).devices
        ≡ lookup_fd 6 sample_ctx.devices)
remove_update_refine_example = remove_update_refine sample_ctx 5 120 6 sample_ctx-IsValid

find_sensor : find_device_by_fd sample_ctx 5 ≡ some 0
unfolding find_device_by_fd
find_sensor = refl

find_lamp : find_device_by_fd sample_ctx 6 ≡ some 1
unfolding find_device_by_fd
find_lamp = refl

abbrev three_ctx : GatewayCtx
three_ctx = record sample_ctx { devices = sensor ∷ lamp ∷ new_device 8 [] 4002 100 ∷ [] }

abbrev collect : List ℕ → ProtoMessage → Option (List ℕ)
collect seen m = some (m.seq ∷ seen)

abbrev ping_item : Item
ping_item = record { noise = 0x55 ∷ []; header = ping_frame; payload = [] }

abbrev register_item : Item
register_item = record { noise = []; header = register_frame; payload = st1 }

-- The peer has the bytes there one by one.
abbrev one_each : List ℕ
one_each =
    1 ∷ 1 ∷ 1 ∷ 1 ∷ 1 ∷ 1 ∷ 1 ∷ 1 ∷ 1 ∷ 1 ∷ 1 ∷ 1 ∷ 1 ∷ 1 ∷ 1 ∷ 1 ∷ 1 ∷ 1 ∷ 1 ∷ 1 ∷ 1 ∷ 1 ∷ 1 ∷ 1
    ∷ []

receive_all-stream_example :
    receive_all collect [] [] (0x55 ∷ wire ping_frame [] ++ wire register_frame st1) one_each
    ≡ some (258 ∷ 7 ∷ [], [], [])
unfolding wire header_bytes checksum_from deliver
receive_all-stream_example =
    receive_all-stream collect [] (ping_item ∷ register_item ∷ []) one_each
      (
        record {
          quiet = omega arith;
          magic1 = refl;
          magic2 = refl;
          sized = refl;
          small = omega arith;
        },
        (
          record { quiet = tt; magic1 = refl; magic2 = refl; sized = refl; small = omega arith },
          tt,
        ),
      )
      (omega arith) (omega arith)

on_message_replies_example :
    on_message sample_env 5 120 sample_ctx (message ping_frame [])
    ≡ some (
        emit
          (update_device_activity sample_ctx 5 120)
          (send 5 (sent_bytes cmd_pong flag_heartbeat 7 none 0) ∷ []))
unfolding find_device_by_fd
on_message_replies_example =
    on_message_replies sample_env 5 120 sample_ctx (message ping_frame []) sample_buffer
      sample_frame (inl refl)

oversized_frame_faults_example :
    let h = sent_header cmd_sensor_data 0 1 513 in
    (length (wire h (zeros 513)) < recv_buf_size)
    × (worker_step sample_env 5
          (looping (register_handlers sample_ctx) [])
          (received 120 (wire h (zeros 513)))
        ≡ faulted)
unfolding find_device_by_fd register_handlers find_handler
oversized_frame_faults_example =
    let l = length-zeros 513 in
    oversized_frame_faults sample_env 5 120 (register_handlers sample_ctx)
      (sent_header cmd_sensor_data 0 1 513) (zeros 513) refl refl refl (sym l) (omega (arith, l))
      (omega (arith, l)) refl refl (λ e. cc)

worker_registers_example :
    (c' : GatewayCtx) × (worker_step sample_env 5
        (looping (register_handlers sample_ctx) [])
        (received 120 (wire register_frame st1))
      ≡ looping c' [])
    × (lookup_fd 5 c'.devices
        ≡ some (record sensor { dev_id = st1; dev_type = 0x01; last_active_time = 120 }))
    × (c'.trace
        ≡ send 5 (sent_bytes cmd_stm32_register flag_response 258 (some (0x00 ∷ 0x01 ∷ [])) 2) ∷ [])
unfolding lookup_fd c_string
worker_registers_example =
    worker_registers sample_env 5 120 sample_ctx register_frame st1 sensor 5 sample_buffer
      sample_frame refl refl refl refl refl (omega arith) (omega arith) refl

-- A client connects while the worker of another ends: the new record is the last or the second.
call_comm_example :
    view (call (removed 5) (call (added 9 [] 80 130) sample_ctx))
    ≡ view (call (added 9 [] 80 130) (call (removed 5) sample_ctx))
call_comm_example =
    call_comm (added 9 [] 80 130) (removed 5) sample_ctx sample_ctx-IsValid (omega arith) tt
      (omega arith) (omega arith)
