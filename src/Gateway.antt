-- ===== src/Gateway.antt =====
-- include/gateway.h and src/gateway.c: the gateway's context, its device table, its handler list,
-- and the sending of frames. Each function here is one critical section of its mutex, or the part of a
-- function between two of them.
pub mod Kept
pub mod Registry
pub mod Tests
pub mod Pointers
pub mod Sending
pub mod Callbacks
pub mod Worker
pub mod Heartbeat
pub mod Lifecycle
pub mod Console
pub mod Accept
pub mod Threads
pub mod Scenarios
use mathlib.Core.Option
use linux_file_manager.Prelude.{
  Bool, List, Option, [], false, if◌then◌else◌, leb, length, ltb, memcpy, none, set, some, suc,
  take, true, ℕ, ◌++◌, ◌-◌, ◌==◌, ◌∷◌,
}
use linux_file_manager.Protocol.{ProtoFrame, header_bytes, proto_build_frame, proto_header_size}

abbrev pub gateway_max_clients : ℕ
gateway_max_clients = 32

abbrev pub gateway_heartbeat_timeout_s : ℕ
gateway_heartbeat_timeout_s = 30

abbrev pub gateway_heartbeat_interval_s : ℕ
gateway_heartbeat_interval_s = 10

abbrev pub cmd_ping : ℕ
cmd_ping = 0x01

abbrev pub cmd_pong : ℕ
cmd_pong = 0x01

abbrev pub cmd_stm32_register : ℕ
cmd_stm32_register = 0x10

abbrev pub cmd_sensor_data : ℕ
cmd_sensor_data = 0x11

abbrev pub cmd_gpio_control : ℕ
cmd_gpio_control = 0x20

abbrev pub cmd_error : ℕ
cmd_error = 0xf0

abbrev pub flag_request : ℕ
flag_request = 0x00

abbrev pub flag_response : ℕ
flag_response = 0x01

abbrev pub flag_heartbeat : ℕ
flag_heartbeat = 0x02

abbrev pub dev_type_stm32 : ℕ
dev_type_stm32 = 0x01

abbrev pub dev_type_esp8266 : ℕ
dev_type_esp8266 = 0x02

abbrev pub dev_type_unknown : ℕ
dev_type_unknown = 0xff

-- `ip` and `dev_id` are the bytes of the strings, before the terminating NUL.
pub record GatewayDevice : Type 0 where
  pub fd : ℕ
  pub ip : List ℕ
  pub port : ℕ
  pub dev_type : ℕ
  pub dev_id : List ℕ
  pub last_seq : ℕ
  pub heartbeat_fail : ℕ
  pub last_active_time : ℕ

-- The callbacks that src/menu.c registers; each stands for its function pointer.
pub data Handler : Type 0 where
  sensor_data register gpio_control : Handler

pub record HandlerNode : Type 0 where
  pub cmd : ℕ
  pub handler : Handler

-- What the gateway does to a socket.
pub data Effect : Type 0 where
  send : ℕ → List ℕ → Effect
  shutdown : ℕ → Effect
  close : ℕ → Effect

-- `devices` is the array up to `device_count`; `listen_fd` is `none` for -1; `trace` lists what
-- was done to the sockets, oldest first. The thread fields say whether the identifier is set.
pub record GatewayCtx : Type 0 where
  pub port : ℕ
  pub listen_fd : Option ℕ
  pub running : Bool
  pub stopped : Bool
  pub devices : List GatewayDevice
  pub handlers : List HandlerNode
  pub pool : Bool
  pub accept_thread : Bool
  pub heartbeat_thread : Bool
  pub trace : List Effect

abbrev pub device_count : GatewayCtx → ℕ
device_count c = length c.devices

abbrev pub emit : GatewayCtx → List Effect → GatewayCtx
emit c es = record c { trace = c.trace ++ es }

-- `dev->ip` holds 32 bytes: `strncpy(dev->ip, ip, sizeof(dev->ip) - 1)`.
abbrev pub new_device : ℕ → List ℕ → ℕ → ℕ → GatewayDevice
new_device fd ip port now = record {
  fd = fd;
  ip = take 31 ip;
  port = port;
  dev_type = dev_type_unknown;
  dev_id = [];
  last_seq = 0;
  heartbeat_fail = 0;
  last_active_time = now;
}

-- The result is 0 (`true`) or -1 (`false`).
pub add_device : GatewayCtx → ℕ → List ℕ → ℕ → ℕ → Bool × GatewayCtx
add_device c fd ip port now =
    if leb gateway_max_clients (device_count c)
    then (false, c)
    else (true, record c { devices = c.devices ++ new_device fd ip port now ∷ [] })

-- The first device with the descriptor goes, and the later ones move up by one.
unfoldable pub remove_fd : ℕ → List GatewayDevice → List GatewayDevice
remove_fd fd [] = []
remove_fd fd (d ∷ ds) = if d.fd == fd then ds else d ∷ remove_fd fd ds

unfoldable pub remove_device : GatewayCtx → ℕ → GatewayCtx
unfolding remove_fd
remove_device c fd = record c { devices = remove_fd fd c.devices }

pub touch_fd : ℕ → ℕ → List GatewayDevice → List GatewayDevice
touch_fd fd now [] = []
touch_fd fd now (d ∷ ds) =
    if d.fd == fd then record d { last_active_time = now } ∷ ds else d ∷ touch_fd fd now ds

pub update_device_activity : GatewayCtx → ℕ → ℕ → GatewayCtx
unfolding touch_fd
update_device_activity c fd now = record c { devices = touch_fd fd now c.devices }

-- The index at which the loop stops: the pointer that is returned points there.
pub find_fd : ℕ → List GatewayDevice → Option ℕ
find_fd fd [] = none
find_fd fd (d ∷ ds) = if d.fd == fd then some 0 else Option.map suc (find_fd fd ds)

pub find_device_by_fd : GatewayCtx → ℕ → Option ℕ
unfolding find_fd
find_device_by_fd c fd = find_fd fd c.devices

gateway_find_device : GatewayCtx → ℕ → Option ℕ
unfolding find_device_by_fd
gateway_find_device c fd = find_device_by_fd c fd

-- A NULL handler does not occur: the callers pass functions.
pub gateway_register_handler : GatewayCtx → ℕ → Handler → GatewayCtx
gateway_register_handler c cmd h = record c {
  handlers = record { cmd = cmd; handler = h } ∷ c.handlers;
}

pub find_handler_node : ℕ → List HandlerNode → Option HandlerNode
find_handler_node cmd [] = none
find_handler_node cmd (n ∷ ns) = if n.cmd == cmd then some n else find_handler_node cmd ns

pub find_handler : GatewayCtx → ℕ → Option HandlerNode
unfolding find_handler_node
find_handler c cmd = find_handler_node cmd c.handlers

-- What is not in the source: the contents of uninitialised locals of `send_frame_raw` and
-- `proto_build_frame`, and what `send` returns (`none` for -1).
pub record Env : Type 0 where
  pub stack_frame : ProtoFrame
  pub stack_temp : List ℕ
  pub stack_buf : List ℕ
  pub send_result : ℕ → List ℕ → Option ℕ

-- The first `frame_len` bytes of `buf`.
pub send_buffer : List ℕ → ProtoFrame → ℕ → List ℕ
send_buffer buf f frame_len = take frame_len (
    set
      (if ltb 0 f.header.payload_len
        then memcpy (memcpy buf 0 (header_bytes f.header) proto_header_size) proto_header_size
            f.payload f.header.payload_len
        else memcpy buf 0 (header_bytes f.header) proto_header_size)
      (frame_len - 1) f.checksum)

module _ (env : Env) where
  pub send_built : GatewayCtx → ℕ → Option ProtoFrame → Option ℕ × GatewayCtx
  unfolding send_buffer
  send_built c fd none = (none, c)
  send_built c fd (some f) =
      let bytes = send_buffer env.stack_buf f f.total_len in
      (env.send_result fd bytes, emit c (send fd bytes ∷ []))

  -- The result is `none` for -1.
  pub send_frame_raw : GatewayCtx → ℕ → ℕ → ℕ → ℕ → Option (List ℕ) → ℕ → Option ℕ × GatewayCtx
  unfolding send_built
  send_frame_raw c fd cmd flags seq payload payload_len =
      send_built c fd
        (proto_build_frame env.stack_temp (some env.stack_frame) cmd flags seq payload payload_len)

  -- The context is not NULL and the descriptor not negative where this is called.
  pub gateway_send_response :
      GatewayCtx → ℕ → ℕ → ℕ → ℕ → Option (List ℕ) → ℕ → Option ℕ × GatewayCtx
  unfolding send_frame_raw
  gateway_send_response c fd cmd flags seq payload payload_len =
      send_frame_raw c fd cmd flags seq payload payload_len

  pub gateway_send_request : GatewayCtx → ℕ → ℕ → ℕ → Option (List ℕ) → ℕ → Option ℕ × GatewayCtx
  unfolding gateway_send_response
  gateway_send_request c fd cmd seq payload payload_len =
      gateway_send_response c fd cmd flag_request seq payload payload_len

pub gateway_get_devices : GatewayCtx → List GatewayDevice × ℕ
gateway_get_devices c = (c.devices, device_count c)
