-- ===== src/Gateway/Console/Status.antt =====
-- What `gateway_print_status` and the commands of `interactive_thread_func` in src/gateway.c print.
use linux_file_manager.Prelude.{
  List, Option, String, [], decimal, if◌then◌else◌, length, none, some, suc, text, zero, ℕ, ◌++◌,
  ◌-◌, ◌==◌, ◌||◌, ◌∷◌,
}
use linux_file_manager.Terminal.{Output, printed, printed_bytes, printed_number}
use linux_file_manager.ThreadPool.{Threadpool, thread_pool_busy_num, thread_pool_live_num}
use linux_file_manager.Gateway.{
  GatewayCtx, GatewayDevice, dev_type_esp8266, dev_type_stm32, device_count, gateway_max_clients,
}

spaces : ℕ → List ℕ
spaces zero = []
spaces (suc n) = b' ' ∷ spaces n

-- `%-5d`, `%-16s`: at least so many bytes, with blanks behind.
pub padded : ℕ → List ℕ → List ℕ
unfolding spaces
padded width bytes = bytes ++ spaces (width - length bytes)

pub type_name : ℕ → String
type_name dev_type =
    if dev_type == dev_type_stm32
    then "STM32"
    else if dev_type == dev_type_esp8266
    then "ESP8266"
    else "UNKNOWN"

-- The lines of the devices from the `i`-th on.
pub device_lines : ℕ → List GatewayDevice → List Output
unfolding padded type_name
device_lines i [] = []
device_lines i (d ∷ ds) =
    printed "║  ["
    ∷ printed_number (suc i)
    ∷ printed "] "
    ∷ printed_bytes d.ip
    ∷ printed ":"
    ∷ printed_bytes (padded 5 (decimal d.port))
    ∷ printed " "
    ∷ printed_bytes (padded 8 (text (type_name d.dev_type)))
    ∷ printed " ID="
    ∷ printed_bytes (padded 16 d.dev_id)
    ∷ printed " ║\n"
    ∷ device_lines (suc i) ds

pub table_lines : List GatewayDevice → List Output
unfolding device_lines
table_lines [] = printed "║  (No devices connected)                            ║\n" ∷ []
table_lines (d ∷ ds) = device_lines 0 (d ∷ ds)

pub gateway_print_status : GatewayCtx → List Output
unfolding table_lines padded
gateway_print_status c =
    printed "\n╔═══════════════════════════════════════════════════════╗\n"
    ∷ printed "║              GATEWAY DEVICE STATUS                   ║\n"
    ∷ printed "╠═══════════════════════════════════════════════════════╣\n"
    ∷ printed "║  Port: "
    ∷ printed_bytes (padded 4 (decimal c.port))
    ∷ printed "                                      ║\n"
    ∷ printed "║  Devices: "
    ∷ printed_number (device_count c)
    ∷ printed "/"
    ∷ printed_number gateway_max_clients
    ∷ printed "                                  ║\n"
    ∷ printed "╠═══════════════════════════════════════════════════════╣\n"
    ∷ (table_lines c.devices
        ++ printed "╚═══════════════════════════════════════════════════════╝\n\n" ∷ [])

-- `pool_busy` and `pool_live`: 0 where there is no pool.
pub pool_numbers : Option Threadpool → ℕ × ℕ
pool_numbers none = (0, 0)
pool_numbers (some pool) = (thread_pool_busy_num pool, thread_pool_live_num pool)

pub server_lines : GatewayCtx → ℕ × ℕ → List Output
server_lines c (pool_busy, pool_live) =
    printed "\n===========================================\n"
    ∷ printed "        Gateway Server Status\n"
    ∷ printed "===========================================\n"
    ∷ printed "  Status      : RUNNING\n"
    ∷ printed "  Port        : "
    ∷ printed_number c.port
    ∷ printed "\n"
    ∷ printed "  Thread Pool : Busy="
    ∷ printed_number pool_busy
    ∷ printed ", Live="
    ∷ printed_number pool_live
    ∷ printed "\n"
    ∷ printed "===========================================\n\n"
    ∷ []

pub help_lines : List Output
help_lines =
    printed "\n===========================================\n"
    ∷ printed "        Gateway Server Commands\n"
    ∷ printed "===========================================\n"
    ∷ printed "  q  - Quit gateway server and return to menu\n"
    ∷ printed "  s  - Show current server status\n"
    ∷ printed "  h  - Show this help message\n"
    ∷ printed "  l  - List all connected devices\n"
    ∷ printed "  r  - Send restart LED command to all devices\n"
    ∷ printed "===========================================\n\n"
    ∷ []

pub restart_lines : List GatewayDevice → List Output
restart_lines [] = []
restart_lines (d ∷ ds) =
    printed "  Sent to "
    ∷ printed_bytes d.ip
    ∷ printed ":"
    ∷ printed_number d.port
    ∷ printed "\n"
    ∷ restart_lines ds

-- The `switch` over the first byte of a line that is not empty.
pub command_lines : Option Threadpool → GatewayCtx → List ℕ → ℕ → List Output
unfolding gateway_print_status pool_numbers server_lines help_lines restart_lines
command_lines pool c line k =
    if k == b'q' || k == b'Q'
    then printed "[GW] Stopping gateway server...\n" ∷ []
    else if k == b's' || k == b'S'
    then server_lines c (pool_numbers pool) ++ gateway_print_status c
    else if k == b'h' || k == b'H'
    then help_lines
    else if k == b'l' || k == b'L'
    then gateway_print_status c
    else if k == b'r' || k == b'R'
    then printed "[GW] Sending restart LED command to all devices...\n" ∷ restart_lines c.devices
    else printed "[GW] Unknown command: '"
      ∷ printed_bytes line
      ∷ printed "'. Type 'h' for help.\n"
      ∷ []

-- What a line prints, as the string that is left of it before the newline.
unfoldable pub line_lines : Option Threadpool → GatewayCtx → List ℕ → List Output
unfolding command_lines
line_lines pool c [] = []
line_lines pool c (k ∷ line) = command_lines pool c (k ∷ line) k
