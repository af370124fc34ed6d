-- ===== src/Lib.antt =====
-- A file manager with a gateway server: a menu runs commands on files and directories, shows the log and
-- starts the server. There devices connect over TCP and speak a protocol of binary frames; a thread pool
-- runs one worker per connection; a heartbeat thread drops silent devices; a console stops the server.
--
-- Parts, and the files that model them:
--   main.c: Main, the parts in their order, from Config and Gpio over Logs to Menu and back.
--   src/protocol.c, include/protocol.h: Protocol. Bytes are numbers below 256, a buffer is a list of
--     them; `header_bytes` and `read_header` are the packed header in little-endian order, and
--     `proto_build_frame` and `proto_parse_frame` keep their names. Uninitialised locals are arguments.
--   src/gateway.c, include/gateway.h: Gateway, with the device table as the list of the array's first
--     `device_count` records, a device pointer as an index, and the calls on sockets in a trace.
--     Gateway/Callbacks has the callbacks of src/menu.c, Gateway/Worker `client_worker`, which uses
--     Protocol to split the stream and Callbacks to answer, Gateway/Heartbeat `heartbeat_thread_func`,
--     Gateway/Lifecycle `gateway_init` to `gateway_cleanup`, Gateway/Console the commands of
--     `interactive_thread_func` and what they print, Gateway/Console/Prompt its loop over typed bytes.
--     Gateway/Accept has `accept_thread_func`. Gateway/Threads has these threads interleaved, as a
--     relation: a step is a critical section of `devices_mutex`, or what a thread does between two. Its
--     state has the descriptors that the kernel has open; Threads/Stopping is the state behind
--     `gateway_stop`. A worker starts at any time behind its `threadPoolAdd`, or never. Gateway/Heartbeat/Steps cuts the sweep into such steps.
--   src/thread_pool.c, include/thread_pool.h: ThreadPool, one function per critical section, and
--     ThreadPool/System, the threads as a relation of interleaved steps.
--   src/config.c, include/config.h: Config, `config_handler` and `config_load`.
--   src/menu.c: Server, `gateway_server_menu`: the pool that it makes from Config with ThreadPool, and
--     the run of Gateway on it with the prompt, with what the calls give in `ServerCalls`; Menu,
--     `menu_start`: a turn of its loop, one function per command over Shell and Terminal, with what it
--     prints in Menu/Messages. The server, the view of the log and the log's line at the exit are fields
--     of `Setting`, which Main fills from Server and Logs.
--   src/common.c: Terminal, the input as the bytes still to come.
--   src/gpio.c, include/gpio.h: Gpio, the pin table and the writes to and reads of the sysfs files.
--   src/path_manager.c: Paths, `get_app_root`, `path_join`, `path_get_dir`, `path_mkdir_recursive`.
--   src/file_manager.c, src/directory.c: Shell, the commands over the system, `errno` and the calls of
--     the log; Shell/Copy has `fm_copy` as `copy_file`, Shell/Directories src/directory.c. Files is
--     `fm_copy` over lists of what its calls return.
--   src/log.c, src/log_json.c: Logs, and Logs/Json as the build with ENABLE_JSON_LOG has it.
--   The removal loops of src/gateway.c and src/gpio.c, index by index: Slots.
--   Os has the calls of the operating system that Shell, Logs and Menu make, as a record of functions over
--     a state of the system; Shell/Posix the laws that some theorems ask of them.
--   Prelude has the library names and the lemmas on lists, bytes and tests that the parts share.
-- Each part has its proofs in modules below it, named for what they prove, and its examples in Tests
-- or Scenarios.
--
-- Numbers: `uint16_t` wraps at 65536 where the code increments one; `int` counters and times are
-- unbounded. A memory write outside its buffer has no result (`none`, `faulted`).
-- A write of the gateway or to the sysfs files that does not fail is whole. Pin numbers are not negative.
-- Fuel: the worker's loop takes at least one byte per turn, so the length of the buffer is enough;
-- no theorem on it has the fuel as a hypothesis.
-- `fm_copy` and `log_view` take at least one byte of the file per turn, and the prompt one of the input,
-- so one more than the length is enough.
--
-- Arguments of the model, since they are not in the repository: what `send`, `recv`, `select`,
-- `socket`, `bind`, `listen`, `malloc`, `pthread_create` and `time` return, `atoi`, `ini_parse`,
-- `access`, `mkdir`, `open`, `read`, `write`, and the sysfs files. What the other threads do while the
-- prompt waits for a line is the argument `meanwhile`; Gateway/Threads/Others says what they leave alone.
--
-- Not modelled: what the gateway prints but for its prompt, what the GPIO prints, their calls of the
-- logs, delays and signals; `LOG_JSON_INIT` of `gateway_init`; the signals and broadcasts of the pool's
-- conditions (a thread that waits may wake at any time); a `pthread_create` of `Thread_init` that
-- fails; that the commands' calls of the log change its file (they are listed in `logged`); what the
-- server writes to the JSON log while it runs (`serve_world`); overflow of the number that the menu
-- scans; that `log_write` changes `errno` when it fails (the commands keep the `errno` of their own
-- call); and src/third_reporty/inih, a copy of another project.
pub mod Prelude
pub mod Config
pub mod Files
pub mod Gateway
pub mod Gpio
pub mod Logs
pub mod Main
pub mod Menu
pub mod Os
pub mod Paths
pub mod Protocol
pub mod Server
pub mod Shell
pub mod Slots
pub mod Terminal
pub mod ThreadPool
