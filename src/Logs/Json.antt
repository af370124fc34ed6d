-- ===== src/Logs/Json.antt =====
-- src/log_json.c: the log of events, one JSON object per line. `json_mutex` and `flock` have no
-- result that the program looks at.
pub mod Calls
pub mod Whole
use linux_file_manager.Prelude.{
  Bool, List, Option, [], decimal, false, if◌then◌else◌, leb, length, none, not, some, take, text,
  true, ℕ, ◌++◌, ◌==◌, ◌∷◌,
}
use linux_file_manager.Paths.{get_app_root, path_get_dir, path_mkdir_recursive}
use linux_file_manager.Os.{Os, Sys, create_append, done, failed, file_system}
use linux_file_manager.Shell.{Shell, log_error, log_info}

-- `json_fd` is `none` for -1.
pub record JsonLog : Type 0 where
  pub json_fd : Option ℕ
  pub json_log_path : List ℕ
  pub json_initialized : Bool

-- The static variables before the first call.
abbrev pub no_json : JsonLog
no_json = record { json_fd = none; json_log_path = []; json_initialized = false }

-- An argument of `log_event_json`, with NULL as `none`.
pub or_empty : Option (List ℕ) → List ℕ
or_empty none = []
or_empty (some s) = s

pub json_line : List ℕ → List ℕ → List ℕ → ℕ → List ℕ → List ℕ
json_line time_str event ip fd detail =
    text "{\"ts\":\""
    ++ (time_str
        ++ (text "\",\"event\":\""
            ++ (event
                ++ (text "\",\"ip\":\""
                    ++ (ip
                        ++ (text "\",\"fd\":"
                            ++ (decimal fd
                                ++ (text ",\"detail\":\"" ++ (detail ++ text "\"}\n")))))))))

-- `"%s"` of a path that starts with '/', else `"%s/%s"` behind the root.
pub rooted : List ℕ → List ℕ → List ℕ
rooted root [] = root ++ b'/' ∷ []
rooted root (b ∷ path) = if b == b'/' then b ∷ path else root ++ b'/' ∷ b ∷ path

pub path_source : List ℕ → List ℕ
path_source [] = text "logs/events.json.log"
path_source (b ∷ path) = b ∷ path

module _ {W : Type 0} (os : Os W) where
  pub json_opened : Shell W → JsonLog → Sys ℕ × W → Shell W × JsonLog
  json_opened sh json (failed e, w) = (
    log_error (record sh { world = w; errno = e }) "JSON log open failed",
    record json { json_fd = none },
  )
  json_opened sh json (done fd, w) = (
    log_info (record sh { world = w }) "JSON log system init",
    record json { json_fd = some fd; json_initialized = true },
  )

  -- What follows the two paths.
  pub json_open : Shell W → JsonLog → List ℕ → Shell W × JsonLog
  unfolding json_opened
  json_open sh json dir =
      let (w, e) = (path_mkdir_recursive (file_system os) (sh.world, sh.errno) dir).1 in
      json_opened (record sh { errno = e }) json (os.open_file w json.json_log_path create_append)

  -- `PATH_MAX` is 4096. The path is cut to its buffer before its length is tested.
  pub json_paths : Shell W → JsonLog → List ℕ → List ℕ → Option (List ℕ) → Shell W × JsonLog
  unfolding json_open rooted
  json_paths sh json root source none = (sh, json)
  json_paths sh json root source (some dir) =
      let json' = record json { json_log_path = take 4095 (rooted root source) } in
      if leb 4096 (length (rooted root source))
      then (log_error sh "JSON log path too long", json')
      else if leb 4096 (length (rooted root dir))
      then (log_error sh "JSON log dir path too long", json')
      else json_open sh json' (rooted root dir)

  -- What follows `get_app_root`.
  pub json_rooted : Shell W → JsonLog → List ℕ → Option (List ℕ) → Shell W × JsonLog
  unfolding json_paths
  json_rooted sh json source none = (sh, json)
  json_rooted sh json source (some root) =
      json_paths sh json root source (path_get_dir (some source) 4096)

  -- `json_path` is that of the configuration.
  pub log_json_init : Shell W → JsonLog → List ℕ → Shell W × JsonLog
  unfolding json_rooted path_source
  log_json_init sh json json_path =
      if json.json_initialized
      then (sh, json)
      else json_rooted sh json (path_source json_path) (get_app_root (os.read_link sh.world) 4096)

  pub json_write : W → Option ℕ → List ℕ → W
  json_write w none line = w
  json_write w (some fd) line = (os.write_file w fd line).1

  -- The line is written whole when it fits in `buffer[512]`, and else not at all.
  pub log_event_json :
      W → JsonLog → List ℕ → Option (List ℕ) → Option (List ℕ) → ℕ → Option (List ℕ) → W
  unfolding json_write json_line or_empty
  log_event_json w json time_str event ip fd detail =
      let line = json_line time_str (or_empty event) (or_empty ip) fd (or_empty detail) in
      if not json.json_initialized
      then w
      else if leb 512 (length line)
      then w
      else json_write w json.json_fd line

  pub close_fd : W → Option ℕ → W
  close_fd w none = w
  close_fd w (some fd) = os.close_file w fd

  pub log_json_close : Shell W → JsonLog → Shell W × JsonLog
  unfolding close_fd
  log_json_close sh json = if not json.json_initialized then (sh, json) else (
    record (log_info sh "JSON log system close") { world = close_fd sh.world json.json_fd },
    record json { json_fd = none; json_initialized = false },
  )
