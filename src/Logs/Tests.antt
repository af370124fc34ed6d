-- ===== src/Logs/Tests.antt =====
-- The logs of src/log.c and src/log_json.c on a small disk.
use linux_file_manager.Prelude.{
  Bool, List, [], false, none, not, refl, some, text, true, ℕ, ◌&&◌, ◌++◌, ◌==◌, ◌∷◌,
}
use linux_file_manager.Paths.{path_join}
use linux_file_manager.Config.{Config, no_config}
use linux_file_manager.Shell.Tests.{
  Reads, Writes, disk-IsPosix, disk-ReadsSucceed, disk-WritesWhole, disk_os, sample_shell,
}
use linux_file_manager.Logs.{LogState, Stamp}
use linux_file_manager.Logs.Json.{JsonLog, json_line, no_json, or_empty}
use linux_file_manager.Logs.Json.Calls.{
  IsConsistent, close_call, event_call, init_call, json_calls, json_calls-IsConsistent,
}
use linux_file_manager.Logs.Reading.{LogCall, lines_of}
use linux_file_manager.Logs.Session.{first_call}

all_but : ℕ → List ℕ → Bool
all_but c [] = true
all_but c (b ∷ bs) = not (b == c) && all_but c bs

abbrev sample_stamp : Stamp
sample_stamp = record { time_str = text "2026-09-10 18:20:01"; pid = 41; tid = 7 }

abbrev sample_config : Config
sample_config = record no_config { log_path = text "logs/a.log" }

abbrev closed_log : LogState
closed_log = record { log_fd = none; real_log_path = []; stdout_fd = 1; mutex_ready = false }

abbrev sample_calls : List LogCall
sample_calls =
    record { stamp = sample_stamp; level = text "ERROR"; msg = text "open file failed" } ∷ []

abbrev sample_path : List ℕ
sample_path = path_join 512 (text "/app") sample_config.log_path

abbrev all_lines : List ℕ
all_lines =
    text "x"
    ++ lines_of (
        first_call disk_os Reads Writes disk-IsPosix disk-ReadsSucceed disk-WritesWhole sample_stamp
        ∷ sample_calls)

abbrev open_json : JsonLog
open_json = record { json_fd = some 4; json_log_path = text "j"; json_initialized = true }

abbrev sample_line : List ℕ
sample_line = json_line [] (or_empty (some (text "e"))) (or_empty none) 6 (or_empty none)

json_calls-IsConsistent_example :
    IsConsistent
      (json_calls disk_os
        (sample_shell, no_json)
        (init_call (text "j")
          ∷ event_call [] (some (text "e")) none 6 none
          ∷ close_call
          ∷ init_call []
          ∷ [])).1
json_calls-IsConsistent_example =
    json_calls-IsConsistent disk_os (sample_shell, no_json)
      (init_call (text "j")
        ∷ event_call [] (some (text "e")) none 6 none
        ∷ close_call
        ∷ init_call []
        ∷ [])
      refl
