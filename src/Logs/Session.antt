-- ===== src/Logs/Session.antt =====
-- src/log.c from `log_init` over calls of `log_write` to `log_view`.
use linux_file_manager.Prelude.{List, some, text, true, ℕ}
use linux_file_manager.Os.{Os}
use linux_file_manager.Config.{Config}
use linux_file_manager.Shell.Posix.{IsPosix, ReadsSucceed, WritesWhole}
use linux_file_manager.Logs.{LogState, Stamp}
use linux_file_manager.Logs.Reading.{LogCall}

module _ {W : Type 0} (os : Os W) (Reading : W → ℕ → List ℕ → Type 0)
    (Writing : W → ℕ → List ℕ → Type 0) (posix : IsPosix os Reading Writing)
    (sure : ReadsSucceed os Reading) (all_taken : WritesWhole os Writing) where
  -- The log after `log_init`.
  abbrev pub opened_log : LogState → List ℕ → ℕ → LogState
  opened_log log path fd = record log { log_fd = some fd; real_log_path = path; mutex_ready = true }

  abbrev pub first_call : Stamp → LogCall
  first_call st = record { stamp = st; level = text "INFO"; msg = text "Log system init" }
