-- ===== src/Logs.antt =====
-- src/log.c: the program's log. What `strftime`, `getpid` and `pthread_self` give is an argument; the
-- mutex and `flock` have no result that the program looks at.
pub mod Json
pub mod Reading
pub mod Session
pub mod Tests
use linux_file_manager.Prelude.{
  Bool, List, Option, [], decimal, false, none, refl, some, suc, take, text, true, zero, ℕ, ◌++◌,
  ◌∷◌, ◌≡◌,
}
use linux_file_manager.Paths.{get_app_root, path_get_dir, path_join, path_mkdir_recursive}
use linux_file_manager.Os.{Errno, Os, Sys, create_append, done, failed, file_system, read_only}
use linux_file_manager.Terminal.{up_to_zero}
use linux_file_manager.Config.{Config}

-- `log_fd` is `none` for -1. `stdout_fd` is the descriptor that descriptor 1 stands for.
pub record LogState : Type 0 where
  pub log_fd : Option ℕ
  pub real_log_path : List ℕ
  pub stdout_fd : ℕ
  pub mutex_ready : Bool

pub record Stamp : Type 0 where
  pub time_str : List ℕ
  pub pid : ℕ
  pub tid : ℕ

-- `"[%s][%s][PID:%d][TID:%lu]%s\n"`
pub whole_line : Stamp → List ℕ → List ℕ → List ℕ
whole_line st level msg =
    text "["
    ++ st.time_str
    ++ text "]["
    ++ level
    ++ text "][PID:"
    ++ decimal st.pid
    ++ text "][TID:"
    ++ decimal st.tid
    ++ text "]"
    ++ msg
    ++ b'\n' ∷ []

-- `snprintf` into `buffer[1024]`
pub log_line : Stamp → List ℕ → List ℕ → List ℕ
unfolding whole_line
log_line st level msg = take 1023 (whole_line st level msg)

-- `exit(1)`, or the log and the system as they are then.
pub data LogStart (W : Type 0) : Type 0 where
  exited : LogStart W
  started : W → LogState → LogStart W

-- What `log_view` prints; without the file it is the message of `perror`.
pub data Viewed (W : Type 0) : Type 0 where
  not_opened : Errno → W → Viewed W
  viewed : List ℕ → W → Viewed W
  still_viewing : Viewed W

module _ {W : Type 0} (os : Os W) where
  pub log_write : W → LogState → Stamp → List ℕ → List ℕ → W
  unfolding log_line
  log_write w log st level msg = elim log.log_fd [
    | none ↦ w
    | some fd ↦ (os.write_file w fd (log_line st level msg)).1
  ]

  unfoldable pub log_opened : LogState → List ℕ → Stamp → Sys ℕ × W → LogStart W
  unfolding log_write
  log_opened log path st (failed e, w) = exited
  log_opened log path st (done fd, w) =
      let log' = record log { log_fd = some fd; real_log_path = path; mutex_ready = true } in
      started (log_write w log' st (text "INFO") (text "Log system init")) log'

  -- The directories of the log file are made; whether that fails is not looked at.
  unfoldable pub log_dirs : W → Errno → List ℕ → W
  log_dirs w e path = elim (path_get_dir (some path) 512) [
    | none ↦ w
    | some dir ↦ (path_mkdir_recursive (file_system os) (w, e) dir).1.0
  ]

  -- What follows `get_app_root`.
  unfoldable pub log_rooted : W → Errno → LogState → Config → Stamp → Option (List ℕ) → LogStart W
  unfolding log_opened log_dirs
  log_rooted w e log c st none = exited
  log_rooted w e log c st (some root) =
      let path = path_join 512 root c.log_path in
      log_opened log path st (os.open_file (log_dirs w e path) path create_append)

  unfoldable pub log_init : W → Errno → LogState → Config → Stamp → LogStart W
  unfolding log_rooted
  log_init w e log c st = log_rooted w e log c st (get_app_root (os.read_link w) 512)

  -- `dup2(log_fd, STDOUT_FILENO)`
  pub log_redirect : LogState → LogState
  log_redirect log = elim log.log_fd [ none ↦ log | some fd ↦ record log { stdout_fd = fd } ]

  pub close_log : W → LogState → Stamp → Option ℕ → W × LogState
  unfolding log_write
  close_log w log st none = (w, log)
  close_log w log st (some fd) = (
    os.close_file (log_write w log st (text "INFO") (text "Log system close")) fd,
    record log { log_fd = none; mutex_ready = false },
  )

  pub log_close : W → LogState → Stamp → W × LogState
  unfolding close_log
  log_close w log st = close_log w log st log.log_fd

  pub log_close-log_fd :
      (w : W) (log : LogState) (st : Stamp) → (log_close w log st).1.log_fd ≡ none
  unfolding log_close
  log_close-log_fd w log st = go log.log_fd refl
    where
      go : (l : Option ℕ) → log.log_fd ≡ l → (close_log w log st l).1.log_fd ≡ none
      go none e = e
      go (some fd) e = refl

  -- `printf("%s", buffer)` before what the rest of the loop prints.
  pub shown_first : List ℕ → Option (List ℕ × W) → Option (List ℕ × W)
  shown_first bytes none = none
  shown_first bytes (some (more, w)) = some (up_to_zero bytes ++ more, w)

  pub view_read : (W → Option (List ℕ × W)) → Sys (List ℕ) × W → Option (List ℕ × W)
  unfolding shown_first
  view_read again (failed e, w) = some ([], w)
  view_read again (done [], w) = some ([], w)
  view_read again (done (b ∷ bytes), w) = shown_first (b ∷ bytes) (again w)

  -- `while ((bytes_read = read(fd, buffer, sizeof(buffer) - 1)) > 0)`; `none` when the fuel ends.
  pub view_fd : ℕ → W → ℕ → Option (List ℕ × W)
  unfolding view_read
  view_fd zero w fd = none
  view_fd (suc fuel) w fd = view_read (λ w'. view_fd fuel w' fd) (os.read_file w fd 511)

  pub view_end : ℕ → Option (List ℕ × W) → Viewed W
  view_end fd none = still_viewing
  view_end fd (some (bytes, w)) = viewed bytes (os.close_file w fd)

  pub view_opened : ℕ → Sys ℕ × W → Viewed W
  unfolding view_fd view_end
  view_opened fuel (failed e, w) = not_opened e w
  view_opened fuel (done fd, w) = view_end fd (view_fd fuel w fd)

  pub log_view : ℕ → W → LogState → Viewed W
  unfolding view_opened
  log_view fuel w log = view_opened fuel (os.open_file w log.real_log_path read_only)
