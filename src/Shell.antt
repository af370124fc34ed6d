-- ===== src/Shell.antt =====
-- src/file_manager.c and src/directory.c: the commands over files and directories. A command gets the
-- state of the system, `errno` and the log, and returns them with its result.
pub mod Directories
pub mod Posix
pub mod Contents
pub mod Copy
pub mod Tests
use linux_file_manager.Prelude.{
  Bool, List, Option, String, [], false, length, memcpy, none, set, some, true, ℕ, ◌++◌, ◌-◌, ◌∷◌,
}
use linux_file_manager.Os.{
  Errno, Os, Stat, Sys, create_write, done, failed, read_only, write_append,
}

pub data Level : Type 0 where
  info error : Level

-- `logged` lists the calls of `log_write`, oldest first; such a call leaves `errno` as it is.
pub record Shell (W : Type 0) : Type 0 where
  pub world : W
  pub errno : Errno
  pub logged : List (Level × String)

module _ {W : Type 0} where
  abbrev pub log_info : Shell W → String → Shell W
  log_info sh msg = record sh { logged = sh.logged ++ (info, msg) ∷ [] }

  abbrev pub log_error : Shell W → String → Shell W
  log_error sh msg = record sh { logged = sh.logged ++ (error, msg) ∷ [] }

  -- What a call leaves behind: the system's state, and `errno` if it fails.
  abbrev pub after : {A : Type 0} → Shell W → Sys A → W → Shell W
  after sh (done a) w = record sh { world = w }
  after sh (failed e) w = record sh { world = w; errno = e }

module _ {W : Type 0} (os : Os W) where
  -- Results are 0 (`true`) or -1 (`false`).
  create_opened : Shell W → Sys ℕ × W → Bool × Shell W
  create_opened sh (failed e, w) =
      (false, log_error (after {A = ℕ} sh (failed e) w) "creat file failed")
  create_opened sh (done fd, w) =
      (true, log_info (record sh { world = os.close_file w fd }) "create file success")

  pub fm_create : Shell W → List ℕ → Bool × Shell W
  unfolding create_opened
  fm_create sh path = create_opened sh (os.open_file sh.world path create_write)

  pub unlinked : Shell W → Sys (Unit {0}) × W → Bool × Shell W
  unlinked sh (failed e, w) =
      (false, log_error (after {A = ℕ} sh (failed e) w) "delete file failed")
  unlinked sh (done u, w) = (true, log_info (record sh { world = w }) "delete file success")

  pub fm_delete : Shell W → List ℕ → Bool × Shell W
  unfolding unlinked
  fm_delete sh path = unlinked sh (os.unlink sh.world path)

  -- A `write` of fewer bytes than asked for counts as a success.
  pub write_done : Shell W → ℕ → Sys ℕ × W → Bool × Shell W
  write_done sh fd (failed e, w) =
      (false, log_error (after {A = ℕ} sh (failed e) (os.close_file w fd)) "write file failed")
  write_done sh fd (done n, w) =
      (true, log_info (record sh { world = os.close_file w fd }) "write file success")

  pub write_opened : Shell W → List ℕ → Sys ℕ × W → Bool × Shell W
  unfolding write_done
  write_opened sh bytes (failed e, w) =
      (false, log_error (after {A = ℕ} sh (failed e) w) "open file failed")
  write_opened sh bytes (done fd, w) = write_done sh fd (os.write_file w fd bytes)

  pub fm_write : Shell W → List ℕ → List ℕ → Bool × Shell W
  unfolding write_opened
  fm_write sh path bytes = write_opened sh bytes (os.open_file sh.world path write_append)

  -- The result is `none` for -1, else the number of bytes; the buffer gets them and a 0 behind them.
  pub read_done : Shell W → List ℕ → ℕ → Sys (List ℕ) × W → Option ℕ × List ℕ × Shell W
  read_done sh buffer fd (failed e, w) = (
    none,
    buffer,
    log_error (after {A = ℕ} sh (failed e) (os.close_file w fd)) "read file failed",
  )
  read_done sh buffer fd (done bytes, w) = (
    some (length bytes),
    set (memcpy buffer 0 bytes (length bytes)) (length bytes) 0,
    log_info (record sh { world = os.close_file w fd }) "read file success",
  )

  pub read_opened : Shell W → List ℕ → ℕ → Sys ℕ × W → Option ℕ × List ℕ × Shell W
  unfolding read_done
  read_opened sh buffer size (failed e, w) =
      (none, buffer, log_error (after {A = ℕ} sh (failed e) w) "read file open failed")
  read_opened sh buffer size (done fd, w) = read_done sh buffer fd (os.read_file w fd (size - 1))

  pub fm_read : Shell W → List ℕ → List ℕ → ℕ → Option ℕ × List ℕ × Shell W
  unfolding read_opened
  fm_read sh path buffer size = read_opened sh buffer size (os.open_file sh.world path read_only)

  info_done : Shell W → Sys Stat → Option Stat × Shell W
  info_done sh (failed e) = (none, log_error (record sh { errno = e }) "failed file information")
  info_done sh (done st) = (some st, log_info sh "success file information")

  pub fm_info : Shell W → List ℕ → Option Stat × Shell W
  unfolding info_done
  fm_info sh path = info_done sh (os.stat_path sh.world path)
