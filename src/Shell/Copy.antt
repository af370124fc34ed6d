-- ===== src/Shell/Copy.antt =====
-- `fm_copy` of src/file_manager.c with the calls that it makes.
pub mod Whole
use linux_file_manager.Prelude.{
  Bool, List, Option, [], false, if◌then◌else◌, leb, length, none, not, some, suc, true, zero, ℕ,
  ◌==◌, ◌||◌, ◌∷◌,
}
use linux_file_manager.Paths.{cut_last}
use linux_file_manager.Os.{
  Os, Sys, create_truncate, done, eacces, enoent, failed, file_ok, read_ok, read_only, succeeded,
  write_ok,
}
use linux_file_manager.Shell.{Shell, log_error, log_info}

-- It returns 0 (`true`) or -1, writes behind `dir_path[512]`, or is still in its loop when the fuel
-- ends.
pub data CopyOutcome (W : Type 0) : Type 0 where
  returned : Bool → Shell W → CopyOutcome W
  overflowed still_copying : CopyOutcome W

module _ {W : Type 0} (os : Os W) where
  close_both : W → ℕ → ℕ → W
  close_both w src dst = os.close_file (os.close_file w src) dst

  pub copy_end : Shell W → W → ℕ → ℕ → CopyOutcome W
  unfolding close_both
  copy_end sh w src dst =
      returned true (log_info (record sh { world = close_both w src dst }) "copy file success")

  pub copy_stop : Shell W → W → ℕ → ℕ → CopyOutcome W
  unfolding close_both
  copy_stop sh w src dst =
      returned false (log_error (record sh { world = close_both w src dst }) "write copy failed")

  -- `again` is the loop from its next test on.
  pub copy_written : (Shell W → CopyOutcome W) → Shell W → ℕ → ℕ → ℕ → Sys ℕ × W → CopyOutcome W
  unfolding copy_stop
  copy_written again sh src dst len (failed e, w) = copy_stop (record sh { errno = e }) w src dst
  copy_written again sh src dst len (done n, w) =
      if n == len then again (record sh { world = w }) else copy_stop sh w src dst

  pub copy_read : (Shell W → CopyOutcome W) → Shell W → ℕ → ℕ → Sys (List ℕ) × W → CopyOutcome W
  unfolding copy_end copy_written
  copy_read again sh src dst (failed e, w) = copy_end (record sh { errno = e }) w src dst
  copy_read again sh src dst (done [], w) = copy_end sh w src dst
  copy_read again sh src dst (done (b ∷ bytes), w) =
      copy_written again sh src dst (length (b ∷ bytes)) (os.write_file w dst (b ∷ bytes))

  -- `while ((len = read(fd_src, buffer, sizeof(buffer))) > 0)`
  pub copy_fds : ℕ → Shell W → ℕ → ℕ → CopyOutcome W
  unfolding copy_read
  copy_fds zero sh src dst = still_copying
  copy_fds (suc fuel) sh src dst =
      copy_read (λ sh'. copy_fds fuel sh' src dst) sh src dst (os.read_file sh.world src 4096)

  pub target_opened : ℕ → Shell W → ℕ → Sys ℕ × W → CopyOutcome W
  unfolding copy_fds
  target_opened fuel sh src (failed e, w) =
      returned false (
        log_error (record sh { world = os.close_file w src; errno = e })
          "create destination failed")
  target_opened fuel sh src (done dst, w) = copy_fds fuel (record sh { world = w }) src dst

  pub open_target : ℕ → Shell W → ℕ → List ℕ → CopyOutcome W
  unfolding target_opened
  open_target fuel sh src path =
      target_opened fuel sh src (os.open_file sh.world path create_truncate)

  -- The directory of the destination, in `dir_path[512]`; an empty one is not tested.
  pub check_dir : ℕ → Shell W → ℕ → List ℕ → Option (List ℕ) → CopyOutcome W
  unfolding open_target
  check_dir fuel sh src path none = open_target fuel sh src path
  check_dir fuel sh src path (some dir) =
      if leb 512 (length dir)
      then overflowed
      else if length dir == 0 || succeeded (os.access_file sh.world dir write_ok)
      then open_target fuel sh src path
      else returned false (
          log_error (record sh { world = os.close_file sh.world src; errno = eacces })
            "Destination directory not writable")

  pub source_opened : ℕ → Shell W → List ℕ → Sys ℕ × W → CopyOutcome W
  unfolding check_dir cut_last
  source_opened fuel sh path (failed e, w) =
      returned false (log_error (record sh { world = w; errno = e }) "open source failed")
  source_opened fuel sh path (done src, w) =
      check_dir fuel (record sh { world = w }) src path (cut_last path)

  pub copy_file : ℕ → Shell W → List ℕ → List ℕ → CopyOutcome W
  unfolding source_opened
  copy_file fuel sh from to =
      let opened = source_opened fuel sh to (os.open_file sh.world from read_only) in
      if not (succeeded (os.access_file sh.world from file_ok))
      then returned false (log_error (record sh { errno = enoent }) "Source file does not exist")
      else if not (succeeded (os.access_file sh.world from read_ok))
      then returned false (log_error (record sh { errno = eacces }) "Source file not readable")
      else opened
