-- ===== src/Files.antt =====
-- `fm_copy` of src/file_manager.c. What the system calls return are arguments; the log is left out.
pub mod Copying
use linux_file_manager.Prelude.{
  Bool, List, Option, [], false, if◌then◌else◌, leb, length, none, some, take, true, ℕ, ◌&&◌, ◌++◌,
  ◌==◌, ◌||◌, ◌∷◌,
}
use linux_file_manager.Paths.{cut_last}

-- One turn of the loop: what `read` into the buffer of 4096 bytes gives, bytes, 0 or -1, and for bytes
-- what the `write` of them returns, `none` for -1.
pub data CopyRound : Type 0 where
  chunk : List ℕ → Option ℕ → CopyRound
  end_of_file read_failed : CopyRound

-- Every result but the first two is given with the content of the destination: -1 after it was opened,
-- 0, and the loop not at its end after the rounds that are given.
pub data CopyResult : Type 0 where
  refused_copy stack_overflow : CopyResult
  write_failed copied unfinished : List ℕ → CopyResult

-- `while ((len = read(…)) > 0)`; a `read` that fails ends the loop as the end of the file does.
pub copy_loop : List ℕ → List CopyRound → CopyResult
copy_loop dst [] = unfinished dst
copy_loop dst (end_of_file ∷ rs) = copied dst
copy_loop dst (read_failed ∷ rs) = copied dst
copy_loop dst (chunk bytes none ∷ rs) = write_failed dst
copy_loop dst (chunk bytes (some n) ∷ rs) =
    let rest = copy_loop (dst ++ bytes) rs in
    if n == length bytes then rest else write_failed (dst ++ take n bytes)

-- What the checks before the loop meet: `access` of the source for F_OK and R_OK, `open` of it,
-- `access` of the destination's directory for W_OK, and `open` of the destination.
pub record CopyChecks : Type 0 where
  pub exists : Bool
  pub readable : Bool
  pub source_opens : Bool
  pub dir_writable : Bool
  pub target_opens : Bool

-- The directory of the destination is copied into `dir_path[512]`, with its terminating 0.
pub copy_dir_check : Option (List ℕ) → Bool → Option Bool
copy_dir_check none writable = some true
copy_dir_check (some dir) writable =
    if leb 512 (length dir) then none else some (length dir == 0 || writable)

pub copy_checked : CopyChecks → List CopyRound → Option Bool → CopyResult
unfolding copy_loop
copy_checked k rounds none = stack_overflow
copy_checked k rounds (some false) = refused_copy
copy_checked k rounds (some true) = if k.target_opens then copy_loop [] rounds else refused_copy

pub fm_copy : CopyChecks → List ℕ → List CopyRound → CopyResult
unfolding copy_loop copy_dir_check copy_checked cut_last
fm_copy k dst rounds =
    if k.exists && k.readable && k.source_opens
    then copy_checked k rounds (copy_dir_check (cut_last dst) k.dir_writable)
    else refused_copy
