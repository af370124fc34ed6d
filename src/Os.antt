-- ===== src/Os.antt =====
-- The calls of the operating system that the file commands, the log and the menu make, as arguments of
-- the models: what a call returns, and what it does to a state that only these calls know.
use linux_file_manager.Prelude.{Bool, List, Option, false, true, ℕ}
use linux_file_manager.Paths.{FileSystem, MkdirResult, already_there, made, refused}

-- The values of `errno` that the program tells apart.
pub data Errno : Type 0 where
  enoent eacces eisdir enotdir eexist enotempty : Errno
  other_errno : ℕ → Errno

pub data Sys (A : Type 0) : Type 0 where
  done : A → Sys A
  failed : Errno → Sys A

-- The flags of the program's calls of `open`.
pub data OpenMode : Type 0 where
  create_write write_append read_only create_truncate create_append : OpenMode

pub data AccessMode : Type 0 where
  file_ok read_ok write_ok : AccessMode

-- `struct stat`, in the fields that are printed.
pub record Stat : Type 0 where
  pub st_size : ℕ
  pub st_mode : ℕ
  pub st_nlink : ℕ
  pub st_uid : ℕ
  pub st_gid : ℕ
  pub st_atime : ℕ
  pub st_mtime : ℕ
  pub st_ctime : ℕ

-- `list_names` is `opendir`, the calls of `readdir` up to NULL, and `closedir`.
pub record Os (W : Type 0) : Type 0 where
  pub open_file : W → List ℕ → OpenMode → Sys ℕ × W
  pub read_file : W → ℕ → ℕ → Sys (List ℕ) × W
  pub write_file : W → ℕ → List ℕ → Sys ℕ × W
  pub close_file : W → ℕ → W
  pub access_file : W → List ℕ → AccessMode → Sys (Unit {0})
  pub unlink : W → List ℕ → Sys (Unit {0}) × W
  pub mkdir_path : W → List ℕ → Sys (Unit {0}) × W
  pub rmdir : W → List ℕ → Sys (Unit {0}) × W
  pub stat_path : W → List ℕ → Sys Stat
  pub list_names : W → List ℕ → Sys (List (List ℕ))
  pub read_link : W → Option (List ℕ)

abbrev pub succeeded : {A : Type 0} → Sys A → Bool
succeeded (done a) = true
succeeded (failed e) = false

-- The two calls that `path_mkdir_recursive` makes, with `errno` beside the system's state.
abbrev pub mkdir_result : {W : Type 0} → Errno → Sys (Unit {0}) × W → MkdirResult × (W × Errno)
mkdir_result e (done u, w) = (made, (w, e))
mkdir_result e (failed eexist, w) = (already_there, (w, eexist))
mkdir_result e (failed e', w) = (refused, (w, e'))

abbrev pub file_system : {W : Type 0} → Os W → FileSystem (W × Errno)
file_system os = record {
  access = λ s p. succeeded (os.access_file s.0 p file_ok);
  mkdir = λ s p. mkdir_result s.1 (os.mkdir_path s.0 p);
}
