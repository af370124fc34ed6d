-- ===== src/Shell/Directories.antt =====
-- src/directory.c: listing, making and deleting directories.
pub mod Listing
use linux_file_manager.Prelude.{
  Bool, List, String, [], false, get_or, if◌then◌else◌, leb, length, not, true, ℕ, ◌++◌, ◌+◌, ◌==◌,
  ◌∷◌,
}
use linux_file_manager.Paths.{path_mkdir_recursive}
use linux_file_manager.Os.{Errno, Os, Sys, done, eacces, enoent, enotempty, failed, file_system}
use linux_file_manager.Shell.{Shell, after, error, log_error, log_info}

-- `entry->d_name[0] == '.'`
pub is_hidden : List ℕ → Bool
is_hidden name = get_or name 0 0 == b'.'

-- The loop over the entries; the buffer is the string in it.
pub collect_names : ℕ → List ℕ → List (List ℕ) → List ℕ
unfolding is_hidden
collect_names size buffer [] = buffer
collect_names size buffer (name ∷ names) =
    let skipped = collect_names size buffer names in
    let added = collect_names size (buffer ++ (name ++ b'\n' ∷ [])) names in
    if is_hidden name
    then skipped
    else if leb size (length buffer + length name + 2)
    then buffer
    else added

module _ {W : Type 0} (os : Os W) where
  pub listed_names : Shell W → List ℕ → ℕ → Sys (List (List ℕ)) → Bool × List ℕ × Shell W
  unfolding collect_names
  listed_names sh buffer size (failed e) =
      (false, buffer, log_error (record sh { errno = e }) "open directory failed")
  listed_names sh buffer size (done names) =
      (true, collect_names size [] names, log_info sh "list directory success")

  -- The result is 0 (`true`) or -1, with the buffer.
  pub dir_list : Shell W → List ℕ → List ℕ → ℕ → Bool × List ℕ × Shell W
  unfolding listed_names
  dir_list sh path buffer size = listed_names sh buffer size (os.list_names sh.world path)

  created : Shell W → Bool × (W × Errno) → Bool × Shell W
  created sh (false, (w, e)) =
      (false, log_error (record sh { world = w; errno = e }) "create directory failed")
  created sh (true, (w, e)) =
      (true, log_info (record sh { world = w; errno = e }) "create directory success")

  pub dir_create : Shell W → List ℕ → Bool × Shell W
  unfolding created
  dir_create sh path = created sh (path_mkdir_recursive (file_system os) (sh.world, sh.errno) path)

  delete_failure : Errno → String
  delete_failure enotempty = "delete directory failed: directory not empty"
  delete_failure enoent = "delete directory failed: no such directory"
  delete_failure eacces = "delete directory failed: permission denied"
  delete_failure e = "delete directory failed: unknown error"

  deleted : Shell W → Sys (Unit {0}) × W → Bool × Shell W
  unfolding delete_failure
  deleted sh (failed e, w) = (false, log_error (after {A = ℕ} sh (failed e) w) (delete_failure e))
  deleted sh (done u, w) = (true, log_info (record sh { world = w }) "delete directory success")

  pub dir_delete : Shell W → List ℕ → Bool × Shell W
  unfolding deleted
  dir_delete sh path = deleted sh (os.rmdir sh.world path)
