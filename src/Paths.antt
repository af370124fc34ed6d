-- ===== src/Paths.antt =====
-- src/path_manager.c: joining and splitting paths, and making the directories of a path. A string is
-- its bytes before the terminating 0; `access` and `mkdir` are arguments.
pub mod Names
pub mod Directories
pub mod Tests
use linux_file_manager.Prelude.{
  Bool, List, Option, [], false, if◌then◌else◌, none, some, take, true, ℕ, ◌++◌, ◌-◌, ◌==◌, ◌∷◌,
}

-- `snprintf(dst, size, "%s/%s", root, relative)`
unfoldable pub path_join : ℕ → List ℕ → List ℕ → List ℕ
path_join size root relative = take (size - 1) (root ++ b'/' ∷ relative)

-- The bytes before the last '/', where `strrchr` finds one.
unfoldable pub cut_last : List ℕ → Option (List ℕ)
cut_last [] = none
cut_last (b ∷ bs) = elim (cut_last bs) [
  | some before ↦ some (b ∷ before)
  | none ↦ if b == b'/' then some [] else none
]

-- `strcpy(dir, ".")` without a '/', and else what stands before the last one.
unfoldable pub dir_found : Option (List ℕ) → List ℕ
dir_found none = b'.' ∷ []
dir_found (some before) = before

-- `none` for the result -1 of a NULL path, else what `dir` holds then; `size` is at least 2.
unfoldable pub path_get_dir : Option (List ℕ) → ℕ → Option (List ℕ)
unfolding cut_last dir_found
path_get_dir none size = none
path_get_dir (some path) size = some (dir_found (cut_last (take (size - 1) path)))

-- The directory of the program, from what `readlink` finds: the result is `none` for -1.
unfoldable pub get_app_root : Option (List ℕ) → ℕ → Option (List ℕ)
unfolding cut_last
get_app_root none size = none
get_app_root (some exe) size = elim (cut_last (take 511 exe)) [
  | none ↦ none
  | some root ↦ some (take (size - 1) root)
]

-- `mkdir` makes the directory, or fails with EEXIST or another error.
pub data MkdirResult : Type 0 where
  made already_there refused : MkdirResult

pub record FileSystem (W : Type 0) : Type 0 where
  pub access : W → List ℕ → Bool
  pub mkdir : W → List ℕ → MkdirResult × W

module _ {W : Type 0} (fs : FileSystem W) where
  unfoldable pub mkdir_ok : MkdirResult × W → Bool × W
  mkdir_ok (made, w) = (true, w)
  mkdir_ok (already_there, w) = (true, w)
  mkdir_ok (refused, w) = (false, w)

  unfoldable pub make_one : W → List ℕ → Bool × W
  unfolding mkdir_ok
  make_one w path = if fs.access w path then (true, w) else mkdir_ok (fs.mkdir w path)

  -- What follows a step that may have failed.
  unfoldable pub and_then : Bool × W → (W → Bool × W) → Bool × W
  and_then (true, w) f = f w
  and_then (false, w) f = (false, w)

  -- The loop at the bytes `rest` behind `before`, and the last directory.
  unfoldable pub make_from : W → List ℕ → List ℕ → Bool × W
  unfolding make_one and_then
  make_from w before [] = make_one w before
  make_from w before (b ∷ rest) =
      let plain = make_from w (before ++ b ∷ []) rest in
      let parent = and_then (make_one w before) (λ w'. make_from w' (before ++ b ∷ []) rest) in
      if b == b'/' then parent else plain

  unfoldable pub make_parts : W → List ℕ → Bool × W
  unfolding make_from
  make_parts w [] = (false, w)
  make_parts w (b ∷ rest) = make_from w (b ∷ []) rest

  -- The result is 0 (`true`) or -1 (`false`); `temp` has 512 bytes.
  unfoldable pub path_mkdir_recursive : W → List ℕ → Bool × W
  unfolding make_parts
  path_mkdir_recursive w path = make_parts w (take 511 path)
