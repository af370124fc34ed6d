-- ===== src/Menu/Dialog.antt =====
-- `menu_start` of src/menu.c: its locals, and what its cases have in common.
use linux_file_manager.Prelude.{Option, Bool, List, String, [], false, true, ℕ, ℤ, ◌++◌, ◌∷◌}
use linux_file_manager.Os.{Errno}
use linux_file_manager.Shell.{Shell}
use linux_file_manager.Terminal.{Output, get_string, printed, success, wait_enter}

-- The locals of `menu_start`, the input, and what was printed, oldest first. `path`, `path2` and
-- `buffer` are the strings in them.
pub record Menu (W : Type 0) : Type 0 where
  pub shell : Shell W
  pub input : List ℕ
  pub screen : List Output
  pub choice : ℤ
  pub path : List ℕ
  pub path2 : List ℕ
  pub buffer : List ℕ

-- A turn ends in the next one or in the return; or `fm_copy` writes outside its buffer or the server frees
-- a pointer that was never set (`faulted`); or `fm_copy` is still in
-- its loop when its fuel ends.
pub data Turn (W : Type 0) : Type 0 where
  goes_on left : Menu W → Turn W
  faulted copying : Turn W

-- What the menu is given beside the system: the fuel of a copy, what `log_view` prints and does, and
-- what the gateway server does to the system and the input, or `none` where it frees a pointer that was
-- never set. `log_exit` is what the log's line behind the exit does to the system.
pub record Setting (W : Type 0) : Type 0 where
  pub copy_fuel : ℕ
  pub view_log : W → List Output × W
  pub log_exit : W → W
  pub serve : W → List ℕ → Option (W × List ℕ)

module _ {W : Type 0} where
  abbrev pub show : Menu W → List Output → Menu W
  show m outs = record m { screen = m.screen ++ outs }

  -- The end of every case but the server's and the exit's.
  unfoldable pub end_case : Menu W → List Output → Turn W
  end_case m outs = goes_on (record (show m (outs ++ printed "\nPress Enter continue..." ∷ [])) {
    input = wait_enter m.input;
  })

  unfoldable pub ask_path : Menu W → String → Menu W
  ask_path m prompt =
      let (line, rest) = get_string 256 m.path m.input in
      record (show m (printed prompt ∷ [])) { path = line; input = rest }

  unfoldable pub ask_path2 : Menu W → String → Menu W
  ask_path2 m prompt =
      let (line, rest) = get_string 256 m.path2 m.input in
      record (show m (printed prompt ∷ [])) { path2 = line; input = rest }

  unfoldable pub ask_content : Menu W → Menu W
  ask_content m =
      let (line, rest) = get_string 4096 m.buffer m.input in
      record (show m (printed "Content:" ∷ [])) { buffer = line; input = rest }

  -- A command that returned 0 or -1: the message of the success, or those of the failure by `errno`.
  unfoldable pub report : Menu W → String → (Errno → List Output) → Bool × Shell W → Turn W
  unfolding end_case
  report m message failures (true, sh) = end_case (record m { shell = sh }) (success message ∷ [])
  report m message failures (false, sh) = end_case (record m { shell = sh }) (failures sh.errno)
