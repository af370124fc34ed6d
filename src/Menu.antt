-- ===== src/Menu.antt =====
-- `menu_start` of src/menu.c: one turn of its loop, with the commands of Shell, the input of Terminal,
-- and the log view and the gateway server as arguments.
mod Dialog
pub mod Looping
pub mod Messages
pub mod Writing
pub mod Replies
pub mod Tests
pub use Dialog.{Menu, Turn, goes_on, left, faulted, copying, Setting, show}
unfoldable pub use Dialog.{end_case, ask_path, ask_path2, ask_content, report}
use linux_file_manager.Prelude.{
  Bool, List, Option, [], false, if◌then◌else◌, negsuc, none, pos, some, suc, true, zero, ℕ, ℤ,
  ◌++◌, ◌==◌, ◌∷◌,
}
use linux_file_manager.Os.{Os, Stat}
use linux_file_manager.Shell.{Shell, fm_create, fm_delete, fm_info, fm_read, fm_write, log_info}
use linux_file_manager.Shell.Directories.{dir_create, dir_delete, dir_list}
use linux_file_manager.Shell.Copy.{CopyOutcome, copy_file, overflowed, returned, still_copying}
use linux_file_manager.Terminal.{
  clear_input_buffer, failure, printed, printed_bytes, scan_int, success, up_to_zero,
}
use linux_file_manager.Menu.Messages.{
  copy_failure, create_failure, delete_failure, file_info, info_failure, list_failure,
  make_dir_failure, menu_lines, read_failure, remove_dir_failure, write_failure, zeros,
}

module _ {W : Type 0} (os : Os W) (given : Setting W) where
  pub menu_create : Menu W → Turn W
  unfolding ask_path report
  menu_create m =
      let m' = ask_path m "File path:" in
      report m' "Create file success" create_failure (fm_create os m'.shell m'.path)

  pub menu_delete : Menu W → Turn W
  unfolding ask_path report
  menu_delete m =
      let m' = ask_path m "File path:" in
      report m' "Delete file success" delete_failure (fm_delete os m'.shell m'.path)

  pub menu_write : Menu W → Turn W
  unfolding ask_path ask_content report
  menu_write m =
      let m' = ask_content (ask_path m "File path:") in
      report m' "Write file success" write_failure (fm_write os m'.shell m'.path m'.buffer)

  -- Only a positive result of `fm_read` counts as a success. `%s` prints up to the first 0.
  pub show_read : Menu W → Option ℕ × List ℕ × Shell W → Turn W
  unfolding end_case
  show_read m (some (suc n), bytes, sh) =
      end_case (record m { shell = sh; buffer = bytes })
        (printed "\n" ∷ printed_bytes (up_to_zero bytes) ∷ printed "\n" ∷ [])
  show_read m (some zero, bytes, sh) =
      end_case (record m { shell = sh; buffer = bytes }) (read_failure sh.errno)
  show_read m (none, bytes, sh) =
      end_case (record m { shell = sh; buffer = bytes }) (read_failure sh.errno)

  pub menu_read : Menu W → Turn W
  unfolding ask_path show_read
  menu_read m =
      let m' = ask_path m "File path:" in
      show_read m' (fm_read os m'.shell m'.path (zeros 4096) 4096)

  pub copied : Menu W → CopyOutcome W → Turn W
  unfolding report
  copied m (returned ok sh) = report m "Copy completed successfully" copy_failure (ok, sh)
  copied m overflowed = faulted
  copied m still_copying = copying

  pub menu_copy : Menu W → Turn W
  unfolding ask_path ask_path2 copied
  menu_copy m =
      let m' = ask_path2 (ask_path m "Source: ") "Destination: " in
      copied m' (copy_file os given.copy_fuel m'.shell m'.path m'.path2)

  pub show_info : Menu W → Option Stat × Shell W → Turn W
  unfolding end_case
  show_info m (none, sh) = end_case (record m { shell = sh }) (info_failure sh.errno)
  show_info m (some st, sh) =
      end_case (record m { shell = sh })
        (file_info st m.path ++ success "Get information success" ∷ [])

  pub menu_info : Menu W → Turn W
  unfolding ask_path show_info
  menu_info m = let m' = ask_path m "File path:" in show_info m' (fm_info os m'.shell m'.path)

  pub show_list : Menu W → Bool × List ℕ × Shell W → Turn W
  unfolding end_case
  show_list m (true, out, sh) =
      end_case (record m { shell = sh; buffer = out }) (printed "\n" ∷ printed_bytes out ∷ [])
  show_list m (false, out, sh) =
      end_case (record m { shell = sh; buffer = out }) (list_failure sh.errno)

  pub menu_list : Menu W → Turn W
  unfolding ask_path show_list
  menu_list m =
      let m' = ask_path m "Directory:" in show_list m' (dir_list os m'.shell m'.path [] 4096)

  pub menu_make_dir : Menu W → Turn W
  unfolding ask_path report
  menu_make_dir m =
      let m' = ask_path m "Directory:" in
      report m' "Create directory success" make_dir_failure (dir_create os m'.shell m'.path)

  pub menu_remove_dir : Menu W → Turn W
  unfolding ask_path report
  menu_remove_dir m =
      let m' = ask_path m "Directory:" in
      report m' "Delete directory success" remove_dir_failure (dir_delete os m'.shell m'.path)

  pub menu_served : Menu W → Option (W × List ℕ) → Turn W
  menu_served m none = faulted
  menu_served m (some (w, rest)) =
      goes_on (record m { shell = record m.shell { world = w }; input = rest })

  pub menu_server : Menu W → Turn W
  unfolding menu_served
  menu_server m = menu_served m (given.serve m.shell.world m.input)

  pub menu_exit : Menu W → Turn W
  menu_exit m =
      let logged_exit = record m.shell { world = given.log_exit m.shell.world } in
      left (record m { shell = log_info logged_exit "User exit system" })

  pub invalid_choice : Menu W → Turn W
  unfolding end_case
  invalid_choice m = end_case m (failure "Invalid choice" ∷ [])

  pub menu_log : Menu W → Turn W
  unfolding end_case
  menu_log m =
      let (outs, w) = given.view_log m.shell.world in
      end_case (record m { shell = record m.shell { world = w } }) outs

  -- `switch (choice)`
  pub menu_choice : Menu W → ℤ → Turn W
  unfolding menu_create menu_delete menu_write menu_read menu_copy menu_info menu_list menu_make_dir
      menu_remove_dir menu_log menu_server menu_exit invalid_choice
  menu_choice m (negsuc k) = invalid_choice m
  menu_choice m (pos k) =
      if k == 1
      then menu_create m
      else if k == 2
      then menu_delete m
      else if k == 3
      then menu_write m
      else if k == 4
      then menu_read m
      else if k == 5
      then menu_copy m
      else if k == 6
      then menu_info m
      else if k == 7
      then menu_list m
      else if k == 8
      then menu_make_dir m
      else if k == 9
      then menu_remove_dir m
      else if k == 10
      then menu_log m
      else if k == 11
      then menu_server m
      else if k == 0
      then menu_exit m
      else invalid_choice m

  -- A turn: the menu is shown and the choice read; without digits in the input it stays what it was.
  pub menu_read_choice : Menu W → Menu W
  menu_read_choice m =
      let (chosen, rest) = scan_int m.input in
      record (show m menu_lines) {
        choice = elim chosen [ none ↦ m.choice | some k ↦ k ];
        input = clear_input_buffer rest;
        buffer = [];
      }

  pub menu_turn : Menu W → Turn W
  unfolding menu_choice menu_read_choice
  menu_turn m = let m' = menu_read_choice m in menu_choice m' m'.choice
