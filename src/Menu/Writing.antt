-- ===== src/Menu/Writing.antt =====
-- The command 3 of `menu_start` in src/menu.c, from the typed lines to the file.
use linux_file_manager.Prelude.{
  Bool, List, String, ap, arith, false, length, none, pos, refl, some, subst, sym, true, ℕ, ◌++◌,
  ◌+◌, ◌<◌, ◌∙◌, ◌∷◌, ◌≡◌,
}
use linux_file_manager.Os.{Errno, Os}
use linux_file_manager.Shell.{Shell, fm_write}
use linux_file_manager.Shell.Posix.{IsFile, IsPosix, WritesWhole}
use linux_file_manager.Shell.Contents.{write_lem}
use linux_file_manager.Terminal.{Output, clear_input_buffer, get_string, scan_int, wait_enter}
use linux_file_manager.Terminal.Lines.{
  IsLine, get_string_lem, scan_int-clear_input_buffer, wait_enter_typed,
}
use linux_file_manager.Menu.{
  Menu, Setting, Turn, ask_content, ask_path, end_case, goes_on, menu_choice, menu_read_choice,
  menu_turn, menu_write, report,
}

module _ {W : Type 0} (os : Os W) (given : Setting W) (Reading : W → ℕ → List ℕ → Type 0)
    (Writing : W → ℕ → List ℕ → Type 0) (posix : IsPosix os Reading Writing)
    (all_taken : WritesWhole os Writing) (path : List ℕ) (Content : W → List ℕ → Type 0)
    (file : IsFile os Reading Writing path Content) where
  -- The turn goes on, with these bytes in the file and this input left before the wait.
  abbrev pub LeavesFile : Turn W → List ℕ → List ℕ → Type 0
  LeavesFile t bytes input =
      (m : Menu W) × (t ≡ goes_on m) × Content m.shell.world bytes × (m.input ≡ wait_enter input)

  report_leaves :
      (m : Menu W) (s : String) (f : Errno → List Output) (r : Bool × Shell W) (bytes : List ℕ)
      → r.0 ≡ true
      → Content r.1.world bytes
      → LeavesFile (report m s f r) bytes m.input
  unfolding report end_case
  report_leaves m s f (true, sh) bytes e c = (_, refl, c, refl)
  report_leaves m s f (false, sh) bytes e c = absurd (ground (arith, e))

  write_leaves :
      (m : Menu W) (bytes content rest : List ℕ)
      → m.input ≡ path ++ b'\n' ∷ (content ++ b'\n' ∷ rest)
      → IsLine path
      → length path + 1 < 256
      → IsLine content
      → length content + 1 < 4096
      → Content m.shell.world bytes
      → LeavesFile (menu_write os given m) (bytes ++ content) rest
  unfolding menu_write ask_path ask_content
  write_leaves m bytes content rest typed plain short plain' short' c =
      let m2 : Menu W = ask_content (ask_path m "File path:") in
      let first : get_string 256 m.path m.input ≡ (path, content ++ b'\n' ∷ rest) =
        ap (get_string 256 m.path) typed
        ∙ (get_string_lem 256 m.path path (content ++ b'\n' ∷ rest) plain short).0 in
      let second : get_string 4096 m.buffer (get_string 256 m.path m.input).1 ≡ (content, rest) =
        ap (λ r. get_string 4096 m.buffer r.1) first
        ∙ (get_string_lem 4096 m.buffer content rest plain' short').0 in
      let (ok, now) =
        subst
          (λ r.
            ((fm_write os m.shell path r.0).0 ≡ true)
            × Content (fm_write os m.shell path r.0).1.world (bytes ++ content))
          (sym second)
          (write_lem os Reading Writing posix path Content file all_taken m.shell bytes content
            c) in
      let (ok', now') =
        subst
          (λ r.
            ((fm_write os m.shell r.0 m2.buffer).0 ≡ true)
            × Content (fm_write os m.shell r.0 m2.buffer).1.world (bytes ++ content))
          (sym first) (ok, now) in
      subst (λ r. LeavesFile (menu_write os given m) (bytes ++ content) r.1) second
        (report_leaves m2 _ _ _ (bytes ++ content) ok' now')

  -- When the file opens for appending and each `write` takes all its bytes: choice 3, the path of the
  -- file and a text, typed each in a line without a newline or a 0, of at
  -- most 254 and 4094 bytes, with the two bytes of the wait behind them: the turn goes on with the
  -- text behind the file's bytes and the rest of the input.
  pub menu_turn_write :
      (m : Menu W) (bytes content rest : List ℕ) (x y : ℕ)
      → m.input ≡ b'3' ∷ b'\n' ∷ (path ++ b'\n' ∷ (content ++ b'\n' ∷ x ∷ y ∷ rest))
      → IsLine path
      → length path + 1 < 256
      → IsLine content
      → length content + 1 < 4096
      → Content m.shell.world bytes
      → (m' : Menu W) × (menu_turn os given m ≡ goes_on m')
        × Content m'.shell.world (bytes ++ content)
        × (m'.input ≡ rest)
  unfolding menu_turn menu_read_choice menu_choice
  menu_turn_write m bytes content rest x y typed plain short plain' short' c =
      let input : List ℕ = path ++ b'\n' ∷ (content ++ b'\n' ∷ x ∷ y ∷ rest) in
      let (chosen, cleared) = scan_int-clear_input_buffer input in
      let m1 : Menu W = menu_read_choice os given m in
      let three : m1.choice ≡ pos 3 =
        ap (λ xs. elim (scan_int xs).0 [ none ↦ m.choice | some k ↦ k ]) typed
        ∙ ap (λ r. elim r [ none ↦ m.choice | some k ↦ k ]) chosen in
      let after_choice : m1.input ≡ input =
        ap (λ xs. clear_input_buffer (scan_int xs).1) typed ∙ cleared in
      let (m', e, now, left_over) =
        write_leaves m1 bytes content (x ∷ y ∷ rest) after_choice plain short plain' short' c in
      (m', ap (menu_choice os given m1) three ∙ e, now, left_over ∙ wait_enter_typed x y rest)
