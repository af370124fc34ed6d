-- ===== src/Menu/Replies.antt =====
-- What the menu of src/menu.c answers.
use linux_file_manager.Prelude.{
  Bool, List, Option, Option-cases, String, [], arith, false, inl, inr, length, negsuc, none, pos,
  refl, some, suc, true, zero, ℕ, ℤ, ◌==◌, ◌≡◌, ◌≤◌,
}
use linux_file_manager.Terminal.Consuming.{get_string_shortens, wait_enter_shortens}
use linux_file_manager.Shell.Directories.{dir_create, dir_delete, dir_list}
use linux_file_manager.Menu.Messages.{zeros}
use linux_file_manager.Os.{Errno, Os, Stat}
use linux_file_manager.Shell.{Shell, fm_create, fm_delete, fm_info, fm_read, fm_write}
use linux_file_manager.Shell.Copy.{CopyOutcome, copy_file, overflowed, returned, still_copying}
use linux_file_manager.Terminal.{Output, wait_enter}
use linux_file_manager.Menu.{
  Menu, Setting, Turn, ask_content, ask_path, ask_path2, copied, copying, end_case, faulted,
  goes_on, invalid_choice, left, menu_choice, menu_copy, menu_create, menu_delete, menu_exit,
  menu_info, menu_list, menu_log, menu_make_dir, menu_read, menu_remove_dir, menu_served,
  menu_server, menu_write, report, show_info, show_list, show_read,
}

-- Whether a turn returned.
abbrev pub has_left : {W : Type 0} → Turn W → Bool
has_left (left m) = true
has_left (goes_on m) = false
has_left faulted = false
has_left copying = false

abbrev pub is_zero : ℤ → Bool
is_zero (pos k) = k == 0
is_zero (negsuc k) = false

-- The turn does not return; when it goes on, the choice is what it was and no input has been given
-- back.
abbrev pub Stays : {W : Type 0} → ℤ → ℕ → Turn W → Type 0
Stays c n (goes_on m) = (m.choice ≡ c) × (length m.input ≤ n)
Stays c n (left m) = ⊥
Stays c n faulted = Unit
Stays c n copying = Unit

Stays-weaken : {W : Type 0} (c : ℤ) (n k : ℕ) (t : Turn W) → n ≤ k → Stays c n t → Stays c k t
Stays-weaken c n k (goes_on m) le h = (h.0, omega (arith, le, h.1))
Stays-weaken c n k (left m) le h = h
Stays-weaken c n k faulted le h = h
Stays-weaken c n k copying le h = h

module _ {W : Type 0} (os : Os W) (given : Setting W) where
  waited_stays :
      (m : Menu W) → (m.choice ≡ m.choice) × (length (wait_enter m.input) ≤ length m.input)
  waited_stays m = (refl, wait_enter_shortens m.input)

  report-Stays :
      (m : Menu W) (s : String) (f : Errno → List Output) (r : Bool × Shell W)
      → Stays m.choice (length m.input) (report m s f r)
  unfolding report end_case
  report-Stays m s f (true, sh) = waited_stays m
  report-Stays m s f (false, sh) = waited_stays m

  read-Stays :
      (m : Menu W) (r : Option ℕ × List ℕ × Shell W)
      → Stays m.choice (length m.input) (show_read os given m r)
  unfolding show_read end_case
  read-Stays m (none, bytes, sh) = waited_stays m
  read-Stays m (some zero, bytes, sh) = waited_stays m
  read-Stays m (some (suc n), bytes, sh) = waited_stays m

  copied-Stays :
      (m : Menu W) (r : CopyOutcome W) → Stays m.choice (length m.input) (copied os given m r)
  unfolding copied
  copied-Stays m (returned ok sh) = report-Stays m _ _ (ok, sh)
  copied-Stays m overflowed = tt
  copied-Stays m still_copying = tt

  info-Stays :
      (m : Menu W) (r : Option Stat × Shell W)
      → Stays m.choice (length m.input) (show_info os given m r)
  unfolding show_info end_case
  info-Stays m (none, sh) = waited_stays m
  info-Stays m (some st, sh) = waited_stays m

  list-Stays :
      (m : Menu W) (r : Bool × List ℕ × Shell W)
      → Stays m.choice (length m.input) (show_list os given m r)
  unfolding show_list end_case
  list-Stays m (true, out, sh) = waited_stays m
  list-Stays m (false, out, sh) = waited_stays m

  -- A command that asks for a path first.
  asked-Stays :
      (m : Menu W) (prompt : String) (t : Turn W)
      → Stays m.choice (length (ask_path m prompt).input) t
      → Stays m.choice (length m.input) t
  unfolding ask_path
  asked-Stays m prompt t h = Stays-weaken m.choice _ _ t (get_string_shortens 256 m.path m.input) h

  asked2-Stays :
      (m : Menu W) (prompt : String) (t : Turn W)
      → Stays m.choice (length (ask_path2 m prompt).input) t
      → Stays m.choice (length m.input) t
  unfolding ask_path2
  asked2-Stays m prompt t h =
      Stays-weaken m.choice _ _ t (get_string_shortens 256 m.path2 m.input) h

  content-Stays :
      (m : Menu W) (t : Turn W)
      → Stays m.choice (length (ask_content m).input) t
      → Stays m.choice (length m.input) t
  unfolding ask_content
  content-Stays m t h = Stays-weaken m.choice _ _ t (get_string_shortens 4096 m.buffer m.input) h

  create-Stays : (m : Menu W) → Stays m.choice (length m.input) (menu_create os given m)
  unfolding menu_create ask_path
  create-Stays m =
      let m' = ask_path m "File path:" in
      asked-Stays m "File path:" _ (report-Stays m' _ _ (fm_create os m'.shell m'.path))

  delete-Stays : (m : Menu W) → Stays m.choice (length m.input) (menu_delete os given m)
  unfolding menu_delete ask_path
  delete-Stays m =
      let m' = ask_path m "File path:" in
      asked-Stays m "File path:" _ (report-Stays m' _ _ (fm_delete os m'.shell m'.path))

  menu_read-Stays : (m : Menu W) → Stays m.choice (length m.input) (menu_read os given m)
  unfolding menu_read ask_path
  menu_read-Stays m =
      let m' = ask_path m "File path:" in
      asked-Stays m "File path:" _ (read-Stays m' (fm_read os m'.shell m'.path (zeros 4096) 4096))

  menu_info-Stays : (m : Menu W) → Stays m.choice (length m.input) (menu_info os given m)
  unfolding menu_info ask_path
  menu_info-Stays m =
      let m' = ask_path m "File path:" in
      asked-Stays m "File path:" _ (info-Stays m' (fm_info os m'.shell m'.path))

  menu_list-Stays : (m : Menu W) → Stays m.choice (length m.input) (menu_list os given m)
  unfolding menu_list ask_path
  menu_list-Stays m =
      let m' = ask_path m "Directory:" in
      asked-Stays m "Directory:" _ (list-Stays m' (dir_list os m'.shell m'.path [] 4096))

  make_dir-Stays : (m : Menu W) → Stays m.choice (length m.input) (menu_make_dir os given m)
  unfolding menu_make_dir ask_path
  make_dir-Stays m =
      let m' = ask_path m "Directory:" in
      asked-Stays m "Directory:" _ (report-Stays m' _ _ (dir_create os m'.shell m'.path))

  remove_dir-Stays : (m : Menu W) → Stays m.choice (length m.input) (menu_remove_dir os given m)
  unfolding menu_remove_dir ask_path
  remove_dir-Stays m =
      let m' = ask_path m "Directory:" in
      asked-Stays m "Directory:" _ (report-Stays m' _ _ (dir_delete os m'.shell m'.path))

  write-Stays : (m : Menu W) → Stays m.choice (length m.input) (menu_write os given m)
  unfolding menu_write ask_path ask_content
  write-Stays m =
      let m1 = ask_path m "File path:" in
      let m2 = ask_content m1 in
      asked-Stays m "File path:" _
        (content-Stays m1 _ (report-Stays m2 _ _ (fm_write os m2.shell m2.path m2.buffer)))

  copy-Stays : (m : Menu W) → Stays m.choice (length m.input) (menu_copy os given m)
  unfolding menu_copy ask_path ask_path2
  copy-Stays m =
      let m1 = ask_path m "Source: " in
      let m2 = ask_path2 m1 "Destination: " in
      asked-Stays m "Source: " _ (
        asked2-Stays m1 "Destination: " _
          (copied-Stays m2 (copy_file os given.copy_fuel m2.shell m2.path m2.path2)))

  log-Stays : (m : Menu W) → Stays m.choice (length m.input) (menu_log os given m)
  unfolding menu_log end_case
  log-Stays m = waited_stays m

  invalid-Stays : (m : Menu W) → Stays m.choice (length m.input) (invalid_choice os given m)
  unfolding invalid_choice end_case
  invalid-Stays m = waited_stays m

  -- The gateway server gives no input back either.
  module _
      (served : (w w' : W) (input rest : List ℕ)
        → given.serve w input ≡ some (w', rest)
        → length rest ≤ length input) where
    server-Stays : (m : Menu W) → Stays m.choice (length m.input) (menu_server os given m)
    unfolding menu_server menu_served
    server-Stays m = elim (Option-cases (given.serve m.shell.world m.input)) [
      | inl e ↦ rw (e, menu_served) tt
      | inr ((w, rest), e) ↦ rw (e, menu_served) (refl, served m.shell.world w m.input rest e)
    ]

    pub choice-Stays :
        (m : Menu W) (k : ℤ)
        → is_zero k ≡ false
        → Stays m.choice (length m.input) (menu_choice os given m k)
    unfolding menu_choice menu_exit
    choice-Stays m (negsuc k) h = invalid-Stays m
    choice-Stays m (pos k) h = ground (
      arith,
      create-Stays m,
      delete-Stays m,
      write-Stays m,
      menu_read-Stays m,
      copy-Stays m,
      menu_info-Stays m,
      menu_list-Stays m,
      make_dir-Stays m,
      remove_dir-Stays m,
      log-Stays m,
      server-Stays m,
      invalid-Stays m,
      h,
    )
