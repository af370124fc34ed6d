-- ===== src/Menu/Tests.antt =====
-- The menu of src/menu.c and the input of src/common.c on a small disk.
use mathlib.Core.Option.{some-injective}
use linux_file_manager.Prelude.{
  List, [], ap, arith, length, pos, refl, some, text, ℕ, ℤ, ◌++◌, ◌∷◌, ◌≡◌, ◌≤◌,
}
use linux_file_manager.Shell.Tests.{
  Disk, Holds, Reads, Writes, disk-IsFile, disk-IsPosix, disk-WritesWhole, disk_os, sample_shell,
}
use linux_file_manager.Menu.{Menu, Setting, goes_on, menu_turn}
use linux_file_manager.Menu.Writing.{menu_turn_write}

abbrev sample_setting : Setting Disk
sample_setting = record {
  copy_fuel = 8;
  view_log = λ w. ([], w);
  log_exit = λ w. w;
  serve = λ w input. some (w, input);
}

sample_serve :
    (w w' : Disk) (input rest : List ℕ)
    → sample_setting.serve w input ≡ some (w', rest)
    → length rest ≤ length input
sample_serve w w' input rest e =
    let same : input ≡ rest = ap (λ r. r.1) (some-injective (w, input) (w', rest) e) in
    omega (arith, ap length same)

abbrev typed_menu : List ℕ → ℤ → Menu Disk
typed_menu input last = record {
  shell = sample_shell;
  input = input;
  screen = [];
  choice = last;
  path = [];
  path2 = [];
  buffer = [];
}

menu_turn_write_example :
    (m' : Menu Disk) × (menu_turn disk_os sample_setting (
        typed_menu
          (b'3' ∷ b'\n' ∷ (text "t" ++ b'\n' ∷ (text "yz" ++ b'\n' ∷ b'\n' ∷ b'\n' ∷ text "0")))
          (pos 9))
      ≡ goes_on m')
    × Holds m'.shell.world (text "x" ++ text "yz")
    × (m'.input ≡ text "0")
menu_turn_write_example =
    menu_turn_write disk_os sample_setting Reads Writes disk-IsPosix disk-WritesWhole (text "t")
      Holds disk-IsFile
      (typed_menu
        (b'3' ∷ b'\n' ∷ (text "t" ++ b'\n' ∷ (text "yz" ++ b'\n' ∷ b'\n' ∷ b'\n' ∷ text "0")))
        (pos 9))
      (text "x") (text "yz") (text "0") b'\n' b'\n' refl ((ground arith, ground arith), tt)
      (omega arith) ((ground arith, ground arith), ((ground arith, ground arith), tt)) (omega arith)
      refl
