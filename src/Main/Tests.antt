-- ===== src/Main/Tests.antt =====
-- The program of main.c on a small disk, where the user quits at once.
use linux_file_manager.Prelude.{List, [], false, none, pos, refl, some, text, true, ℕ, ◌≡◌}
use linux_file_manager.Os.{enoent}
use linux_file_manager.Config.{no_config, parsed_file}
use linux_file_manager.Gpio.{wrote}
use linux_file_manager.Logs.{LogState, log_write}
use linux_file_manager.Shell.Tests.{Disk, disk_os, sample_shell}
use linux_file_manager.Server.Tests.{sample_calls}
use linux_file_manager.Main.{Machine, menu_setting}
use linux_file_manager.Main.Serving.{main_menu_stuck}
use linux_file_manager.Menu.{Menu}
use linux_file_manager.Menu.Looping.{menu_turns}
use linux_file_manager.Menu.Replies.{has_left}
use linux_file_manager.Paths.{path_join}

-- A kernel that takes every write and always shows a high pin; a configuration file without entries.
abbrev sample_machine : Machine Disk (Unit {0})
sample_machine = record {
  os = disk_os;
  sys = record { write = λ w node bytes. (wrote, w); read = λ w node. some (text "1") };
  atoi = λ value. pos 0;
  read_config = λ path. parsed_file 0 [];
  copy_fuel = 8;
  view_fuel = 8;
  calls = sample_calls;
  serve_world = λ w input. w;
  stamp = record { time_str = text "now"; pid = 41; tid = 7 };
  stack = [];
  root = [];
  choice = pos 9;
  menu_errno = enoent;
}

abbrev no_log : LogState
no_log = record { log_fd = none; real_log_path = []; stdout_fd = 1; mutex_ready = false }

abbrev opened_log : LogState
opened_log = record {
  log_fd = some 4;
  real_log_path = path_join 512 (text "/app") [];
  stdout_fd = 1;
  mutex_ready = true;
}

-- A call of the log at level INFO.
abbrev logged_info : Disk → List ℕ → Disk
logged_info w msg = log_write disk_os w opened_log sample_machine.stamp (text "INFO") msg

abbrev logged_start : Disk
logged_start = logged_info sample_shell.world (text "Log system init")

-- A menu whose last choice was the server, at the end of the input.
abbrev idle_menu : Menu Disk
idle_menu = record {
  shell = sample_shell;
  input = [];
  screen = [];
  choice = pos 11;
  path = [];
  path2 = [];
  buffer = [];
}

main_menu_stuck_example :
    has_left (menu_turns disk_os (menu_setting sample_machine no_config opened_log) 5 idle_menu)
    ≡ false
main_menu_stuck_example = main_menu_stuck sample_machine no_config opened_log idle_menu 5 refl refl
