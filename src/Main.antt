-- ===== src/Main.antt =====
-- `main` of main.c: the parts in their order. The menu is given a number of turns; the calls of
-- the log that the commands make are listed in their `Shell`.
pub mod Quitting
pub mod Serving
pub mod Tests
use linux_file_manager.Prelude.{Option, List, [], text, ℕ, ℤ, ◌∷◌}
use linux_file_manager.Terminal.{Output, printed_bytes, system_error}
use linux_file_manager.Os.{Errno, Os}
use mathlib.Core.Option
use linux_file_manager.Server.{ServerCalls, gateway_server_menu, left_input}
use linux_file_manager.Config.{Config, Parsed, config_init}
use linux_file_manager.Gpio.{
  Gpio, Sysfs, gpio_boot_indicator_init, gpio_cleanup, gpio_high, gpio_low, gpio_pc9, gpio_set,
}
use linux_file_manager.Logs.{
  LogStart, LogState, Stamp, Viewed, exited, log_close, log_init, log_view, log_write, not_opened,
  started, still_viewing, viewed,
}
use linux_file_manager.Shell.{Shell}
use linux_file_manager.Menu.{Menu, Setting, Turn, copying, faulted, goes_on, left}
use linux_file_manager.Menu.Looping.{menu_turns}

-- What the program runs on: the system, the sysfs files, `atoi`, what `ini_parse` finds at a path, what
-- the menu is given, what the calls of the server give and what it writes to the system, the log's
-- stamp, and the bytes that uninitialised variables hold.
pub record Machine (W V : Type 0) : Type 0 where
  pub os : Os W
  pub sys : Sysfs V
  pub atoi : List ℕ → ℤ
  pub read_config : List ℕ → Parsed
  pub copy_fuel : ℕ
  pub view_fuel : ℕ
  pub calls : ServerCalls
  pub serve_world : W → List ℕ → W
  pub stamp : Stamp
  pub stack : List ℕ
  pub root : List ℕ
  pub choice : ℤ
  pub menu_errno : Errno

-- What `main` leaves when it returns 0.
pub record Finished (W V : Type 0) : Type 0 where
  pub shell : Shell W
  pub log : LogState
  pub gpio : Gpio V
  pub input : List ℕ

-- The other ends: `exit(1)` in `log_init`, which leaves the pins as they are; still in the menu; or
-- a copy that overflows its buffer or does not end.
pub data MainEnd (W V : Type 0) : Type 0 where
  returned_0 : Finished W V → MainEnd W V
  exited_1 : Gpio V → MainEnd W V
  in_menu : Menu W → MainEnd W V
  crashed in_copy : MainEnd W V

module _ {W V : Type 0} (on : Machine W V) where
  -- The indicator goes on, off and on again.
  pub blink : Gpio V → Gpio V
  blink g =
      let lit = (gpio_boot_indicator_init on.sys on.stack g).1 in
      let dark = (gpio_set on.sys on.stack lit gpio_pc9 gpio_low).1 in
      (gpio_set on.sys on.stack dark gpio_pc9 gpio_high).1

  -- What `log_view` prints. With fuel for the file it is not still in its loop.
  pub view_outputs : W → Viewed W → List Output × W
  view_outputs w (viewed bytes w') = (printed_bytes bytes ∷ [], w')
  view_outputs w (not_opened e w') = (system_error "open log" e ∷ [], w')
  view_outputs w still_viewing = ([], w)

  -- The gateway server, on the configuration that was loaded.
  pub served : Config → W → List ℕ → Option (W × List ℕ)
  served config w input =
      Option.map (λ rest. (on.serve_world w input, rest))
        (left_input (gateway_server_menu on.calls config input))

  -- The line of the menu's exit.
  abbrev pub log_exit : LogState → W → W
  log_exit log w = log_write on.os w log on.stamp (text "INFO") (text "User exit system")

  pub menu_setting : Config → LogState → Setting W
  unfolding view_outputs served
  menu_setting config log = record {
    copy_fuel = on.copy_fuel;
    view_log = λ w. view_outputs w (log_view on.os on.view_fuel w log);
    log_exit = log_exit log;
    serve = served config;
  }

  pub started_menu : W → LogState → List ℕ → Menu W
  started_menu w log input = record {
    shell = record {
      world = log_write on.os w log on.stamp (text "INFO") (text "File Manager start");
      errno = on.menu_errno;
      logged = [];
    };
    input = input;
    screen = [];
    choice = on.choice;
    path = on.stack;
    path2 = on.stack;
    buffer = on.stack;
  }

  pub menu_ended : Gpio V → LogState → Turn W → MainEnd W V
  menu_ended g log (goes_on m) = in_menu m
  menu_ended g log faulted = crashed
  menu_ended g log copying = in_copy
  menu_ended g log (left m) =
      let (w, log') = log_close on.os m.shell.world log on.stamp in
      returned_0 (record {
        shell = record m.shell { world = w };
        log = log';
        gpio = gpio_cleanup on.sys on.stack g;
        input = m.input;
      })

  pub log_ready : ℕ → Config → Gpio V → List ℕ → LogStart W → MainEnd W V
  unfolding menu_ended started_menu menu_setting
  log_ready turns config g input exited = exited_1 g
  log_ready turns config g input (started w log) =
      menu_ended g log (menu_turns on.os (menu_setting config log) turns (started_menu w log input))

  pub main : ℕ → W → Errno → LogState → Gpio V → List ℕ → MainEnd W V
  unfolding blink log_ready
  main turns w e log g input =
      let config = (config_init on.atoi (on.os.read_link w) on.root on.read_config).1 in
      log_ready turns config (blink g) input (log_init on.os w e log config on.stamp)
