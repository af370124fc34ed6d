-- ===== src/Main/Quitting.antt =====
-- How `main` of main.c ends when the user quits.
use linux_file_manager.Prelude.{List, [], ap, none, refl, suc, text, ℕ, ◌∙◌, ◌∷◌, ◌≡◌}
use linux_file_manager.Menu.{Menu, left}
use linux_file_manager.Config.{Config, config_init, same}
use linux_file_manager.Os.{Errno}
use linux_file_manager.Gpio.{Gpio, gpio_cleanup}
use linux_file_manager.Logs.{LogState, log_close, log_close-log_fd, log_init, log_write, started}
use linux_file_manager.Menu.Looping.{menu_turns, menu_turns_exit}
use linux_file_manager.Main.{
  log_exit, Finished, Machine, MainEnd, blink, log_ready, main, menu_ended, menu_setting,
  returned_0, started_menu,
}

module _ {W V : Type 0} (on : Machine W V) where
  -- `main` returned 0 with its log closed, no pin left in its table, and this input and disk.
  abbrev pub Ends : MainEnd W V → List ℕ → W → Type 0
  Ends end rest w =
      (f : Finished W V) × (end ≡ returned_0 f)
      × (f.log.log_fd ≡ none)
      × (f.gpio.initialized ≡ [])
      × (f.input ≡ rest)
      × (f.shell.world ≡ w)

  -- The configuration that `main` runs on.
  abbrev pub config_of : W → Config
  config_of w = (config_init on.atoi (on.os.read_link w) on.root on.read_config).1

  -- Where the menu returns, so does `main`.
  pub left-Ends :
      (turns : ℕ) (w w1 v : W) (e : Errno) (log log1 : LogState) (g : Gpio V) (input rest : List ℕ)
      (m : Menu W)
      → log_init on.os w e log (config_of w) on.stamp ≡ started w1 log1
      → menu_turns on.os (menu_setting on (config_of w) log1) turns (started_menu on w1 log1 input)
        ≡ left m
      → m.input ≡ rest
      → m.shell.world ≡ v
      → Ends (main on turns w e log g input) rest (log_close on.os v log1 on.stamp).0
  unfolding main log_ready menu_ended gpio_cleanup
  left-Ends turns w w1 v e log log1 g input rest m opened same left_over kept =
      let (w2, log2) = log_close on.os m.shell.world log1 on.stamp in
      (
        record {
          shell = record m.shell { world = w2 };
          log = log2;
          gpio = gpio_cleanup on.sys on.stack (blink on g);
          input = m.input;
        },
        ap (log_ready on turns (config_of w) (blink on g) input) opened
            ∙ ap (menu_ended on (blink on g) log1) same,
        log_close-log_fd on.os m.shell.world log1 on.stamp,
        refl,
        left_over,
        ap (λ x. (log_close on.os x log1 on.stamp).0) kept,
      )

  -- When `log_init` opens the log and 0 is the first line typed, then within any number of turns of the
  -- menu, at least one, `main` returns 0: the log is closed, no pin is left in the table, and the
  -- disk is as the calls of the log left it.
  main_quits :
      (turns : ℕ) (w w1 : W) (e : Errno) (log log1 : LogState) (g : Gpio V) (rest : List ℕ)
      → log_init on.os w e log
          (config_init on.atoi (on.os.read_link w) on.root on.read_config).1
          on.stamp
        ≡ started w1 log1
      → Ends
          (main on (suc turns) w e log g (b'0' ∷ b'\n' ∷ rest))
          rest
          (log_close on.os
            (log_exit on log1
              (log_write on.os w1 log1 on.stamp (text "INFO") (text "File Manager start")))
            log1
            on.stamp).0
  unfolding started_menu menu_setting
  main_quits turns w w1 e log log1 g rest opened =
      let m : Menu W = started_menu on w1 log1 (b'0' ∷ b'\n' ∷ rest) in
      let (m', same, left_over, kept) =
        menu_turns_exit on.os (menu_setting on (config_of w) log1) m rest turns refl in
      left-Ends (suc turns) w w1 _ e log log1 g (b'0' ∷ b'\n' ∷ rest) rest m' opened same left_over
        kept
