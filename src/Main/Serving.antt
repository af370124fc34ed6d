-- ===== src/Main/Serving.antt =====
-- `main` of main.c with a session of the gateway server: from the menu to the prompt and back.
use linux_file_manager.Prelude.{List, Option, [], ap, arith, false, length, none, some, ℕ, ◌≡◌, ◌≤◌}
use linux_file_manager.Config.{Config}
use mathlib.Core.Option
use mathlib.Core.Option.{some-injective}
use linux_file_manager.Gpio.{Gpio}
use linux_file_manager.Logs.{LogState}
use linux_file_manager.Server.Typed.{IsShorter, gateway_server_menu-IsShorter}
use linux_file_manager.Server.{gateway_server_menu, left_input}
use linux_file_manager.Menu.{Menu}
use linux_file_manager.Menu.Replies.{has_left, is_zero}
use linux_file_manager.Menu.Looping.{menu_turns, menu_turns_stuck}
use linux_file_manager.Main.{Machine, menu_setting, served}

module _ {W V : Type 0} (on : Machine W V) where
  -- The server of `main` gives no input back.
  served_shortens :
      (config : Config) (w w' : W) (input rest : List ℕ)
      → served on config w input ≡ some (w', rest)
      → length rest ≤ length input
  unfolding served
  served_shortens config w w' input rest e =
      from (left_input (gateway_server_menu on.calls config input))
        (gateway_server_menu-IsShorter on.calls config input) e
    where
      from :
          (o : Option (List ℕ))
          → IsShorter input o
          → Option.map {B = W × List ℕ} (λ r. (on.serve_world w input, r)) o ≡ some (w', rest)
          → length rest ≤ length input
      from none h p = absurd (ground (arith, p))
      from (some r) h p =
          let equal : r ≡ rest =
            ap (λ x. x.1) (some-injective (on.serve_world w input, r) (w', rest) p) in
          omega (arith, h, ap length equal)

  -- At the end of the input, with a last choice other than 0, no number of turns of the menu that `main`
  -- runs returns, the gateway server's turns included.
  pub main_menu_stuck :
      (config : Config) (log : LogState) (m : Menu W) (n : ℕ)
      → m.input ≡ []
      → is_zero m.choice ≡ false
      → has_left (menu_turns on.os (menu_setting on config log) n m) ≡ false
  unfolding menu_setting
  main_menu_stuck config log m n e h =
      menu_turns_stuck on.os (menu_setting on config log) (served_shortens config) m n e h
