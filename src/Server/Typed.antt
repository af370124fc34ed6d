-- ===== src/Server/Typed.antt =====
-- What the gateway server of src/menu.c takes of the input.
use linux_file_manager.Prelude.{
  All, Bool, Bool-cases, List, Option, [], ap, arith, if◌then◌else◌, inl, inr, length, none, refl,
  some, subst, suc, sym, true, ℕ, ◌&&◌, ◌++◌, ◌∙◌, ◌∷◌, ◌≡◌, ◌≤◌,
}
use linux_file_manager.Terminal.Consuming.{wait_enter_shortens}
use linux_file_manager.Config.{Config, same}
use linux_file_manager.ThreadPool.{Threadpool}
use linux_file_manager.Gateway.Callbacks.{register_handlers}
use linux_file_manager.Gateway.Console.Prompt.Ending.{interactive_thread_func_ends}
use linux_file_manager.Gateway.Console.Prompt.Quitting.{interactive_thread_func_quits}
use linux_file_manager.Gateway.Console.Prompt.Session.{IsTyped, StaysOpen, is_quit, typed_lines}
use linux_file_manager.Gateway.Console.Prompt.{Prompt, interactive_thread_func}
use linux_file_manager.Gateway.Lifecycle.Laws.{gateway_init_opens, gateway_run_started}
use linux_file_manager.Gateway.Lifecycle.{fresh_ctx, gateway_init, gateway_run_interactive}
use linux_file_manager.Gateway.{Effect, GatewayCtx}
use linux_file_manager.Server.{
  PoolStart, ServerCalls, at_prompt, close_server, create_pool, freed_unset, gateway_opened,
  gateway_server_menu, get_or_else, left_input, pool_made, pool_opened, pool_refused, run_server,
  server_pool,
}

abbrev pub IsShorter : List ℕ → Option (List ℕ) → Type 0
IsShorter input none = Unit {0}
IsShorter input (some rest) = length rest ≤ length input

module _ (calls : ServerCalls) where
  run_server_shortens :
      (pool : Threadpool) (input : List ℕ) (c : GatewayCtx)
      → length (run_server calls pool input c).input ≤ length input
  unfolding run_server get_or_else
  run_server_shortens pool input c =
      let start : Prompt =
        at_prompt pool input
          (gateway_run_interactive c true calls.accept calls.heartbeat calls.console) in
      let (q, ends, left, why) = interactive_thread_func_ends calls.env calls.meanwhile start in
      let end : Option Prompt = interactive_thread_func calls.env calls.meanwhile start in
      let Holds : Bool → Type 0 =
        λ b. length (if b then get_or_else start end else start).input ≤ length input in
      elim (Bool-cases (calls.accept && calls.heartbeat && calls.console)) [
        | inl all ↦
            subst Holds (sym all)
              (subst (λ r. length (get_or_else start r).input ≤ length input) (sym ends) left)
        | inr some_failed ↦ subst Holds (sym some_failed) (omega arith)
      ]

  gateway_opened-IsShorter :
      (pool : Threadpool) (input : List ℕ) (r : Option GatewayCtx × List Effect)
      → IsShorter input (left_input (gateway_opened calls pool input r))
  unfolding gateway_opened close_server left_input
  gateway_opened-IsShorter pool input (none, es) = wait_enter_shortens input
  gateway_opened-IsShorter pool input (some c, es) =
      run_server_shortens pool input (register_handlers c)

  pool_opened-IsShorter :
      (input : List ℕ) (start : PoolStart)
      → IsShorter input (left_input (pool_opened calls input start))
  unfolding pool_opened left_input
  pool_opened-IsShorter input pool_refused = wait_enter_shortens input
  pool_opened-IsShorter input freed_unset = tt
  pool_opened-IsShorter input (pool_made pool) = gateway_opened-IsShorter pool input _

  -- However its calls end, the server gives no input back.
  pub gateway_server_menu-IsShorter :
      (config : Config) (input : List ℕ)
      → IsShorter input (left_input (gateway_server_menu calls config input))
  unfolding gateway_server_menu
  gateway_server_menu-IsShorter config input = pool_opened-IsShorter input _

-- Every call succeeds, and the socket's number is positive.
pub record Succeeds (calls : ServerCalls) (n : ℕ) : Type 0 where
  pub pool_ok :
      (calls.pool_allocated ≡ true) × (calls.ids_allocated ≡ true) × (calls.locks_ready ≡ true)
  pub ctx_ok : calls.ctx_allocated ≡ true
  pub socket_ok : calls.socket ≡ some (suc n)
  pub listens : (calls.bound ≡ true) × (calls.listening ≡ true)
  pub threads_ok : (calls.accept ≡ true) × (calls.heartbeat ≡ true) × (calls.console ≡ true)

module _ (calls : ServerCalls) (n : ℕ) (well : Succeeds calls n) where
  server_opened :
      (config : Config) (input : List ℕ)
      → gateway_server_menu calls config input
        ≡ gateway_opened calls
            (server_pool config calls.storage calls.fresh)
            input
            (some (fresh_ctx 6789 (suc n)), [])
  unfolding gateway_server_menu create_pool pool_opened
  server_opened config input =
      let pool : Threadpool = server_pool config calls.storage calls.fresh in
      ap (pool_opened calls input) (
        ap (λ a. create_pool a calls.ids_allocated calls.locks_ready pool) well.pool_ok.0
        ∙ ap (λ i. create_pool true i calls.locks_ready pool) well.pool_ok.1
        ∙ ap (λ l. create_pool true true l pool) well.pool_ok.2)
      ∙ ap (gateway_opened calls pool input) (
          ap (λ a. gateway_init 6789 a calls.socket calls.bound calls.listening) well.ctx_ok
          ∙ ap (λ s. gateway_init 6789 true s calls.bound calls.listening) well.socket_ok
          ∙ ap (λ b. gateway_init 6789 true (some (suc n)) b calls.listening) well.listens.0
          ∙ ap (λ l. gateway_init 6789 true (some (suc n)) true l) well.listens.1
          ∙ gateway_init_opens 6789 (suc n))

  run_started :
      (c : GatewayCtx) (fd : ℕ)
      → c.listen_fd ≡ some fd
      → (gateway_run_interactive c true calls.accept calls.heartbeat calls.console).running ≡ true
  run_started c fd e =
      ap (λ a. (gateway_run_interactive c true a calls.heartbeat calls.console).running)
        well.threads_ok.0
      ∙ ap (λ h. (gateway_run_interactive c true true h calls.console).running) well.threads_ok.1
      ∙ ap (λ k. (gateway_run_interactive c true true true k).running) well.threads_ok.2
      ∙ ap (λ (x : GatewayCtx). x.running) (gateway_run_started c fd true e)

  all_threads : (calls.accept && calls.heartbeat && calls.console) ≡ true
  all_threads = ground (arith, well.threads_ok.0, well.threads_ok.1, well.threads_ok.2)

  module _
      (keeps : (c : GatewayCtx) (pool : Option Threadpool)
        → (calls.meanwhile (c, pool)).0.running ≡ c.running) where
    run_server_quits :
        (pool : Threadpool) (c : GatewayCtx) (fd : ℕ) (lines : List (List ℕ)) (k : ℕ)
        (word rest : List ℕ)
        → c.listen_fd ≡ some fd
        → All (λ line. IsTyped line × StaysOpen line) lines
        → is_quit k ≡ true
        → IsTyped (k ∷ word)
        → (run_server calls pool (typed_lines lines ((k ∷ word) ++ b'\n' ∷ rest)) c).input ≡ rest
    unfolding run_server get_or_else
    run_server_quits pool c fd lines k word rest e all quit typed =
        let input : List ℕ = typed_lines lines ((k ∷ word) ++ b'\n' ∷ rest) in
        let run : GatewayCtx =
          gateway_run_interactive c true calls.accept calls.heartbeat calls.console in
        let (q, ends, same, off) =
          interactive_thread_func_quits calls.env calls.meanwhile keeps lines
            (at_prompt pool [] run) k word rest all quit typed (run_started c fd e) in
        ap
          (λ b.
            (if b
              then get_or_else (at_prompt pool input run)
                  (interactive_thread_func calls.env calls.meanwhile (at_prompt pool input run))
              else at_prompt pool input run).input)
          all_threads
        ∙ ap (λ r. (get_or_else (at_prompt pool input run) r).input) ends
        ∙ ap (λ (p : Prompt). p.input) same

    -- When every call of the server succeeds and the other threads do not stop the gateway: of lines
    -- that are typed, up to the first that begins with `q` or `Q`, the server takes each, and leaves
    -- what was typed behind them to the menu.
    pub gateway_server_menu_quits :
        (config : Config) (lines : List (List ℕ)) (k : ℕ) (word rest : List ℕ)
        → All (λ line. IsTyped line × StaysOpen line) lines
        → is_quit k ≡ true
        → IsTyped (k ∷ word)
        → left_input
            (gateway_server_menu calls config (typed_lines lines ((k ∷ word) ++ b'\n' ∷ rest)))
          ≡ some rest
    unfolding gateway_opened close_server left_input register_handlers
    gateway_server_menu_quits config lines k word rest all quit typed =
        let pool : Threadpool = server_pool config calls.storage calls.fresh in
        ap left_input (server_opened config (typed_lines lines ((k ∷ word) ++ b'\n' ∷ rest)))
        ∙ ap some (
            run_server_quits pool (register_handlers (fresh_ctx 6789 (suc n))) (suc n) lines k word
              rest refl all quit typed)
