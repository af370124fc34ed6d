-- ===== src/Gateway/Console/Prompt/Tests.antt =====
-- The prompt of src/gateway.c at concrete input.
use mathlib.Core.Option
use linux_file_manager.Prelude.{
  All, List, Option, [], arith, false, length, none, refl, some, text, ℕ, ◌++◌, ◌∷◌, ◌≡◌, ◌≤◌, ◌⊎◌,
}
use linux_file_manager.Terminal.{fgets, take_line}
use linux_file_manager.Gateway.Console.{interactive_line, run_command, run_stripped, strip_newline}
use linux_file_manager.ThreadPool.{Threadpool}
use linux_file_manager.Gateway.{GatewayCtx}
use linux_file_manager.Gateway.Tests.{sample_ctx, sample_env}
use linux_file_manager.Gateway.Console.Prompt.{
  Prompt, ask, interactive_thread_func, prompt_loop, prompt_read, prompt_turn, run_line,
}
use linux_file_manager.Gateway.Console.Prompt.Ending.{interactive_thread_func_ends}
use linux_file_manager.Gateway.Console.Prompt.Quitting.{interactive_thread_func_quits}
use linux_file_manager.Gateway.Console.Prompt.Session.{
  IsTyped, StaysOpen, answered, session, typed_lines,
}

-- The other threads do nothing.
abbrev quiet : GatewayCtx × Option Threadpool → GatewayCtx × Option Threadpool
quiet s = s

abbrev prompt_at : List ℕ → Prompt
prompt_at input = record { ctx = sample_ctx; pool = none; input = input; shown = [] }

interactive_thread_func_ends_example :
    (q : Prompt) × (interactive_thread_func sample_env quiet (prompt_at (text "r\nh\n")) ≡ some q)
    × (length q.input ≤ 4)
    × ((q.ctx.running ≡ false) ⊎ (q.input ≡ []))
interactive_thread_func_ends_example =
    interactive_thread_func_ends sample_env quiet (prompt_at (text "r\nh\n"))

restart_fits : All (λ line. IsTyped line × StaysOpen line) (text "r" ∷ [] ∷ [])
restart_fits = ground arith

quit_fits : IsTyped (text "quit")
quit_fits = ground arith

interactive_thread_func_quits_example :
    (q : Prompt) × (interactive_thread_func sample_env quiet (prompt_at (text "r\n\nquit\n0\n"))
      ≡ some q)
    × (q
        ≡ record (answered sample_env quiet
            (text "quit")
            (session sample_env quiet (text "r" ∷ [] ∷ []) (prompt_at []))) { input = text "0\n" })
    × (q.ctx.running ≡ false)
unfolding typed_lines
interactive_thread_func_quits_example =
    interactive_thread_func_quits sample_env quiet (λ c pool. refl) (text "r" ∷ [] ∷ [])
      (prompt_at []) b'q' (text "uit") (text "0\n") restart_fits refl quit_fits refl

-- A line of 63 bytes before a `q`: `fgets` gives the 63 bytes first and then the `q` as a line of its
-- own, which stops the gateway.
long_line : List ℕ
long_line =
    text "list the devices of the gateway, and then ask for status: quiet" ++ text "q, please\n"

long_line_quits :
    Option.map
      (λ (q : Prompt). q.ctx.running)
      (interactive_thread_func sample_env quiet (prompt_at long_line))
    ≡ some false
unfolding long_line interactive_thread_func prompt_loop prompt_turn ask prompt_read run_line fgets
    take_line interactive_line strip_newline run_stripped run_command
long_line_quits = refl
