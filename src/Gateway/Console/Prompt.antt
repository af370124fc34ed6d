-- ===== src/Gateway/Console/Prompt.antt =====
-- The loop of `interactive_thread_func` of src/gateway.c over the bytes that are typed.
pub mod Ending
pub mod Keeping
pub mod Quitting
pub mod Session
pub mod Tests
use linux_file_manager.Prelude.{
  List, Option, [], if◌then◌else◌, length, none, some, suc, zero, ℕ, ◌++◌, ◌∷◌,
}
use linux_file_manager.Terminal.{Output, cut_newline, fgets, printed}
use linux_file_manager.ThreadPool.{Threadpool}
use linux_file_manager.Gateway.{Env, GatewayCtx}
use linux_file_manager.Gateway.Console.{interactive_line}
use linux_file_manager.Gateway.Console.Status.{line_lines}

-- The context, the pool, the input that is still to come, and what was printed.
pub record Prompt : Type 0 where
  pub ctx : GatewayCtx
  pub pool : Option Threadpool
  pub input : List ℕ
  pub shown : List Output

pub data PromptTurn : Type 0 where
  goes_on ended : Prompt → PromptTurn

-- `sizeof(cmd_buf)`
abbrev pub cmd_buf_size : ℕ
cmd_buf_size = 64

-- `meanwhile` is what the other threads do to the context and the pool while the console waits for a
-- line.
module _ (env : Env)
    (meanwhile : GatewayCtx × Option Threadpool → GatewayCtx × Option Threadpool) where
  pub ask : Prompt → Prompt
  ask p = record p {
    ctx = (meanwhile (p.ctx, p.pool)).0;
    pool = (meanwhile (p.ctx, p.pool)).1;
    shown = p.shown ++ printed "gateway> " ∷ [];
  }

  -- What `fgets` took, with the input behind it.
  pub run_line : Prompt → List ℕ × List ℕ → Prompt
  unfolding interactive_line line_lines
  run_line p (line, left) = record p {
    ctx = interactive_line env p.ctx line;
    input = left;
    shown = p.shown ++ line_lines p.pool p.ctx (cut_newline line);
  }

  -- `fgets` gives NULL at the end of the input.
  pub prompt_read : Prompt → List ℕ → PromptTurn
  unfolding run_line
  prompt_read p [] = ended p
  prompt_read p (b ∷ bs) = goes_on (run_line p (fgets cmd_buf_size [] (b ∷ bs)))

  pub prompt_turn : Prompt → PromptTurn
  unfolding ask prompt_read
  prompt_turn p = if p.ctx.running then prompt_read (ask p) p.input else ended p

  -- `none` is the loop still running.
  pub prompt_loop : ℕ → Prompt → Option Prompt
  unfolding prompt_turn
  prompt_loop zero p = none
  prompt_loop (suc fuel) p = elim (prompt_turn p) [
    | ended q ↦ some q
    | goes_on q ↦ prompt_loop fuel q
  ]

  -- Each turn takes at least one byte of the input.
  pub interactive_thread_func : Prompt → Option Prompt
  unfolding prompt_loop
  interactive_thread_func p = prompt_loop (suc (length p.input)) p
