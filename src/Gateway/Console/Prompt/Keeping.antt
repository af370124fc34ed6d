-- ===== src/Gateway/Console/Prompt/Keeping.antt =====
-- What the console's thread of src/gateway.c leaves to the main thread.
use linux_file_manager.Prelude.{
  Bool, Bool-cases, List, Option, [], if◌then◌else◌, inl, inr, length, none, refl, some, subst, suc,
  sym, zero, ℕ, ◌==◌, ◌||◌, ◌∙◌, ◌∷◌, ◌≡◌,
}
use linux_file_manager.Protocol.{ProtoFrame}
use linux_file_manager.Terminal.{fgets}
use linux_file_manager.ThreadPool.{Threadpool}
use linux_file_manager.Gateway.{Env, GatewayCtx, GatewayDevice, send_built, send_frame_raw}
use linux_file_manager.Gateway.Console.{
  interactive_line, run_command, run_stripped, send_restart, strip_newline,
}
use linux_file_manager.Gateway.Console.Prompt.Ending.{PromptTurn-cases}
use linux_file_manager.Gateway.Console.Prompt.{
  Prompt, PromptTurn, ask, cmd_buf_size, ended, goes_on, interactive_thread_func, prompt_loop,
  prompt_read, prompt_turn, run_line,
}

-- The listening socket and `stopped`.
abbrev pub main_fields : GatewayCtx → Option ℕ × Bool
main_fields c = (c.listen_fd, c.stopped)

module _ (env : Env) where
  send_built-main_fields :
      (c : GatewayCtx) (fd : ℕ) (f : Option ProtoFrame)
      → main_fields (send_built env c fd f).1 ≡ main_fields c
  unfolding send_built
  send_built-main_fields c fd none = refl
  send_built-main_fields c fd (some f) = refl

  send_restart-main_fields :
      (ds : List GatewayDevice) (c : GatewayCtx)
      → main_fields (send_restart env c ds) ≡ main_fields c
  unfolding send_restart send_frame_raw
  send_restart-main_fields [] c = refl
  send_restart-main_fields (d ∷ ds) c =
      send_restart-main_fields ds _ ∙ send_built-main_fields c d.fd _

  run_command-main_fields :
      (c : GatewayCtx) (k : ℕ) → main_fields (run_command env c k) ≡ main_fields c
  unfolding run_command
  run_command-main_fields c k = elim (Bool-cases (k == b'q' || k == b'Q')) [
    | inl quits ↦ rw quits refl
    | inr other ↦ elim (Bool-cases (k == b'r' || k == b'R')) [
      | inl restarts ↦ rw (other, restarts) (send_restart-main_fields c.devices c)
      | inr nothing ↦ rw (other, nothing) refl
    ]
  ]

  run_stripped-main_fields :
      (c : GatewayCtx) (line : List ℕ) → main_fields (run_stripped env c line) ≡ main_fields c
  unfolding run_stripped
  run_stripped-main_fields c [] = refl
  run_stripped-main_fields c (k ∷ line) = run_command-main_fields c k

  interactive_line-main_fields :
      (c : GatewayCtx) (line : List ℕ) → main_fields (interactive_line env c line) ≡ main_fields c
  unfolding interactive_line
  interactive_line-main_fields c line = run_stripped-main_fields c (strip_newline line)

module _ (env : Env) (meanwhile : GatewayCtx × Option Threadpool → GatewayCtx × Option Threadpool)
    (keeps : (c : GatewayCtx) (pool : Option Threadpool)
      → main_fields (meanwhile (c, pool)).0 ≡ main_fields c) where
  abbrev Leaves : Prompt → PromptTurn → Type 0
  Leaves p (goes_on q) = main_fields q.ctx ≡ main_fields p.ctx
  Leaves p (ended q) = main_fields q.ctx ≡ main_fields p.ctx

  prompt_read-Leaves :
      (p a : Prompt) (input : List ℕ)
      → main_fields a.ctx ≡ main_fields p.ctx
      → Leaves p (prompt_read env meanwhile a input)
  unfolding prompt_read run_line
  prompt_read-Leaves p a [] e = e
  prompt_read-Leaves p a (b ∷ bs) e =
      interactive_line-main_fields env a.ctx (fgets cmd_buf_size [] (b ∷ bs)).0 ∙ e

  prompt_turn-Leaves : (p : Prompt) → Leaves p (prompt_turn env meanwhile p)
  unfolding prompt_turn ask
  prompt_turn-Leaves p =
      let read : PromptTurn = prompt_read env meanwhile (ask env meanwhile p) p.input in
      let Holds : Bool → Type 0 = λ b. Leaves p (if b then read else ended p) in
      elim (Bool-cases p.ctx.running) [
        | inl on ↦
            subst Holds (sym on)
              (prompt_read-Leaves p (ask env meanwhile p) p.input (keeps p.ctx p.pool))
        | inr off ↦ subst Holds (sym off) refl
      ]

  abbrev LeavesAt : Prompt → Option Prompt → Type 0
  LeavesAt p none = Unit {0}
  LeavesAt p (some q) = main_fields q.ctx ≡ main_fields p.ctx

  LeavesAt-trans :
      (p q : Prompt) (r : Option Prompt)
      → main_fields q.ctx ≡ main_fields p.ctx
      → LeavesAt q r
      → LeavesAt p r
  LeavesAt-trans p q none e h = tt
  LeavesAt-trans p q (some r) e h = h ∙ e

  prompt_loop-LeavesAt : (fuel : ℕ) (p : Prompt) → LeavesAt p (prompt_loop env meanwhile fuel p)
  unfolding prompt_loop
  prompt_loop-LeavesAt zero p = tt
  prompt_loop-LeavesAt (suc fuel) p = elim (PromptTurn-cases (prompt_turn env meanwhile p)) [
    | inl (q, e) ↦ rw (e, prompt_loop) (subst (Leaves p) e (prompt_turn-Leaves p))
    | inr (q, e) ↦
        rw (e, prompt_loop)
          (LeavesAt-trans p q (prompt_loop env meanwhile fuel q)
            (subst (Leaves p) e (prompt_turn-Leaves p)) (prompt_loop-LeavesAt fuel q))
  ]

  pub interactive_thread_func-main_fields :
      (p q : Prompt)
      → interactive_thread_func env meanwhile p ≡ some q
      → main_fields q.ctx ≡ main_fields p.ctx
  unfolding interactive_thread_func
  interactive_thread_func-main_fields p q e =
      subst (LeavesAt p) e (prompt_loop-LeavesAt (suc (length p.input)) p)
