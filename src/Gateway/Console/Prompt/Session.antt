-- ===== src/Gateway/Console/Prompt/Session.antt =====
-- A session at the prompt of src/gateway.c: lines, and then the one that quits.
use linux_file_manager.Prelude.{
  ==-false, Bool, Bool-cases, List, Option, [], ap, arith, false, if◌then◌else◌, inl, inr, length,
  none, refl, some, sym, true, ℕ, ◌++◌, ◌+◌, ◌<◌, ◌==◌, ◌||◌, ◌∙◌, ◌∷◌, ◌≡◌,
}
use linux_file_manager.Protocol.{ProtoFrame}
use linux_file_manager.Terminal.Lines.{IsLine, cut_newline-line, fgets-typed, take_line-typed}
use linux_file_manager.Terminal.{fgets}
use linux_file_manager.ThreadPool.{Threadpool}
use linux_file_manager.Gateway.{Env, GatewayCtx, GatewayDevice, send_built, send_frame_raw}
use linux_file_manager.Gateway.Console.{
  interactive_line, run_command, run_stripped, send_restart, strip_newline,
}
use linux_file_manager.Gateway.Console.Status.{line_lines}
use linux_file_manager.Gateway.Console.Prompt.{
  Prompt, ask, cmd_buf_size, ended, goes_on, prompt_read, prompt_turn, run_line,
}

-- A line that fits the buffer with its newline.
abbrev pub IsTyped : List ℕ → Type 0
IsTyped line = IsLine line × (length line + 1 < cmd_buf_size)

abbrev pub is_quit : ℕ → Bool
is_quit k = k == b'q' || k == b'Q'

abbrev pub StaysOpen : List ℕ → Type 0
StaysOpen [] = Unit {0}
StaysOpen (k ∷ line) = is_quit k ≡ false

-- What is typed: each line with its newline, and then the rest.
unfoldable pub typed_lines : List (List ℕ) → List ℕ → List ℕ
typed_lines [] rest = rest
typed_lines (line ∷ lines) rest = line ++ b'\n' ∷ typed_lines lines rest

strip_newline-line : (line : List ℕ) → IsLine line → strip_newline (line ++ b'\n' ∷ []) ≡ line
unfolding strip_newline
strip_newline-line [] h = refl
strip_newline-line (b ∷ line) h = rw (==-false b b'\n' h.0.0, strip_newline-line line h.1) refl

strip_newline-plain : (line : List ℕ) → IsLine line → strip_newline line ≡ line
unfolding strip_newline
strip_newline-plain [] h = refl
strip_newline-plain (b ∷ line) h = rw (==-false b b'\n' h.0.0, strip_newline-plain line h.1) refl

interactive_line-newline :
    (env : Env) (c : GatewayCtx) (line : List ℕ)
    → IsLine line
    → interactive_line env c (line ++ b'\n' ∷ []) ≡ interactive_line env c line
unfolding interactive_line
interactive_line-newline env c line h =
    ap (run_stripped env c) (strip_newline-line line h ∙ sym (strip_newline-plain line h))

fgets-line :
    (line rest : List ℕ)
    → IsTyped line
    → fgets cmd_buf_size [] (line ++ b'\n' ∷ rest) ≡ (line ++ b'\n' ∷ [], rest)
fgets-line line rest (h, fits) =
    fgets-typed cmd_buf_size [] line rest ∙ take_line-typed line rest 63 h (omega (arith, fits))

module _ (env : Env) where
  send_built_running :
      (c : GatewayCtx) (fd : ℕ) (f : Option ProtoFrame)
      → (send_built env c fd f).1.running ≡ c.running
  unfolding send_built
  send_built_running c fd none = refl
  send_built_running c fd (some f) = refl

  send_restart_running :
      (ds : List GatewayDevice) (c : GatewayCtx) → (send_restart env c ds).running ≡ c.running
  unfolding send_restart send_frame_raw
  send_restart_running [] c = refl
  send_restart_running (d ∷ ds) c = send_restart_running ds _ ∙ send_built_running c d.fd _

  run_stripped_running :
      (c : GatewayCtx) (line : List ℕ)
      → StaysOpen line
      → (run_stripped env c line).running ≡ c.running
  unfolding run_stripped run_command
  run_stripped_running c [] stays = refl
  run_stripped_running c (k ∷ line) stays = elim (Bool-cases (k == b'r' || k == b'R')) [
    | inl restarts ↦ rw (stays, restarts) (send_restart_running c.devices c)
    | inr other ↦ rw (stays, other) refl
  ]

  -- A line that does not quit leaves the gateway running.
  pub interactive_line_running :
      (c : GatewayCtx) (line : List ℕ)
      → IsLine line
      → StaysOpen line
      → (interactive_line env c line).running ≡ c.running
  unfolding interactive_line
  interactive_line_running c line h stays =
      ap (λ l. (run_stripped env c l).running) (strip_newline-plain line h)
      ∙ run_stripped_running c line stays

  pub quit_stops :
      (c : GatewayCtx) (k : ℕ) (word : List ℕ)
      → is_quit k ≡ true
      → IsLine (k ∷ word)
      → (interactive_line env c (k ∷ word)).running ≡ false
  unfolding interactive_line run_stripped run_command
  quit_stops c k word quit h =
      ap (λ l. (run_stripped env c l).running) (strip_newline-plain (k ∷ word) h) ∙ rw quit refl

module _ (env : Env)
    (meanwhile : GatewayCtx × Option Threadpool → GatewayCtx × Option Threadpool) where
  -- What a line does and shows, with the prompt before it.
  abbrev pub answered : List ℕ → Prompt → Prompt
  answered line p = record (ask env meanwhile p) {
    ctx = interactive_line env (ask env meanwhile p).ctx line;
    shown =
        (ask env meanwhile p).shown
        ++ line_lines (ask env meanwhile p).pool (ask env meanwhile p).ctx line;
  }

  unfoldable pub session : List (List ℕ) → Prompt → Prompt
  session [] p = p
  session (line ∷ lines) p = session lines (answered line p)

  run_line-typed :
      (p : Prompt) (line rest : List ℕ)
      → IsTyped line
      → run_line env meanwhile p (line ++ b'\n' ∷ [], rest) ≡ record p {
        ctx = interactive_line env p.ctx line;
        input = rest;
        shown = p.shown ++ line_lines p.pool p.ctx line;
      }
  unfolding run_line
  run_line-typed p line rest (h, fits) =
      rw (interactive_line-newline env p.ctx line h, cut_newline-line line h) refl

  prompt_read-typed :
      (p : Prompt) (line rest : List ℕ)
      → prompt_read env meanwhile p (line ++ b'\n' ∷ rest)
        ≡ goes_on (run_line env meanwhile p (fgets cmd_buf_size [] (line ++ b'\n' ∷ rest)))
  unfolding prompt_read
  prompt_read-typed p [] rest = refl
  prompt_read-typed p (b ∷ line) rest = refl

  pub prompt_turn-typed :
      (p : Prompt) (line rest : List ℕ)
      → p.ctx.running ≡ true
      → IsTyped line
      → prompt_turn env meanwhile (record p { input = line ++ b'\n' ∷ rest })
        ≡ goes_on (record (answered line p) { input = rest })
  unfolding prompt_turn ask
  prompt_turn-typed p line rest on typed =
      let q : Prompt = record p { input = line ++ b'\n' ∷ rest } in
      ap (λ b. if b then prompt_read env meanwhile (ask env meanwhile q) q.input else ended q) on
      ∙ prompt_read-typed (ask env meanwhile q) line rest
      ∙ ap (λ r. goes_on (run_line env meanwhile (ask env meanwhile q) r))
          (fgets-line line rest typed)
      ∙ ap goes_on (run_line-typed (ask env meanwhile q) line rest typed)
