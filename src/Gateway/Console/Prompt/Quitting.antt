-- ===== src/Gateway/Console/Prompt/Quitting.antt =====
-- The loop of `interactive_thread_func` of src/gateway.c over typed lines, up to the one that quits.
use linux_file_manager.Prelude.{
  All, List, Option, [], ap, arith, false, if◌then◌else◌, length, length-append, refl, some, suc,
  true, zero, ℕ, ◌++◌, ◌+◌, ◌<◌, ◌∙◌, ◌∷◌, ◌≡◌, ◌≤◌,
}
use linux_file_manager.ThreadPool.{Threadpool}
use linux_file_manager.Gateway.{Env, GatewayCtx}
use linux_file_manager.Gateway.Console.Prompt.{
  Prompt, ask, ended, goes_on, interactive_thread_func, prompt_loop, prompt_read, prompt_turn,
}
use linux_file_manager.Gateway.Console.Prompt.Session.{
  IsTyped, StaysOpen, answered, interactive_line_running, prompt_turn-typed, quit_stops, is_quit,
  session, typed_lines,
}

typed_long :
    (lines : List (List ℕ)) (k : ℕ) (word rest : List ℕ)
    → length lines + 1 ≤ length (typed_lines lines ((k ∷ word) ++ b'\n' ∷ rest))
unfolding typed_lines
typed_long [] k word rest = omega arith
typed_long (line ∷ lines) k word rest =
    let more : List ℕ = typed_lines lines ((k ∷ word) ++ b'\n' ∷ rest) in
    omega (arith, typed_long lines k word rest, length-append {0} line (b'\n' ∷ more))

module _ (env : Env)
    (meanwhile : GatewayCtx × Option Threadpool → GatewayCtx × Option Threadpool) where
  loop_goes :
      (fuel : ℕ) (p q : Prompt)
      → prompt_turn env meanwhile p ≡ goes_on q
      → prompt_loop env meanwhile (suc fuel) p ≡ prompt_loop env meanwhile fuel q
  unfolding prompt_loop
  loop_goes fuel p q e = rw (e, prompt_loop) refl

  loop_ended :
      (fuel : ℕ) (p : Prompt)
      → p.ctx.running ≡ false
      → prompt_loop env meanwhile (suc fuel) p ≡ some p
  unfolding prompt_loop prompt_turn
  loop_ended fuel p off =
      let e : prompt_turn env meanwhile p ≡ ended p =
        ap (λ b. if b then prompt_read env meanwhile (ask env meanwhile p) p.input else ended p)
          off in
      rw (e, prompt_loop) refl

  -- The other threads do not stop the gateway.
  module _
      (keeps : (c : GatewayCtx) (pool : Option Threadpool)
        → (meanwhile (c, pool)).0.running ≡ c.running) where
    answered_running :
        (line : List ℕ) (p : Prompt)
        → IsTyped line
        → StaysOpen line
        → p.ctx.running ≡ true
        → (answered env meanwhile line p).ctx.running ≡ true
    unfolding ask
    answered_running line p (h, fits) stays on =
        interactive_line_running env (ask env meanwhile p).ctx line h stays
        ∙ keeps p.ctx p.pool
        ∙ on

    loop_session :
        (lines : List (List ℕ)) (fuel : ℕ) (p : Prompt) (k : ℕ) (word rest : List ℕ)
        → All (λ line. IsTyped line × StaysOpen line) lines
        → is_quit k ≡ true
        → IsTyped (k ∷ word)
        → p.ctx.running ≡ true
        → length lines + 1 < fuel
        → prompt_loop env meanwhile fuel
            (record p { input = typed_lines lines ((k ∷ word) ++ b'\n' ∷ rest) })
          ≡ some (record (answered env meanwhile (k ∷ word) (session env meanwhile lines p)) {
            input = rest;
          })
    unfolding typed_lines session
    loop_session lines zero p k word rest all quit typed on enough = absurd (omega (arith, enough))
    loop_session [] (suc zero) p k word rest all quit typed on enough =
        absurd (omega (arith, enough))
    loop_session [] (suc (suc fuel)) p k word rest all quit typed on enough =
        loop_goes (suc fuel) (record p { input = (k ∷ word) ++ b'\n' ∷ rest })
          (record (answered env meanwhile (k ∷ word) p) { input = rest })
          (prompt_turn-typed env meanwhile p (k ∷ word) rest on typed)
        ∙ loop_ended fuel (record (answered env meanwhile (k ∷ word) p) { input = rest })
            (quit_stops env (ask env meanwhile p).ctx k word quit typed.0)
    loop_session (line ∷ lines) (suc fuel) p k word rest all quit typed on enough =
        loop_goes fuel
          (record p { input = typed_lines (line ∷ lines) ((k ∷ word) ++ b'\n' ∷ rest) })
          (record (answered env meanwhile line p) {
            input = typed_lines lines ((k ∷ word) ++ b'\n' ∷ rest);
          })
          (prompt_turn-typed env meanwhile p line (typed_lines lines ((k ∷ word) ++ b'\n' ∷ rest))
            on all.0.0)
        ∙ loop_session lines fuel (answered env meanwhile line p) k word rest all.1 quit typed
            (answered_running line p all.0.0 all.0.1 on) (omega (arith, enough))

    -- While the gateway runs, where the other threads do not stop it: of lines that are typed, each with
    -- a newline, of at most 62 bytes that are neither newlines nor 0, the console's thread takes each
    -- once, in their order, and does and shows what it says, up to the first that begins with `q` or
    -- `Q`. Then it ends and the gateway runs no longer, and what was typed behind stays in the input.
    pub interactive_thread_func_quits :
        (lines : List (List ℕ)) (p : Prompt) (k : ℕ) (word rest : List ℕ)
        → All (λ line. IsTyped line × StaysOpen line) lines
        → is_quit k ≡ true
        → IsTyped (k ∷ word)
        → p.ctx.running ≡ true
        → (q : Prompt) × (interactive_thread_func env meanwhile
              (record p { input = typed_lines lines ((k ∷ word) ++ b'\n' ∷ rest) })
            ≡ some q)
          × (q ≡ record (answered env meanwhile (k ∷ word) (session env meanwhile lines p)) {
            input = rest;
          })
          × (q.ctx.running ≡ false)
    unfolding interactive_thread_func
    interactive_thread_func_quits lines p k word rest all quit typed on = (
      record (answered env meanwhile (k ∷ word) (session env meanwhile lines p)) { input = rest },
      loop_session lines (suc (length (typed_lines lines ((k ∷ word) ++ b'\n' ∷ rest)))) p k word
          rest all quit typed on (omega (arith, typed_long lines k word rest)),
      refl,
      quit_stops env (ask env meanwhile (session env meanwhile lines p)).ctx k word quit typed.0,
    )
