-- ===== src/Gateway/Console/Prompt/Ending.antt =====
-- The loop of `interactive_thread_func` of src/gateway.c ends.
use linux_file_manager.Prelude.{
  Bool, Bool-cases, List, Option, [], ap, arith, false, if◌then◌else◌, inl, inr, length, refl, some,
  subst, suc, sym, zero, ℕ, ◌<◌, ◌∷◌, ◌≡◌, ◌≤◌, ◌⊎◌,
}
use linux_file_manager.Terminal.Consuming.{fgets_takes}
use linux_file_manager.ThreadPool.{Threadpool}
use linux_file_manager.Gateway.{Env, GatewayCtx}
use linux_file_manager.Gateway.Console.Prompt.{
  Prompt, PromptTurn, ask, ended, goes_on, interactive_thread_func, prompt_loop, prompt_read,
  prompt_turn, run_line,
}

-- What a turn leaves: less input, or the end for one of the two reasons.
abbrev Shortens : Prompt → PromptTurn → Type 0
Shortens p (goes_on q) = length q.input < length p.input
Shortens p (ended q) =
    (length q.input ≤ length p.input) × ((q.ctx.running ≡ false) ⊎ (q.input ≡ []))

pub PromptTurn-cases :
    (t : PromptTurn) → ((q : Prompt) × (t ≡ ended q)) ⊎ ((q : Prompt) × (t ≡ goes_on q))
PromptTurn-cases (ended q) = inl (q, refl)
PromptTurn-cases (goes_on q) = inr (q, refl)

module _ (env : Env)
    (meanwhile : GatewayCtx × Option Threadpool → GatewayCtx × Option Threadpool) where
  prompt_read-Shortens :
      (p : Prompt) (input : List ℕ)
      → p.input ≡ input
      → Shortens p (prompt_read env meanwhile p input)
  unfolding prompt_read run_line
  prompt_read-Shortens p [] e = (omega arith, inr e)
  prompt_read-Shortens p (b ∷ bs) e = omega (arith, fgets_takes 62 b bs, ap length e)

  prompt_turn-Shortens : (p : Prompt) → Shortens p (prompt_turn env meanwhile p)
  unfolding prompt_turn ask
  prompt_turn-Shortens p =
      let read : PromptTurn = prompt_read env meanwhile (ask env meanwhile p) p.input in
      let Holds : Bool → Type 0 = λ b. Shortens p (if b then read else ended p) in
      elim (Bool-cases p.ctx.running) [
        | inl on ↦ subst Holds (sym on) (prompt_read-Shortens (ask env meanwhile p) p.input refl)
        | inr off ↦ subst Holds (sym off) (omega arith, inl off)
      ]

  Stopped : Prompt → Option Prompt → Type 0
  Stopped p r =
      (q : Prompt) × (r ≡ some q)
      × (length q.input ≤ length p.input)
      × ((q.ctx.running ≡ false) ⊎ (q.input ≡ []))

  prompt_loop-Stopped :
      (fuel : ℕ) (p : Prompt) → length p.input < fuel → Stopped p (prompt_loop env meanwhile fuel p)
  unfolding prompt_loop Stopped
  prompt_loop-Stopped zero p enough = absurd (omega (arith, enough))
  prompt_loop-Stopped (suc fuel) p enough = elim (PromptTurn-cases (prompt_turn env meanwhile p)) [
    | inl (q, e) ↦
        let (shorter, why) = subst (Shortens p) e (prompt_turn-Shortens p) in
        (q, rw (e, prompt_loop) refl, shorter, why)
    | inr (q, e) ↦
        let shorter : length q.input < length p.input =
          subst (Shortens p) e (prompt_turn-Shortens p) in
        let (r, same, left, why) = prompt_loop-Stopped fuel q (omega (arith, enough, shorter)) in
        (r, rw (e, prompt_loop) same, omega (arith, left, shorter), why)
  ]

  -- The console's thread ends, whatever is typed and whatever the other threads do meanwhile: with one
  -- turn for each byte of the input and one more, it stops because the gateway does not run any longer,
  -- or because the input is at its end. It gives no input back.
  pub interactive_thread_func_ends :
      (p : Prompt)
      → (q : Prompt) × (interactive_thread_func env meanwhile p ≡ some q)
        × (length q.input ≤ length p.input)
        × ((q.ctx.running ≡ false) ⊎ (q.input ≡ []))
  unfolding interactive_thread_func Stopped
  interactive_thread_func_ends p = prompt_loop-Stopped (suc (length p.input)) p (omega arith)
