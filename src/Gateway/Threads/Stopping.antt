-- ===== src/Gateway/Threads/Stopping.antt =====
-- The workers of src/gateway.c behind `gateway_stop`, which closes the sockets that they still have.
use linux_file_manager.Prelude.{
  List, [], ap, arith, false, none, refl, some, suc, sym, ℕ, ◌++◌, ◌+◌, ◌<◌, ◌==◌, ◌∙◌, ◌∷◌, ◌≡◌,
}
use linux_file_manager.Gateway.{
  send_frame_raw, flag_response, Env, GatewayCtx, close, remove_device, shutdown,
  update_device_activity,
}
use linux_file_manager.Gateway.Lifecycle.{gateway_stop}
use linux_file_manager.Gateway.Lifecycle.Closing.{closes-gateway_stop}
use linux_file_manager.Gateway.Lifecycle.Laws.{stop_listening}
use linux_file_manager.Gateway.Kept.{
  send_frame_raw-Keeps, Keeps, closes, closes-append, fds, one_if, times,
  update_device_activity-Keeps,
}
use linux_file_manager.Gateway.Heartbeat.Steps.{Heart, dropped, heart_step, resting}
use linux_file_manager.Gateway.Worker.Table.{answer-Keeps}
use linux_file_manager.Gateway.Threads.Counting.{waits, works, works-append, works_split}
use linux_file_manager.Gateway.Threads.Others.{Meanwhile, drops, is_command, nothing, other}
use linux_file_manager.Gateway.Threads.Preserved.{reach-Inv}
use linux_file_manager.Gateway.Threads.Sockets.{Inv}
use linux_file_manager.Gateway.Threads.{
  reply_stale, start, Conn, Phase, Reach, Step, Threads, accept, beat, begin, command, enlist,
  expire, find, finish, found, hang_up, leaving, move, quit, reading, refuse, reply, started, touch,
  touched, unlist, unlisted,
}

-- Only workers are left; they close each descriptor once more for each worker that has it.
record Winding (s t : Threads) : Type 0 where
  halted : t.ctx.running ≡ false
  alone : t.accepting ≡ none
  at_rest : t.heart ≡ resting
  due : (k : ℕ) → closes k t.ctx.trace + works k t.conns ≡ closes k s.ctx.trace + works k s.conns
  given : t.accepted ≡ s.accepted

module _ (env : Env) (s : Threads) where
  -- A worker that goes on, on a context with the same closed sockets.
  move-Winding :
      (t : Threads) (ls : List Conn) (w : Conn) (rs : List Conn) (ph : Phase) (c : GatewayCtx)
      → t.conns ≡ ls ++ w ∷ rs
      → ((k : ℕ) → closes k c.trace ≡ closes k t.ctx.trace)
      → c.running ≡ t.ctx.running
      → Winding s t
      → Winding s (record (move t ls w ph rs) { ctx = c })
  move-Winding t ls w rs ph c e same on x = record {
    halted = on ∙ x.halted;
    alone = x.alone;
    at_rest = x.at_rest;
    due = λ k. omega (
      arith,
      same k,
      x.due k,
      works_split k t.conns ls w rs e,
      works-append k ls (record w { phase = ph } ∷ rs),
    );
    given = x.given;
  }

  step-Winding :
      {t u : Threads} (step : Step env t u)
      → is_command env step ≡ false
      → Winding s t
      → Winding s u
  unfolding remove_device heart_step
  step-Winding {t} (accept fd running idle fresh) h x = absurd (ground (arith, running, x.halted))
  step-Winding {t} (enlist fd ip port now c waiting free e) h x =
      absurd (ground (arith, waiting, x.alone))
  step-Winding {t} (refuse fd ip port now c waiting free e) h x =
      absurd (ground (arith, waiting, x.alone))
  step-Winding {t} (start ls w rs e at_p) h x =
      move-Winding t ls w rs reading t.ctx e (λ k. refl) refl x
  step-Winding {t} (find ls w rs i m e at_p free hit) h x =
      move-Winding t ls w rs (found i m) t.ctx e (λ k. refl) refl x
  step-Winding {t} (touch ls w rs i m now e at_p free) h x =
      let kept : Keeps t.ctx (update_device_activity t.ctx w.fd now) =
        update_device_activity-Keeps t.ctx w.fd now in
      move-Winding t ls w rs (touched i m) (update_device_activity t.ctx w.fd now) e
        kept.same_closes (ap (λ m. m.2) kept.same_main) x
  step-Winding {t} (reply ls w rs i m c e at_p answered) h x =
      let kept : Keeps t.ctx c = answer-Keeps env t.ctx c w.fd i m answered in
      move-Winding t ls w rs reading c e kept.same_closes (ap (λ m. m.2) kept.same_main) x
  step-Winding {t} (reply_stale ls w rs i m old cmd payload len e at_p stale) h x =
      let kept : Keeps t.ctx
          (send_frame_raw env t.ctx old cmd flag_response m.seq (some payload) len).1 =
        send_frame_raw-Keeps env t.ctx old cmd flag_response m.seq (some payload) len in
      move-Winding t ls w rs reading _ e kept.same_closes (ap (λ m. m.2) kept.same_main) x
  step-Winding {t} (hang_up ls w rs e at_p) h x =
      move-Winding t ls w rs leaving t.ctx e (λ k. refl) refl x
  step-Winding {t} (unlist ls w rs e at_p free) h x =
      move-Winding t ls w rs unlisted (remove_device t.ctx w.fd) e (λ k. refl) refl x
  step-Winding {t} (finish ls w rs e at_p) h x = record {
    halted = x.halted;
    alone = x.alone;
    at_rest = x.at_rest;
    due = λ k. omega (
      arith,
      x.due k,
      works_split k t.conns ls w rs e,
      works-append k ls rs,
      closes-append k t.ctx.trace (shutdown w.fd ∷ close w.fd ∷ []),
    );
    given = x.given;
  }
  step-Winding {t} (begin now asleep running) h x = absurd (ground (arith, running, x.halted))
  step-Winding {t} (beat old stays) h x =
      let still : heart_step env old (t.heart, t.ctx) ≡ (resting, t.ctx) =
        ap (λ (y : Heart). heart_step env old (y, t.ctx)) x.at_rest in
      record {
        halted = ap (λ r. r.1.running) still ∙ x.halted;
        alone = x.alone;
        at_rest = ap (λ r. r.0) still;
        due = λ k. ap (λ r. closes k r.1.trace + works k t.conns) still ∙ x.due k;
        given = x.given;
      }
  step-Winding (command line free) h x = absurd (ground (arith, h))
  step-Winding (quit k line e) h x = absurd (ground (arith, h))

  meanwhile-Winding : {t u : Threads} → Winding s t → Meanwhile env t u → Winding s u
  unfolding dropped
  meanwhile-Winding x nothing = x
  meanwhile-Winding x (other m step h) = step-Winding step h (meanwhile-Winding x m)
  meanwhile-Winding x (drops {t} m (expire fd old e)) =
      let y : Winding s t = meanwhile-Winding x m in
      let rests : dropped resting t.ctx ≡ some fd =
        ap (λ (h : Heart). dropped h t.ctx) (sym y.at_rest) ∙ e in
      absurd (ground (arith, rests))

-- `gateway_stop`, behind the joins of the accept and the heartbeat thread; `left_open` is what is open then.
abbrev pub stopped : Threads → List ℕ → Threads
stopped s left_open = record s { ctx = gateway_stop s.ctx; open_fds = left_open }

-- When the console has ended, and the accept and the heartbeat thread too, none of whose drops closed a
-- socket, on a context that listens on a positive descriptor and was not stopped: in every state behind
-- `gateway_stop`, whatever the workers have done since, nothing more was accepted, and the socket of a
-- client that was in the table has been closed once more than it was accepted, any other as often, but
-- for the workers that have not ended, each of which stands for a close that has not come. A worker whose
-- task the pool still has queued is among these, and its close never comes when the task is never run. This
-- is for positive descriptors other than the listening socket's.
pub stopped_twice :
    (env : Env) (c : GatewayCtx) (s t : Threads) (left_open : List ℕ) (k n : ℕ)
    → Reach env (started c) s
    → s.heart ≡ resting
    → s.accepting ≡ none
    → s.ctx.stopped ≡ false
    → s.ctx.listen_fd ≡ some (suc n)
    → 0 < k
    → (suc n == k) ≡ false
    → Meanwhile env (stopped s left_open) t
    → (t.accepted ≡ s.accepted)
      × (closes k t.ctx.trace + works k t.conns ≡ times k t.accepted + times k (fds s.ctx.devices))
stopped_twice env c s t left_open k n r rests alone going listens positive apart after =
    let inv : Inv s = reach-Inv env c r in
    let wound : Winding (stopped s left_open) t =
      meanwhile-Winding env (stopped s left_open) (at_stop s left_open n rests alone going listens)
        after in
    (
      wound.given,
      omega (
        arith,
        wound.due k,
        closes-gateway_stop k s.ctx n positive going listens,
        ap one_if apart,
        inv.settled k,
        inv.owned k,
        ap (waits k) alone,
        ap (times k) wound.given,
      ),
    )
  where
    at_stop :
        (s : Threads) (left_open : List ℕ) (n : ℕ)
        → s.heart ≡ resting
        → s.accepting ≡ none
        → s.ctx.stopped ≡ false
        → s.ctx.listen_fd ≡ some (suc n)
        → Winding (stopped s left_open) (stopped s left_open)
    at_stop s left_open n rests alone going listens = record {
      halted = ap (λ (x : GatewayCtx). x.running) (stop_listening s.ctx n going listens);
      alone = alone;
      at_rest = rests;
      due = λ k. refl;
      given = refl;
    }
