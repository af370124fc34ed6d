-- ===== src/Gateway/Threads.antt =====
-- The threads of src/gateway.c between `gateway_run_interactive` and `gateway_stop`, interleaved: the
-- accept thread, a worker for each client, the heartbeat thread and the console. A step is a critical
-- section of `devices_mutex`, or what a thread does between two of them.
pub mod Counting
pub mod Reused
pub mod Others
pub mod Preserved
pub mod Room
pub mod Sockets
pub mod Stopping
pub mod Table
pub mod Tests
use linux_file_manager.Gateway.Heartbeat.Steps.{
  Heart, dropped, heart_step, is_free, resting, sweeping,
}
use linux_file_manager.Prelude.{
  get_elem?, ◌||◌, List, Option, [], false, if◌then◌else◌, none, some, true, ℕ, ◌++◌, ◌==◌, ◌∷◌,
  ◌≡◌,
}
use linux_file_manager.Gateway.{
  send_frame_raw, flag_response, Env, GatewayCtx, add_device, close, emit, find_device_by_fd,
  remove_device, shutdown, update_device_activity,
}
use linux_file_manager.Gateway.Console.{interactive_line}
use linux_file_manager.Gateway.Worker.{answer}
use linux_file_manager.Gateway.Kept.{times}
use linux_file_manager.Protocol.{ProtoMessage}

-- A worker: queued by `threadPoolAdd`, and maybe never started; in its loop; with a message and the index that `find_device_by_fd` gave; the same behind
-- `update_device_activity`; behind the loop; and behind `remove_device`.
pub data Phase : Type 0 where
  queued reading leaving unlisted : Phase
  found touched : ℕ → ProtoMessage → Phase

pub record Conn : Type 0 where
  pub fd : ℕ
  pub phase : Phase

-- `accepting` is the descriptor between `accept` and `add_device`. The kernel has `open_fds` open for
-- clients, and gave out `accepted`, newest first.
pub record Threads : Type 0 where
  pub ctx : GatewayCtx
  pub heart : Heart
  pub accepting : Option ℕ
  pub conns : List Conn
  pub open_fds : List ℕ
  pub accepted : List ℕ

abbrev pub remove_one : ℕ → List ℕ → List ℕ
remove_one fd [] = []
remove_one fd (x ∷ xs) = if x == fd then xs else x ∷ remove_one fd xs

abbrev pub move : Threads → List Conn → Conn → Phase → List Conn → Threads
move s ls w ph rs = record s { conns = ls ++ record w { phase = ph } ∷ rs }

-- The steps but the heartbeat's drops. The kernel accepts with a descriptor that is not open. A worker
-- gets any message. Where its index is behind the table by now, a handler answers to the descriptor `old`
-- of the record that stood there (`reply_stale`).
pub data Step (env : Env) (s : Threads) : Threads → Type 0 where
  accept :
      (fd : ℕ)
      → s.ctx.running ≡ true
      → s.accepting ≡ none
      → times fd s.open_fds ≡ 0
      → Step env s
          (record s { accepting = some fd; open_fds = fd ∷ s.open_fds; accepted = fd ∷ s.accepted })
  enlist :
      (fd : ℕ) (ip : List ℕ) (port now : ℕ) (c : GatewayCtx)
      → s.accepting ≡ some fd
      → is_free s.heart ≡ true
      → add_device s.ctx fd ip port now ≡ (true, c)
      → Step env s (record s {
        ctx = c;
        accepting = none;
        conns = s.conns ++ record { fd = fd; phase = queued } ∷ [];
      })
  refuse :
      (fd : ℕ) (ip : List ℕ) (port now : ℕ) (c : GatewayCtx)
      → s.accepting ≡ some fd
      → is_free s.heart ≡ true
      → add_device s.ctx fd ip port now ≡ (false, c)
      → Step env s (record s {
        ctx = emit c (close fd ∷ []);
        accepting = none;
        open_fds = remove_one fd s.open_fds;
      })
  start :
      (ls : List Conn) (w : Conn) (rs : List Conn)
      → s.conns ≡ ls ++ w ∷ rs
      → w.phase ≡ queued
      → Step env s (move s ls w reading rs)
  find :
      (ls : List Conn) (w : Conn) (rs : List Conn) (i : ℕ) (m : ProtoMessage)
      → s.conns ≡ ls ++ w ∷ rs
      → w.phase ≡ reading
      → is_free s.heart ≡ true
      → find_device_by_fd s.ctx w.fd ≡ some i
      → Step env s (move s ls w (found i m) rs)
  touch :
      (ls : List Conn) (w : Conn) (rs : List Conn) (i : ℕ) (m : ProtoMessage) (now : ℕ)
      → s.conns ≡ ls ++ w ∷ rs
      → w.phase ≡ found i m
      → is_free s.heart ≡ true
      → Step env s
          (record (move s ls w (touched i m) rs) { ctx = update_device_activity s.ctx w.fd now })
  reply :
      (ls : List Conn) (w : Conn) (rs : List Conn) (i : ℕ) (m : ProtoMessage) (c : GatewayCtx)
      → s.conns ≡ ls ++ w ∷ rs
      → w.phase ≡ touched i m
      → answer env s.ctx w.fd i m ≡ some c
      → Step env s (record (move s ls w reading rs) { ctx = c })
  reply_stale :
      (ls : List Conn) (w : Conn) (rs : List Conn) (i : ℕ) (m : ProtoMessage) (old cmd : ℕ)
      (payload : List ℕ) (len : ℕ)
      → s.conns ≡ ls ++ w ∷ rs
      → w.phase ≡ touched i m
      → get_elem? s.ctx.devices i ≡ none
      → Step env s (record (move s ls w reading rs) {
        ctx = (send_frame_raw env s.ctx old cmd flag_response m.seq (some payload) len).1;
      })
  hang_up :
      (ls : List Conn) (w : Conn) (rs : List Conn)
      → s.conns ≡ ls ++ w ∷ rs
      → w.phase ≡ reading
      → Step env s (move s ls w leaving rs)
  unlist :
      (ls : List Conn) (w : Conn) (rs : List Conn)
      → s.conns ≡ ls ++ w ∷ rs
      → w.phase ≡ leaving
      → is_free s.heart ≡ true
      → Step env s (record (move s ls w unlisted rs) { ctx = remove_device s.ctx w.fd })
  finish :
      (ls : List Conn) (w : Conn) (rs : List Conn)
      → s.conns ≡ ls ++ w ∷ rs
      → w.phase ≡ unlisted
      → Step env s (record s {
        ctx = emit s.ctx (shutdown w.fd ∷ close w.fd ∷ []);
        conns = ls ++ rs;
        open_fds = remove_one w.fd s.open_fds;
      })
  begin :
      (now : ℕ)
      → s.heart ≡ resting
      → s.ctx.running ≡ true
      → Step env s (record s { heart = sweeping now 0 })
  beat :
      (old : ℕ)
      → dropped s.heart s.ctx ≡ none
      → Step env s (record s {
        heart = (heart_step env old (s.heart, s.ctx)).0;
        ctx = (heart_step env old (s.heart, s.ctx)).1;
      })
  command :
      (line : List ℕ)
      → is_free s.heart ≡ true
      → Step env s (record s { ctx = interactive_line env s.ctx line })
  quit :
      (k : ℕ) (line : List ℕ)
      → (k == b'q' || k == b'Q') ≡ true
      → Step env s (record s { ctx = interactive_line env s.ctx (k ∷ line) })

-- The heartbeat's drop closes the socket under the mutex.
pub data Drop (env : Env) (s : Threads) : Threads → Type 0 where
  expire :
      (fd old : ℕ)
      → dropped s.heart s.ctx ≡ some fd
      → Drop env s (record s {
        heart = (heart_step env old (s.heart, s.ctx)).0;
        ctx = (heart_step env old (s.heart, s.ctx)).1;
        open_fds = remove_one fd s.open_fds;
      })

-- What is reached without a drop, and with drops too.
pub data Reach (env : Env) (s : Threads) : Threads → Type 0 where
  here : Reach env s s
  next : {t u : Threads} → Reach env s t → Step env t u → Reach env s u

pub data ReachAll (env : Env) (s : Threads) : Threads → Type 0 where
  here_all : ReachAll env s s
  step_all : {t u : Threads} → ReachAll env s t → Step env t u → ReachAll env s u
  drop_all : {t u : Threads} → ReachAll env s t → Drop env t u → ReachAll env s u

-- The threads when they start: no client is there.
abbrev pub started : GatewayCtx → Threads
started c = record {
  ctx = record c { devices = []; trace = [] };
  heart = resting;
  accepting = none;
  conns = [];
  open_fds = [];
  accepted = [];
}
