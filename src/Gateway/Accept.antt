-- ===== src/Gateway/Accept.antt =====
-- `accept_thread_func` of src/gateway.c: one turn of its loop.
pub mod Turns
use linux_file_manager.Prelude.{Bool, List, [], false, if◌then◌else◌, true, ℕ, ◌∷◌}
use linux_file_manager.Gateway.{GatewayCtx, add_device, close, emit}

-- What a turn meets. `still` is `ctx->running` when it is read again after an error; `select` and
-- `accept` fail with EINTR or another error.
pub data AcceptRound : Type 0 where
  select_interrupted select_failed accept_failed : Bool → AcceptRound
  no_client : AcceptRound
  client : ℕ → List ℕ → ℕ → ℕ → AcceptRound

-- The thread goes on, with or without a worker that it started for a descriptor, or it returns. A
-- worker is a task for the pool, or a thread of its own when there is no pool.
pub data AcceptTurn : Type 0 where
  goes_on ended : GatewayCtx → AcceptTurn
  started_worker : ℕ → GatewayCtx → AcceptTurn

pub accept_added : ℕ → Bool × GatewayCtx → AcceptTurn
accept_added fd (true, c) = started_worker fd c
accept_added fd (false, c) = goes_on (emit c (close fd ∷ []))

pub accept_ready : GatewayCtx → AcceptRound → AcceptTurn
unfolding accept_added
accept_ready c (select_interrupted still) = if still then goes_on c else ended c
accept_ready c (select_failed still) = ended c
accept_ready c (accept_failed still) = if still then goes_on c else ended c
accept_ready c no_client = goes_on c
accept_ready c (client fd ip port now) = accept_added fd (add_device c fd ip port now)

-- `while (ctx->running)`
pub accept_turn : GatewayCtx → AcceptRound → AcceptTurn
unfolding accept_ready
accept_turn c r = if c.running then accept_ready c r else ended c
