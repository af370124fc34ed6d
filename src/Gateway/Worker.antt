-- ===== src/Gateway/Worker.antt =====
-- `client_worker` of src/gateway.c: receiving, splitting the stream into frames, and dispatch.
pub mod Stream
pub mod Table
pub mod Delivery
pub mod Leftover
pub mod Replies
pub mod Frames
use Prim.Native.Nat.{bit_and}
use linux_file_manager.Prelude.{
  false, take, true, ◌-◌, List, Option, [], drop, if◌then◌else◌, length, ltb, none, not, some, suc,
  zero, ℕ, ◌&&◌, ◌*◌, ◌++◌, ◌==◌, ◌∷◌,
}
use linux_file_manager.Protocol.{
  ProtoMessage, incomplete, invalid, parsed, proto_frame_max, proto_max_payload, proto_parse_frame,
}
use linux_file_manager.Gateway.{
  Env, GatewayCtx, HandlerNode, close, cmd_error, cmd_ping, cmd_pong, emit, find_device_by_fd,
  find_handler, flag_heartbeat, flag_response, remove_device, send_frame_raw, shutdown,
  update_device_activity,
}
use linux_file_manager.Gateway.Callbacks.{call_handler}

-- `sizeof(recv_buf)`
abbrev pub recv_buf_size : ℕ
recv_buf_size = proto_frame_max * 4

-- A call that may write outside its buffer has no result (`none`).
infixl 5 ◌>>=◌
abbrev pub ◌>>=◌ {ℓ κ} : {A : Type ℓ} {B : Type κ} → Option A → (A → Option B) → Option B
none >>= f = none
some a >>= f = f a

-- `while (offset < recv_len)` over the bytes from `offset` on, with what a message does as an
-- argument. It returns the bytes that are left at its end. An empty buffer is incomplete too.
module _ {S : Type 0} (on : S → ProtoMessage → Option S) where
  unfoldable pub parse_frames : ℕ → S → List ℕ → Option (S × List ℕ)
  parse_frames zero s buf = some (s, buf)
  parse_frames (suc fuel) s buf = elim (proto_parse_frame (some buf)) [
    | incomplete ↦ some (s, buf)
    | invalid ↦ parse_frames fuel s (drop 1 buf)
    | parsed n m ↦ on s m >>= (λ s'. parse_frames fuel s' (drop n buf))
  ]

  -- Each round takes at least one byte, so the bytes' number is fuel enough.
  unfoldable pub parse_all : S → List ℕ → Option (S × List ℕ)
  unfolding parse_frames
  parse_all s buf = parse_frames (length buf) s buf

  -- `recv(fd, recv_buf + recv_len, sizeof(recv_buf) - recv_len - 1, 0)` on what is to come from the
  -- peer, of which `size` bytes are there at most.
  abbrev pub recv_some : ℕ → List ℕ → List ℕ → List ℕ
  recv_some size rest stream = take size (take (recv_buf_size - length rest - 1) stream)

  -- What `recv` gave, and the loop on it behind the bytes that were left; no bytes, at the end of the
  -- stream or for want of room, end the worker. `again` is the worker from its next `recv` on.
  pub on_piece :
      (S → List ℕ → List ℕ → Option (S × List ℕ × List ℕ))
      → S
      → List ℕ
      → List ℕ
      → List ℕ
      → Option (S × List ℕ × List ℕ)
  on_piece again s rest stream [] = some (s, rest, stream)
  on_piece again s rest stream (x ∷ xs) =
      parse_all s (rest ++ x ∷ xs)
      >>= (λ (s', rest'). again s' rest' (drop (length (x ∷ xs)) stream))

  -- One `recv` after another; `sizes` says how many bytes are there each time. The result has the bytes
  -- that are left in the buffer and those never received.
  pub receive_all : S → List ℕ → List ℕ → List ℕ → Option (S × List ℕ × List ℕ)
  unfolding on_piece
  receive_all s rest stream [] = some (s, rest, stream)
  receive_all s rest stream (size ∷ sizes) =
      on_piece (λ s' rest' later. receive_all s' rest' later sizes) s rest stream
        (recv_some size rest stream)

-- What a round of the worker meets: `select` fails or times out, is interrupted, or `recv`
-- returns no bytes or some.
pub data Round : Type 0 where
  interrupted timed_out failed closed : Round
  received : ℕ → List ℕ → Round

-- The worker's state between rounds: in its loop with the bytes left over, or returned.
pub data Worker : Type 0 where
  looping : GatewayCtx → List ℕ → Worker
  returned : GatewayCtx → Worker
  faulted : Worker

pub worker_exit : GatewayCtx → ℕ → GatewayCtx
worker_exit c fd = emit (remove_device c fd) (shutdown fd ∷ close fd ∷ [])

pub worker_parsed : Option (GatewayCtx × List ℕ) → Worker
worker_parsed none = faulted
worker_parsed (some (c, rest)) = looping c rest

module _ (env : Env) where
  -- The call of a handler, behind the copy of the payload into a buffer of 512 bytes.
  pub dispatch : GatewayCtx → ℕ → ProtoMessage → HandlerNode → Option GatewayCtx
  unfolding call_handler
  dispatch c i m node =
      if ltb proto_max_payload m.payload_len
      then none
      else some (call_handler env c node.handler i m.seq m.payload m.payload_len)

  pub answer : GatewayCtx → ℕ → ℕ → ProtoMessage → Option GatewayCtx
  unfolding dispatch
  answer c fd i m =
      if m.cmd == cmd_ping && not (bit_and m.flags flag_heartbeat == 0)
      then some (send_frame_raw env c fd cmd_pong flag_heartbeat m.seq none 0).1
      else elim (find_handler c m.cmd) [
        | none ↦ some (send_frame_raw env c fd cmd_error flag_response m.seq none 0).1
        | some node ↦ dispatch c i m node
      ]

  -- A complete frame from `fd` at the time `now`.
  unfoldable pub on_message : ℕ → ℕ → GatewayCtx → ProtoMessage → Option GatewayCtx
  unfolding answer
  on_message fd now c m = elim (find_device_by_fd c fd) [
    | none ↦ some c
    | some i ↦ answer (update_device_activity c fd now) fd i m
  ]

  worker_round : ℕ → GatewayCtx → List ℕ → Round → Worker
  worker_round fd c rest interrupted = looping c rest
  worker_round fd c rest timed_out = looping c rest
  worker_round fd c rest failed = returned (worker_exit c fd)
  worker_round fd c rest closed = returned (worker_exit c fd)
  worker_round fd c rest (received now bytes) =
      worker_parsed (parse_all (on_message fd now) c (rest ++ bytes))

  -- `while (ctx->running)`
  unfoldable pub worker_step : ℕ → Worker → Round → Worker
  unfolding worker_round
  worker_step fd (looping c rest) r =
      if c.running then worker_round fd c rest r else returned (worker_exit c fd)
  worker_step fd (returned c) r = returned c
  worker_step fd faulted r = faulted
