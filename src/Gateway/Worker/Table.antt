-- ===== src/Gateway/Worker/Table.antt =====
-- A worker of src/gateway.c that answers a message leaves the descriptors in the table, and closes no
-- socket.
use Prim.Native.Nat.{bit_and}
use linux_file_manager.Prelude.{
  Bool-cases, Option, Option-cases, inl, inr, ltb, none, not, some, subst, ℕ, ◌&&◌, ◌==◌, ◌≡◌,
}
use linux_file_manager.Gateway.{
  Env, GatewayCtx, HandlerNode, cmd_error, cmd_ping, cmd_pong, find_handler, flag_heartbeat,
  flag_response,
}
use linux_file_manager.Gateway.Kept.{Keeps, send_frame_raw-Keeps}
use linux_file_manager.Gateway.Worker.{answer, dispatch}
use linux_file_manager.Gateway.Callbacks.Table.{call_handler-Keeps}
use linux_file_manager.Protocol.{ProtoMessage, proto_max_payload}

module _ (env : Env) where
  -- What a result keeps, where there is one.
  abbrev KeepsIf : GatewayCtx → Option GatewayCtx → Type 0
  KeepsIf c none = Unit
  KeepsIf c (some c') = Keeps c c'

  dispatch-KeepsIf :
      (c : GatewayCtx) (i : ℕ) (m : ProtoMessage) (node : HandlerNode)
      → KeepsIf c (dispatch env c i m node)
  unfolding dispatch
  dispatch-KeepsIf c i m node = elim (Bool-cases (ltb proto_max_payload m.payload_len)) [
    | inl long ↦ rw long tt
    | inr fits ↦ rw fits (call_handler-Keeps env c node.handler i m.seq m.payload m.payload_len)
  ]

  answer-KeepsIf : (c : GatewayCtx) (fd i : ℕ) (m : ProtoMessage) → KeepsIf c (answer env c fd i m)
  unfolding answer
  answer-KeepsIf c fd i m =
      elim (Bool-cases (m.cmd == cmd_ping && not (bit_and m.flags flag_heartbeat == 0))) [
        | inl beat ↦ rw beat (send_frame_raw-Keeps env c fd cmd_pong flag_heartbeat m.seq none 0)
        | inr other ↦ elim (Option-cases (find_handler c m.cmd)) [
          | inl e ↦
              rw (other, e) (send_frame_raw-Keeps env c fd cmd_error flag_response m.seq none 0)
          | inr (node, e) ↦ rw (other, e) (dispatch-KeepsIf c i m node)
        ]
      ]

  pub answer-Keeps :
      (c c' : GatewayCtx) (fd i : ℕ) (m : ProtoMessage) → answer env c fd i m ≡ some c' → Keeps c c'
  answer-Keeps c c' fd i m e = subst (KeepsIf c) e (answer-KeepsIf c fd i m)
