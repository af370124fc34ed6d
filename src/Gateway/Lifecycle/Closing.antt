-- ===== src/Gateway/Lifecycle/Closing.antt =====
-- Which sockets `gateway_stop` of src/gateway.c closes.
use linux_file_manager.Prelude.{
  List, [], ap, arith, false, refl, some, suc, ℕ, ◌+◌, ◌<◌, ◌==◌, ◌∙◌, ◌∷◌, ◌≡◌,
}
use linux_file_manager.Gateway.{GatewayCtx, GatewayDevice, close, shutdown}
use linux_file_manager.Gateway.Kept.{closes, closes-append, fds, one_if, times}
use linux_file_manager.Gateway.Lifecycle.{close_devices, gateway_stop}
use linux_file_manager.Gateway.Lifecycle.Laws.{stop_listening}

closes-close_devices :
    (k : ℕ) (ds : List GatewayDevice) → 0 < k → closes k (close_devices ds) ≡ times k (fds ds)
unfolding close_devices
closes-close_devices k [] h = refl
closes-close_devices k (d ∷ ds) h = ground (
  arith,
  closes-close_devices k ds h,
  h,
  closes-append k (shutdown d.fd ∷ close d.fd ∷ []) (close_devices ds),
)

-- The listening socket, and each device's, once for each time that it stands in the table.
pub closes-gateway_stop :
    (k : ℕ) (c : GatewayCtx) (n : ℕ)
    → 0 < k
    → c.stopped ≡ false
    → c.listen_fd ≡ some (suc n)
    → closes k (gateway_stop c).trace
      ≡ closes k c.trace + (one_if (suc n == k) + times k (fds c.devices))
closes-gateway_stop k c n h s e =
    ap (λ (x : GatewayCtx). closes k x.trace) (stop_listening c n s e)
    ∙ omega (
      arith,
      closes-append k c.trace (close (suc n) ∷ close_devices c.devices),
      closes-close_devices k c.devices h,
    )
