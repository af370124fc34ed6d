-- ===== src/Gateway/Scenarios.antt =====
-- The heartbeat, the start and stop, and the prompt of src/gateway.c at concrete contexts.
use linux_file_manager.Prelude.{[], arith, none, refl, ◌∷◌, ◌≡◌}
use linux_file_manager.Gateway.Registry.{lookup_fd}
use linux_file_manager.Gateway.Tests.{
  sample_buffer, sample_ctx, sample_ctx-IsValid, sample_env, sample_frame, sensor,
}
use linux_file_manager.Gateway.Heartbeat.{heartbeat_sweep}
use linux_file_manager.Gateway.Heartbeat.Sweep.{effects, heartbeat_sweep_lem, survivors}
use linux_file_manager.Gateway.Heartbeat.Timeout.{heartbeat_timeout, sweeps}

heartbeat_sweep_lem_example : heartbeat_sweep sample_env sample_ctx 115 ≡ record sample_ctx {
  devices = survivors 115 sample_ctx.devices;
  trace = effects 115 sample_ctx.devices;
}
heartbeat_sweep_lem_example =
    heartbeat_sweep_lem sample_env sample_buffer sample_frame sample_ctx 115

heartbeat_timeout_example :
    lookup_fd 5 (sweeps sample_env sample_ctx (140 ∷ 150 ∷ 160 ∷ 170 ∷ [])).devices ≡ none
unfolding lookup_fd
heartbeat_timeout_example =
    heartbeat_timeout sample_env sample_buffer sample_frame sample_ctx (140 ∷ 150 ∷ 160 ∷ 170 ∷ [])
      5 sensor sample_ctx-IsValid refl (omega arith) (omega arith) (omega arith)
