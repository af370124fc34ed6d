-- ===== src/Server/Tests.antt =====
-- The server's pool of src/menu.c for one configuration.
use linux_file_manager.Prelude.{
  All, [], arith, negsuc, pos, refl, some, text, true, ℕ, ◌∷◌, ◌≡◌, ◌≢◌,
}
use linux_file_manager.Gateway.Tests.{sample_env}
use linux_file_manager.Gateway.{new_device}
use linux_file_manager.Server.Session.{Releases, gateway_server_menu_lem}
use linux_file_manager.Config.{Config, no_config}
use linux_file_manager.ThreadPool.Invariant.{Inv}
use linux_file_manager.Server.{
  ServerCalls, gateway_server_menu, pool_min_of, pool_sizes, server_pool,
}
use linux_file_manager.Server.Sizing.{served, server_pool-Inv}

-- A negative minimum, a maximum under it, and a queue of two places.
abbrev odd_config : Config
odd_config = record no_config { thread_min = negsuc 4; thread_max = pos 1; task_num = pos 2 }

odd_ids : All (λ (t : ℕ). t ≢ 0) (11 ∷ 12 ∷ [])
odd_ids = ground arith

server_pool-Inv_example :
    Inv (served odd_config (0 ∷ 0 ∷ []) (11 ∷ 12 ∷ []))
    × ((served odd_config (0 ∷ 0 ∷ []) (11 ∷ 12 ∷ [])).pool
        ≡ server_pool odd_config (0 ∷ 0 ∷ []) (11 ∷ 12 ∷ []))
unfolding pool_sizes pool_min_of
server_pool-Inv_example =
    server_pool-Inv odd_config (0 ∷ 0 ∷ []) (11 ∷ 12 ∷ []) refl (omega arith) odd_ids

-- Every call succeeds, and a device has connected when the console ends.
abbrev pub sample_calls : ServerCalls
sample_calls = record {
  pool_allocated = true;
  ids_allocated = true;
  locks_ready = true;
  storage = 0 ∷ 0 ∷ [];
  fresh = 11 ∷ 12 ∷ [];
  ctx_allocated = true;
  socket = some 4;
  bound = true;
  listening = true;
  accept = true;
  heartbeat = true;
  console = true;
  env = sample_env;
  meanwhile = λ (c, pool). (record c { devices = new_device 5 [] 4003 100 ∷ [] }, pool);
}

gateway_server_menu_lem_example :
    Releases sample_calls (gateway_server_menu sample_calls odd_config (text "q"))
gateway_server_menu_lem_example =
    gateway_server_menu_lem sample_calls (λ c pool. refl) (ground arith) odd_config (text "q")
