-- ===== src/Config/Tests.antt =====
-- A configuration file as src/config.c reads it.
use linux_file_manager.Prelude.{List, [], pos, refl, true, ℕ, ℤ, ◌-◌, ◌∷◌, ◌≡◌}
use linux_file_manager.Config.{
  Entry, config_handler, config_load, copy_path, handle_all, json_path_name, log_name, parsed_file,
  path_name, same, set_json_path, set_log_path, set_pool, task_num_name, thread_max_name,
  thread_min_name, thread_pool_name,
}
use linux_file_manager.Config.Entries.{config_load_lem, last_value}

-- One digit, as `atoi` reads it.
digit : List ℕ → ℤ
digit [] = pos 0
digit (b ∷ bs) = pos (b - b'0')

abbrev sample_file : List Entry
sample_file =
    record { section = thread_pool_name; name = thread_min_name; value = b'3' ∷ [] }
    ∷ record { section = log_name; name = path_name; value = b'a' ∷ [] }
    ∷ record { section = thread_pool_name; name = thread_min_name; value = b'4' ∷ [] }
    ∷ []

config_load_lem_example :
    ((config_load digit (parsed_file 0 sample_file)).0 ≡ true)
    × ((config_load digit (parsed_file 0 sample_file)).1.log_path
        ≡ last_value copy_path [] log_name path_name sample_file)
    × ((config_load digit (parsed_file 0 sample_file)).1.json_path
        ≡ last_value copy_path [] log_name json_path_name sample_file)
    × ((config_load digit (parsed_file 0 sample_file)).1.task_num
        ≡ last_value digit (pos 0) thread_pool_name task_num_name sample_file)
    × ((config_load digit (parsed_file 0 sample_file)).1.thread_max
        ≡ last_value digit (pos 0) thread_pool_name thread_max_name sample_file)
    × ((config_load digit (parsed_file 0 sample_file)).1.thread_min
        ≡ last_value digit (pos 0) thread_pool_name thread_min_name sample_file)
config_load_lem_example = config_load_lem digit 0 sample_file

thread_min_4 : (config_load digit (parsed_file 0 sample_file)).1.thread_min ≡ pos 4
unfolding config_load handle_all config_handler set_pool set_log_path set_json_path same digit
thread_min_4 = refl
