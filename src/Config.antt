-- ===== src/Config.antt =====
-- include/config.h and src/config.c: the configuration that `config_load` reads. `ini_parse` of the
-- inih library and `atoi` are arguments. The handler's user pointer is the global `config`.
pub mod Entries
pub mod Tests
use linux_file_manager.Prelude.{
  Bool, List, Option, [], false, if◌then◌else◌, none, pos, some, take, text, true, ℕ, ℤ, ◌&&◌, ◌++◌,
  ◌==◌, ◌∷◌,
}
use linux_file_manager.Paths.{get_app_root, path_join}

-- `log_path` and `json_path` are the strings in their 128 bytes.
pub record Config : Type 0 where
  pub log_path : List ℕ
  pub json_path : List ℕ
  pub task_num : ℤ
  pub thread_max : ℤ
  pub thread_min : ℤ

pub record Entry : Type 0 where
  pub section : List ℕ
  pub name : List ℕ
  pub value : List ℕ

-- What `ini_parse` does: it returns -1 when the file cannot be opened, and else calls the handler for
-- each entry in order and returns 0 or the number of the first line with an error.
pub data Parsed : Type 0 where
  no_file : Parsed
  parsed_file : ℕ → List Entry → Parsed

-- `strcmp(a, b) == 0`
pub same : List ℕ → List ℕ → Bool
same [] [] = true
same [] (b ∷ bs) = false
same (a ∷ xs) [] = false
same (a ∷ xs) (b ∷ ys) = a == b && same xs ys

abbrev pub log_name : List ℕ
log_name = b'l' ∷ b'o' ∷ b'g' ∷ []

abbrev pub path_name : List ℕ
path_name = b'p' ∷ b'a' ∷ b't' ∷ b'h' ∷ []

abbrev pub json_path_name : List ℕ
json_path_name = b'j' ∷ b's' ∷ b'o' ∷ b'n' ∷ b'_' ∷ path_name

abbrev pub thread_name : List ℕ
thread_name = b't' ∷ b'h' ∷ b'r' ∷ b'e' ∷ b'a' ∷ b'd' ∷ b'_' ∷ []

abbrev pub thread_pool_name : List ℕ
thread_pool_name = thread_name ++ b'p' ∷ b'o' ∷ b'o' ∷ b'l' ∷ []

abbrev pub task_num_name : List ℕ
task_num_name = b't' ∷ b'a' ∷ b's' ∷ b'k' ∷ b'_' ∷ b'n' ∷ b'u' ∷ b'm' ∷ []

abbrev pub thread_max_name : List ℕ
thread_max_name = thread_name ++ b'm' ∷ b'a' ∷ b'x' ∷ []

abbrev pub thread_min_name : List ℕ
thread_min_name = thread_name ++ b'm' ∷ b'i' ∷ b'n' ∷ []

-- `strncpy(field, value, sizeof(field) - 1)`, behind which the field ends with 0.
abbrev pub copy_path : List ℕ → List ℕ
copy_path value = take 127 value

pub set_log_path : Config → Entry → Config
unfolding same
set_log_path c e = if same e.name path_name then record c { log_path = copy_path e.value } else c

pub set_json_path : Config → Entry → Config
unfolding same
set_json_path c e =
    if same e.name json_path_name then record c { json_path = copy_path e.value } else c

-- `memset(&config, 0, sizeof(Config))`
abbrev pub no_config : Config
no_config = record {
  log_path = [];
  json_path = [];
  task_num = pos 0;
  thread_max = pos 0;
  thread_min = pos 0;
}

module _ (atoi : List ℕ → ℤ) where
  pub set_pool : Config → Entry → Config
  unfolding same
  set_pool c e =
      if same e.name task_num_name
      then record c { task_num = atoi e.value }
      else if same e.name thread_max_name
      then record c { thread_max = atoi e.value }
      else if same e.name thread_min_name
      then record c { thread_min = atoi e.value }
      else c

  -- The result is always 1.
  pub config_handler : Config → Entry → ℕ × Config
  unfolding same set_log_path set_json_path set_pool
  config_handler c e =
      if same e.section log_name
      then (1, set_json_path (set_log_path c e) e)
      else if same e.section thread_pool_name
      then (1, set_pool c e)
      else (1, c)

  unfoldable pub handle_all : Config → List Entry → Config
  unfolding config_handler
  handle_all c [] = c
  handle_all c (e ∷ es) = handle_all (config_handler c e).1 es

  -- The result is 0 (`true`) or -1 (`false`).
  unfoldable pub config_load : Parsed → Bool × Config
  unfolding handle_all
  config_load no_file = (false, no_config)
  config_load (parsed_file error es) = (true, handle_all no_config es)

  -- The file's path; without a program directory `root` keeps the bytes that were there. `read_file` is
  -- what `ini_parse` finds in it.
  unfoldable pub config_init : Option (List ℕ) → List ℕ → (List ℕ → Parsed) → Bool × Config
  unfolding config_load
  config_init exe root read_file =
      let found : List ℕ = elim (get_app_root exe 512) [ none ↦ root | some r ↦ r ] in
      config_load (read_file (path_join 512 found (text "config.ini")))
