-- ===== src/Config/Entries.antt =====
-- What src/config.c makes of a file: each field comes from the last entry of its key.
use linux_file_manager.Prelude.{
  Bool-cases, List, [], ap₂, arith, false, if◌then◌else◌, inl, inr, pos, refl, subst, sym, true, ℕ,
  ℤ, ◌&&◌, ◌∷◌, ◌≡◌,
}
use linux_file_manager.Config.{
  Config, Entry, config_handler, config_load, copy_path, handle_all, json_path_name, log_name,
  no_config, parsed_file, path_name, same, set_json_path, set_log_path, set_pool, task_num_name,
  thread_max_name, thread_min_name, thread_pool_name,
}

same_eq : (xs ys : List ℕ) → same xs ys ≡ true → xs ≡ ys
unfolding same
same_eq [] [] h = refl
same_eq [] (y ∷ ys) h = absurd (ground (arith, h))
same_eq (x ∷ xs) [] h = absurd (ground (arith, h))
same_eq (x ∷ xs) (y ∷ ys) h = ap₂ ◌∷◌ (ground (arith, h)) (same_eq xs ys (ground (arith, h)))

-- A text is not two different ones.
not_both : (xs ys zs : List ℕ) → same ys zs ≡ false → same xs ys ≡ true → same xs zs ≡ false
not_both xs ys zs d h = subst (λ ws. same ws zs ≡ false) (sym (same_eq xs ys h)) d

-- The value of the last entry with this section and this key, or what was there before.
abbrev pub last_value : {A : Type 0} → (List ℕ → A) → A → List ℕ → List ℕ → List Entry → A
last_value f old section name [] = old
last_value f old section name (e ∷ es) =
    last_value f (if same e.section section && same e.name name then f e.value else old) section
      name es

module _ (atoi : List ℕ → ℤ) where
  abbrev Fields : Config → List Entry → Config → Type 0
  Fields c es d =
      (d.log_path ≡ last_value copy_path c.log_path log_name path_name es)
      × (d.json_path ≡ last_value copy_path c.json_path log_name json_path_name es)
      × (d.task_num ≡ last_value atoi c.task_num thread_pool_name task_num_name es)
      × (d.thread_max ≡ last_value atoi c.thread_max thread_pool_name thread_max_name es)
      × (d.thread_min ≡ last_value atoi c.thread_min thread_pool_name thread_min_name es)

  handle_one : (c : Config) (e : Entry) → Fields c (e ∷ []) (config_handler atoi c e).1
  unfolding same config_handler set_log_path set_json_path set_pool
  handle_one c e = elim (Bool-cases (same e.section log_name)) [
    | inl log ↦
        let no_pool : same e.section thread_pool_name ≡ false =
          not_both e.section log_name thread_pool_name refl log in
        ground (arith, log, no_pool)
    | inr no_log ↦ elim (Bool-cases (same e.section thread_pool_name)) [
      | inr no_pool ↦ ground (arith, no_log, no_pool)
      | inl pool ↦ ground (
        arith,
        no_log,
        pool,
        not_both e.name task_num_name thread_max_name refl,
        not_both e.name task_num_name thread_min_name refl,
        not_both e.name thread_max_name thread_min_name refl,
      )
    ]
  ]

  handle_all_lem : (c : Config) (es : List Entry) → Fields c es (handle_all atoi c es)
  unfolding handle_all
  handle_all_lem c [] = (refl, refl, refl, refl, refl)
  handle_all_lem c (e ∷ es) =
      let (log, json, task, most, least) = handle_one c e in
      let (log', json', task', most', least') = handle_all_lem (config_handler atoi c e).1 es in
      rw (← log, ← json, ← task, ← most, ← least) (log', json', task', most', least')

  -- When the file can be opened, `config_load` returns 0 and each field has the value of the last entry
  -- with its section and key: a path cut to 127 bytes, a number as `atoi` reads it. A field without an
  -- entry is empty or 0; entries of other sections and keys change nothing; and a line with an error
  -- (a positive result of `ini_parse`) does not change the result.
  pub config_load_lem :
      (error : ℕ) (es : List Entry)
      → let (ok, c) = config_load atoi (parsed_file error es) in
        (ok ≡ true)
        × (c.log_path ≡ last_value copy_path [] log_name path_name es)
        × (c.json_path ≡ last_value copy_path [] log_name json_path_name es)
        × (c.task_num ≡ last_value atoi (pos 0) thread_pool_name task_num_name es)
        × (c.thread_max ≡ last_value atoi (pos 0) thread_pool_name thread_max_name es)
        × (c.thread_min ≡ last_value atoi (pos 0) thread_pool_name thread_min_name es)
  unfolding config_load
  config_load_lem error es =
      let (log, json, task, most, least) = handle_all_lem no_config es in
      (refl, log, json, task, most, least)
