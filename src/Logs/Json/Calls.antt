-- ===== src/Logs/Json/Calls.antt =====
-- The static variables of src/log_json.c over a sequence of calls.
use linux_file_manager.Prelude.{
  Bool, Bool-cases, List, Option, [], false, if◌then◌else◌, inl, inr, leb, length, none, refl, some,
  subst, sym, take, true, ℕ, ◌∙◌, ◌∷◌, ◌≡◌,
}
use linux_file_manager.Paths.{get_app_root, path_get_dir, path_mkdir_recursive}
use linux_file_manager.Os.{Os, Sys, create_append, done, failed, file_system}
use linux_file_manager.Shell.{Shell}
use linux_file_manager.Logs.Json.{
  JsonLog, json_open, json_opened, json_paths, json_rooted, log_event_json, log_json_close,
  log_json_init, path_source, rooted,
}

pub data JsonCall : Type 0 where
  init_call : List ℕ → JsonCall
  event_call : List ℕ → Option (List ℕ) → Option (List ℕ) → ℕ → Option (List ℕ) → JsonCall
  close_call : JsonCall

abbrev pub is_open : Option ℕ → Bool
is_open none = false
is_open (some fd) = true

-- The module counts as initialized just when it has a descriptor.
abbrev pub IsConsistent : JsonLog → Type 0
IsConsistent json = json.json_initialized ≡ is_open json.json_fd

module _ {W : Type 0} (os : Os W) where
  pub json_call : Shell W × JsonLog → JsonCall → Shell W × JsonLog
  json_call (sh, json) (init_call path) = log_json_init os sh json path
  json_call (sh, json) (event_call time_str event ip fd detail) =
      (record sh { world = log_event_json os sh.world json time_str event ip fd detail }, json)
  json_call (sh, json) close_call = log_json_close os sh json

  pub json_calls : Shell W × JsonLog → List JsonCall → Shell W × JsonLog
  unfolding json_call
  json_calls s [] = s
  json_calls s (c ∷ cs) = json_calls (json_call s c) cs

  opened-IsConsistent :
      (sh : Shell W) (json : JsonLog) (r : Sys ℕ × W)
      → json.json_initialized ≡ false
      → IsConsistent (json_opened os sh json r).1
  unfolding json_opened
  opened-IsConsistent sh json (failed e, w) off = off
  opened-IsConsistent sh json (done fd, w) off = refl

  open-IsConsistent :
      (sh : Shell W) (json : JsonLog) (dir : List ℕ)
      → json.json_initialized ≡ false
      → IsConsistent (json_open os sh json dir).1
  unfolding json_open
  open-IsConsistent sh json dir off =
      let (w, e) = (path_mkdir_recursive (file_system os) (sh.world, sh.errno) dir).1 in
      opened-IsConsistent (record sh { errno = e }) json
        (os.open_file w json.json_log_path create_append) off

  paths-IsConsistent :
      (sh : Shell W) (json : JsonLog) (root source : List ℕ) (dir : Option (List ℕ))
      → json.json_initialized ≡ false
      → IsConsistent json
      → IsConsistent (json_paths os sh json root source dir).1
  unfolding json_paths
  paths-IsConsistent sh json root source none off h = h
  paths-IsConsistent sh json root source (some dir) off h =
      elim (Bool-cases (leb 4096 (length (rooted root source)))) [
        | inl long ↦ rw long h
        | inr short ↦ elim (Bool-cases (leb 4096 (length (rooted root dir)))) [
          | inl long ↦ rw (short, long) h
          | inr fits ↦
              rw (short, fits)
                (open-IsConsistent sh
                  (record json { json_log_path = take 4095 (rooted root source) }) (rooted root dir)
                  off)
        ]
      ]

  root-IsConsistent :
      (sh : Shell W) (json : JsonLog) (source : List ℕ) (root : Option (List ℕ))
      → json.json_initialized ≡ false
      → IsConsistent json
      → IsConsistent (json_rooted os sh json source root).1
  unfolding json_rooted
  root-IsConsistent sh json source none off h = h
  root-IsConsistent sh json source (some root) off h =
      paths-IsConsistent sh json root source (path_get_dir (some source) 4096) off h

  init-IsConsistent :
      (sh : Shell W) (json : JsonLog) (path : List ℕ)
      → IsConsistent json
      → IsConsistent (log_json_init os sh json path).1
  unfolding log_json_init
  init-IsConsistent sh json path h =
      let rest =
        json_rooted os sh json (path_source path) (get_app_root (os.read_link sh.world) 4096) in
      let chosen : Bool → Type 0 = λ b. IsConsistent (if b then (sh, json) else rest).1 in
      elim (Bool-cases json.json_initialized) [
        | inl on ↦ subst chosen (sym on) h
        | inr off ↦ subst chosen (sym off) (
            root-IsConsistent sh json (path_source path) (get_app_root (os.read_link sh.world) 4096)
              off h)
      ]

  close-IsConsistent :
      (sh : Shell W) (json : JsonLog)
      → IsConsistent json
      → IsConsistent (log_json_close os sh json).1
  unfolding log_json_close
  close-IsConsistent sh json h = elim (Bool-cases json.json_initialized) [
    | inl on ↦ rw on refl
    | inr off ↦ rw off (sym off ∙ h)
  ]

  call-IsConsistent :
      (s : Shell W × JsonLog) (c : JsonCall) → IsConsistent s.1 → IsConsistent (json_call s c).1
  unfolding json_call
  call-IsConsistent (sh, json) (init_call path) h = init-IsConsistent sh json path h
  call-IsConsistent (sh, json) (event_call time_str event ip fd detail) h = h
  call-IsConsistent (sh, json) close_call h = close-IsConsistent sh json h

  -- After any calls the module is initialized just when it has a descriptor, if it was so before
  -- them, as it is at the start of the program.
  pub json_calls-IsConsistent :
      (s : Shell W × JsonLog) (cs : List JsonCall)
      → IsConsistent s.1
      → IsConsistent (json_calls s cs).1
  unfolding json_calls
  json_calls-IsConsistent s [] h = h
  json_calls-IsConsistent s (c ∷ cs) h =
      json_calls-IsConsistent (json_call s c) cs (call-IsConsistent s c h)
