-- ===== src/Logs/Json/Whole.antt =====
-- What a call of `log_event_json` of src/log_json.c leaves in the file.
use linux_file_manager.Prelude.{
  Bool-cases, List, Option, arith, false, if◌then◌else◌, inl, inr, leb, length, ltb, some, true, ℕ,
  ◌&&◌, ◌++◌, ◌≡◌,
}
use linux_file_manager.Shell.Posix.{IsPosix, WritesWhole, write_whole}
use linux_file_manager.Os.{Os}
use linux_file_manager.Logs.Json.{JsonLog, json_line, json_write, log_event_json, or_empty}

module _ {W : Type 0} (os : Os W) (Reading : W → ℕ → List ℕ → Type 0)
    (Writing : W → ℕ → List ℕ → Type 0) (posix : IsPosix os Reading Writing)
    (all_taken : WritesWhole os Writing) where
  -- When the file of the JSON log holds some bytes and each `write` takes all its bytes: an event puts
  -- its line behind them, whole, when the
  -- log is initialized and the line has at most 511 bytes, and else leaves them; a NULL text counts as
  -- an empty one.
  log_event_json_whole :
      (w : W) (json : JsonLog) (file : ℕ) (bytes time_str : List ℕ) (event ip : Option (List ℕ))
      (fd : ℕ) (detail : Option (List ℕ))
      → json.json_fd ≡ some file
      → Writing w file bytes
      → let line = json_line time_str (or_empty event) (or_empty ip) fd (or_empty detail) in
        Writing
          (log_event_json os w json time_str event ip fd detail)
          file
          (if json.json_initialized && ltb (length line) 512 then bytes ++ line else bytes)
  unfolding log_event_json json_write
  log_event_json_whole w json file bytes time_str event ip fd detail opened h =
      let line : List ℕ = json_line time_str (or_empty event) (or_empty ip) fd (or_empty detail) in
      elim (Bool-cases json.json_initialized) [
        | inr off ↦ rw off h
        | inl on ↦ elim (Bool-cases (ltb (length line) 512)) [
          | inl short ↦
              let fits : leb 512 (length line) ≡ false = ground (arith, short) in
              rw (on, fits, short, opened)
                (write_whole os Reading Writing posix all_taken w file bytes line h)
          | inr long ↦
              let full : leb 512 (length line) ≡ true = ground (arith, long) in
              rw (on, full, long) h
        ]
      ]
