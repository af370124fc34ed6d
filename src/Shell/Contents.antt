-- ===== src/Shell/Contents.antt =====
-- What `fm_write` of src/file_manager.c appends, `fm_read` finds.
use linux_file_manager.Prelude.{
  List, Option, [], ap, arith, drop, get_or, get_or-set_self, length, length-append, length-drop,
  inl, inr, none, length-take, memcpy, refl, set, set-ge, some, sym, take, take-append, take-length,
  take-set, true, ℕ, ◌++◌, ◌+◌, ◌-◌, ◌<◌, ◌∙◌, ◌≡◌, ◌≤◌, ◌⊎◌,
}
use linux_file_manager.Os.{Errno, Os, Sys, done, failed, write_append}
use linux_file_manager.Shell.{
  Shell, fm_read, fm_write, read_done, read_opened, write_done, write_opened,
}
use linux_file_manager.Shell.Posix.{IsFile, IsPosix, WritesWhole, write_counts, write_whole}

-- The buffer after a read of `bytes`.
abbrev pub filled : List ℕ → List ℕ → List ℕ
filled buffer bytes = set (memcpy buffer 0 bytes (length bytes)) (length bytes) 0

take-filled : (buffer bytes : List ℕ) → take (length bytes) (filled buffer bytes) ≡ bytes
take-filled buffer bytes =
    let n : ℕ = length bytes in
    let all : take n bytes ≡ bytes = take-length n bytes (omega arith) in
    take-set n (take n bytes ++ drop (0 + n) buffer) n 0
    ∙ ap (λ xs. set xs n 0)
        (take-append n (take n bytes) (drop (0 + n) buffer) (ap length (sym all)) ∙ all)
    ∙ set-ge bytes n 0 (omega arith)

filled_end :
    (buffer bytes : List ℕ)
    → length bytes < length buffer
    → get_or (filled buffer bytes) (length bytes) 1 ≡ 0
filled_end buffer bytes h =
    let n : ℕ = length bytes in
    get_or-set_self (memcpy buffer 0 bytes n) n 0 1 (
      omega (
        arith,
        length-append (take n bytes) (drop (0 + n) buffer),
        length-take n bytes,
        length-drop (0 + n) buffer,
        h,
      ))

module _ {W : Type 0} (os : Os W) (Reading : W → ℕ → List ℕ → Type 0)
    (Writing : W → ℕ → List ℕ → Type 0) (posix : IsPosix os Reading Writing) (path : List ℕ)
    (Content : W → List ℕ → Type 0) (file : IsFile os Reading Writing path Content) where
  written_lem :
      (sh : Shell W) (fd len : ℕ) (r : Sys ℕ × W) (bytes : List ℕ)
      → r.0 ≡ done len
      → Writing r.1 fd bytes
      → ((write_done os sh fd r).0 ≡ true) × Content (write_done os sh fd r).1.world bytes
  unfolding write_done
  written_lem sh fd len (r, w) bytes e h = rw e (refl, file.close_keeps w fd bytes h)

  write_puts_lem :
      (sh : Shell W) (fd n : ℕ) (w : W) (bytes more : List ℕ)
      → os.open_file sh.world path write_append ≡ (done fd, w)
      → (os.write_file w fd more).0 ≡ done n
      → Writing (os.write_file w fd more).1 fd bytes
      → ((fm_write os sh path more).0 ≡ true) × Content (fm_write os sh path more).1.world bytes
  unfolding fm_write write_opened
  write_puts_lem sh fd n w bytes more opens puts later =
      rw opens (written_lem sh fd n (os.write_file w fd more) bytes puts later)

  pub write_lem :
      WritesWhole os Writing
      → (sh : Shell W) (bytes more : List ℕ) → Content sh.world bytes
      → ((fm_write os sh path more).0 ≡ true)
        × Content (fm_write os sh path more).1.world (bytes ++ more)
  write_lem whole sh bytes more c =
      let (fd, w, opens, holds) = file.opens_append sh.world bytes c in
      write_puts_lem sh fd (length more) w (bytes ++ more) more opens (whole w fd bytes more holds)
        (write_whole os Reading Writing posix whole w fd bytes more holds)

  -- What a read of a file gives: some first bytes of it, in the buffer with a 0 behind them.
  abbrev pub ReadAs : Option ℕ × List ℕ × Shell W → ℕ → List ℕ → Type 0
  ReadAs r size bytes =
      (n : ℕ) × (r.0 ≡ some (length (take n bytes)))
      × (take (length (take n bytes)) r.1 ≡ take n bytes)
      × (get_or r.1 (length (take n bytes)) 1 ≡ 0)
      × (n ≤ size - 1)
      × ((bytes ≡ []) ⊎ (0 < n))

  read_done_lem :
      (sh : Shell W) (buffer : List ℕ) (size fd n : ℕ) (r : Sys (List ℕ) × W) (bytes : List ℕ)
      → size ≤ length buffer
      → 1 < size
      → n ≤ size - 1
      → r.0 ≡ done (take n bytes)
      → (bytes ≡ []) ⊎ (0 < n)
      → ReadAs (read_done os sh buffer fd r) size bytes
  unfolding read_done
  read_done_lem sh buffer size fd n (r, w) bytes room two most gives moves =
      let got : List ℕ = take n bytes in
      rw gives (
        n,
        refl,
        take-filled buffer got,
        filled_end buffer got (omega (arith, length-take n bytes, most, room, two)),
        most,
        moves,
      )

  -- The read fails, or gives some first bytes.
  abbrev pub ReadOrFails : Option ℕ × List ℕ × Shell W → ℕ → List ℕ → Type 0
  ReadOrFails r size bytes = (r.0 ≡ none) ⊎ ReadAs r size bytes

  read_done_fails :
      (sh : Shell W) (buffer : List ℕ) (fd : ℕ) (e : Errno) (r : Sys (List ℕ) × W)
      → r.0 ≡ failed e
      → (read_done os sh buffer fd r).0 ≡ none
  unfolding read_done
  read_done_fails sh buffer fd e (r, w) fails = rw fails refl

  read_lem :
      (sh : Shell W) (bytes buffer : List ℕ) (size : ℕ)
      → Content sh.world bytes
      → size ≤ length buffer
      → 1 < size
      → ReadOrFails (fm_read os sh path buffer size) size bytes
  unfolding fm_read read_opened
  read_lem sh bytes buffer size c room two =
      let (fd, w, opens, holds) = file.opens_read sh.world bytes c in
      rw opens (elim (posix.read_gives w fd (size - 1) bytes (omega (arith, two)) holds) [
        | inl (e, fails) ↦ inl (read_done_fails sh buffer fd e _ fails)
        | inr (n, gives, most, moves, later) ↦ inr (
            read_done_lem sh buffer size fd n (os.read_file w fd (size - 1)) bytes room two most
              gives moves)
      ])

  -- When the file opens for appending and `write` returns `n`: `n` is at most the length of the text,
  -- and `fm_write` returns 0, however few of the bytes that are, with the first `n` bytes of the text
  -- behind the file's. A later `fm_read` into a buffer of at least `size` bytes, with `size` at least 2,
  -- when the file opens for reading too, returns -1, or the number of bytes it gives: first bytes of the
  -- old ones and those `n`, at most `size - 1`, at least one where there is one, and a 0 behind them in
  -- the buffer.
  pub fm_read-fm_write :
      (sh : Shell W) (bytes more buffer : List ℕ) (size fd n : ℕ) (w : W)
      → os.open_file sh.world path write_append ≡ (done fd, w)
      → Writing w fd bytes
      → (os.write_file w fd more).0 ≡ done n
      → size ≤ length buffer
      → 1 < size
      → (n ≤ length more)
        × ((fm_write os sh path more).0 ≡ true)
        × Content (fm_write os sh path more).1.world (bytes ++ take n more)
        × ReadOrFails
            (fm_read os (fm_write os sh path more).1 path buffer size)
            size
            (bytes ++ take n more)
  fm_read-fm_write sh bytes more buffer size fd n w opens holds puts room two =
      let (most, later) = write_counts os Reading Writing posix w fd n bytes more holds puts in
      let (ok, now) = write_puts_lem sh fd n w (bytes ++ take n more) more opens puts later in
      (
        most,
        ok,
        now,
        read_lem (fm_write os sh path more).1 (bytes ++ take n more) buffer size now room two,
      )
