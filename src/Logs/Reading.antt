-- ===== src/Logs/Reading.antt =====
-- What `log_write` of src/log.c appends, `log_view` prints.
use linux_file_manager.Prelude.{
  ==-false, All, All-drop, All-take, List, Option, [], ap, append-nil, append_assoc, arith, drop,
  inl, inr, length, length-drop, refl, some, subst, suc, sym, take, take-append-drop, zero, ℕ, ◌++◌,
  ◌<◌, ◌∙◌, ◌∷◌, ◌≡◌, ◌≢◌, ◌⊎◌,
}
use linux_file_manager.Os.{Os, Sys, create_append, done, read_only}
use linux_file_manager.Shell.Posix.{IsPosix, ReadsSucceed, WritesWhole, read_sure, write_whole}
use linux_file_manager.Terminal.{up_to_zero}
use linux_file_manager.Logs.{LogState, Stamp, log_line, log_write, shown_first, view_fd, view_read}

-- The calls of `log_write` that a program makes.
pub record LogCall : Type 0 where
  pub stamp : Stamp
  pub level : List ℕ
  pub msg : List ℕ

unfoldable pub lines_of : List LogCall → List ℕ
lines_of [] = []
lines_of (e ∷ es) = log_line e.stamp e.level e.msg ++ lines_of es

unfoldable pub log_all : {W : Type 0} → Os W → W → LogState → List LogCall → W
log_all os w log [] = w
log_all os w log (e ∷ es) = log_all os (log_write os w log e.stamp e.level e.msg) log es

-- The log's path over time: `Content w bytes` says that the file there holds `bytes`. It opens for
-- appending, and for reading while it is open for appending.
pub record IsLog {W : Type 0} (os : Os W) (Reading : W → ℕ → List ℕ → Type 0)
    (Writing : W → ℕ → List ℕ → Type 0) (path : List ℕ) (Content : W → List ℕ → Type 0)
    : Type 0 where
  pub opens_create :
      (w : W) (bytes : List ℕ)
      → Content w bytes
      → (fd : ℕ) × (w' : W) × (os.open_file w path create_append ≡ (done fd, w'))
        × Writing w' fd bytes
  pub opens_beside :
      (w : W) (fd : ℕ) (bytes : List ℕ)
      → Writing w fd bytes
      → (fd' : ℕ) × (w' : W) × (os.open_file w path read_only ≡ (done fd', w'))
        × Reading w' fd' bytes

abbrev pub IsText : List ℕ → Type 0
IsText bytes = All (λ b. b ≢ 0) bytes

up_to_zero_text : (bytes : List ℕ) → IsText bytes → up_to_zero bytes ≡ bytes
unfolding up_to_zero
up_to_zero_text [] h = refl
up_to_zero_text (b ∷ bs) h = rw (==-false b 0 h.0, up_to_zero_text bs h.1) refl

module _ {W : Type 0} (os : Os W) (Reading : W → ℕ → List ℕ → Type 0)
    (Writing : W → ℕ → List ℕ → Type 0) (posix : IsPosix os Reading Writing)
    (sure : ReadsSucceed os Reading) (all_taken : WritesWhole os Writing) where
  -- The loop of `log_view` ends, with these bytes printed.
  abbrev pub Prints : Option (List ℕ × W) → List ℕ → Type 0
  Prints out bytes = (w : W) × (out ≡ some (bytes, w))

  view_read_end :
      (again : W → Option (List ℕ × W)) (r : Sys (List ℕ) × W)
      → r.0 ≡ done []
      → Prints (view_read os again r) []
  unfolding view_read
  view_read_end again (r, w) e = rw e (w, refl)

  view_read_more :
      (again : W → Option (List ℕ × W)) (r : Sys (List ℕ) × W) (b : ℕ) (bytes more : List ℕ)
      → r.0 ≡ done (b ∷ bytes)
      → IsText (b ∷ bytes)
      → Prints (again r.1) more
      → Prints (view_read os again r) ((b ∷ bytes) ++ more)
  unfolding view_read shown_first
  view_read_more again (r, w) b bytes more e h (w', same) =
      rw (e, same) (w', ap (λ xs. some (xs ++ more, w')) (up_to_zero_text (b ∷ bytes) h))

  unfoldable pub Views : ℕ → ℕ → Type 0
  Views fuel fd =
      (w : W) (rest : List ℕ)
      → length rest < fuel
      → IsText rest
      → Reading w fd rest
      → Prints (view_fd os fuel w fd) rest

  view_turn :
      (fuel fd : ℕ) (w : W) (rest : List ℕ) (n : ℕ)
      → Views fuel fd
      → length rest < suc fuel
      → IsText rest
      → (os.read_file w fd 511).0 ≡ done (take n rest)
      → (rest ≡ []) ⊎ (0 < n)
      → Reading (os.read_file w fd 511).1 fd (drop n rest)
      → Prints (view_fd os (suc fuel) w fd) rest
  unfolding view_fd Views
  view_turn fuel fd w [] zero again h plain gives moves r = view_read_end _ _ gives
  view_turn fuel fd w [] (suc n) again h plain gives moves r = view_read_end _ _ gives
  view_turn fuel fd w (b ∷ rest) zero again h plain gives moves r = elim moves [
    | inl e ↦ absurd (ground (arith, e))
    | inr lt ↦ absurd (omega (arith, lt))
  ]
  view_turn fuel fd w (b ∷ rest) (suc n) again h plain gives moves r =
      let read : Sys (List ℕ) × W = os.read_file w fd 511 in
      let later =
        again read.1 (drop n rest) (omega (arith, length-drop n rest, h))
          (All-drop (λ c. c ≢ 0) n rest plain.1) r in
      let (w', same) =
        view_read_more (λ w'. view_fd os fuel w' fd) read b (take n rest) (drop n rest) gives
          (plain.0, All-take (λ c. c ≢ 0) n rest plain.1) later in
      (w', same ∙ ap (λ xs. some (b ∷ xs, w')) (take-append-drop n rest))

  pub view_fd_whole : (fuel fd : ℕ) → Views fuel fd
  unfolding Views
  view_fd_whole zero fd w rest h plain r = absurd (omega (arith, h))
  view_fd_whole (suc fuel) fd w rest h plain r =
      let (n, gives, most, moves, later) =
        read_sure os Reading Writing posix sure w fd 511 rest (omega arith) r in
      view_turn fuel fd w rest n (view_fd_whole fuel fd) h plain gives moves later

  -- The descriptor of the log gets the lines.
  pub log_all_lem :
      (w : W) (log : LogState) (fd : ℕ) (es : List LogCall) (bytes : List ℕ)
      → log.log_fd ≡ some fd
      → Writing w fd bytes
      → Writing (log_all os w log es) fd (bytes ++ lines_of es)
  unfolding log_all lines_of log_write
  log_all_lem w log fd [] bytes opened h = subst (Writing w fd) (sym (append-nil bytes)) h
  log_all_lem w log fd (e ∷ es) bytes opened h =
      let line : List ℕ = log_line e.stamp e.level e.msg in
      let now : Writing (log_write os w log e.stamp e.level e.msg) fd (bytes ++ line) =
        rw opened (write_whole os Reading Writing posix all_taken w fd bytes line h) in
      subst (Writing (log_all os w log (e ∷ es)) fd) (append_assoc bytes line (lines_of es)) (
        log_all_lem (log_write os w log e.stamp e.level e.msg) log fd es (bytes ++ line) opened now)
