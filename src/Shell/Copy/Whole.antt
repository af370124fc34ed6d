-- ===== src/Shell/Copy/Whole.antt =====
-- The loop of `fm_copy` of src/file_manager.c ends, with the whole source copied.
use linux_file_manager.Prelude.{
  Bool-cases, ==-refl, Bool, List, Option, [], ap, append-nil, append_assoc, arith, drop, inl, inr,
  leb, length, length-drop, none, not, refl, some, subst, suc, sym, take, take-append-drop, true,
  zero, ℕ, ◌&&◌, ◌++◌, ◌<◌, ◌==◌, ◌||◌, ◌∙◌, ◌∷◌, ◌≡◌, ◌⊎◌, ◌≢◌, false, take-length,
}
use linux_file_manager.Os.{Os, Sys, done, failed, succeeded, write_ok}
use linux_file_manager.Shell.{Shell}
use linux_file_manager.Shell.Posix.{IsPosix, ReadsSucceed, read_sure, write_counts}
use linux_file_manager.Shell.Copy.{
  CopyOutcome, returned, copy_stop, copy_end, copy_fds, copy_read, copy_written,
}

module _ {W : Type 0} (os : Os W) (Reading : W → ℕ → List ℕ → Type 0)
    (Writing : W → ℕ → List ℕ → Type 0) (posix : IsPosix os Reading Writing)
    (sure : ReadsSucceed os Reading) where
  -- The loop returns 0, and the destination held these bytes before the descriptors were closed.
  abbrev pub CopiedAs : CopyOutcome W → ℕ → ℕ → List ℕ → Type 0
  CopiedAs out src dst bytes =
      (sh : Shell W) × (w : W) × (out ≡ copy_end os sh w src dst) × Writing w dst bytes

  -- Or it returns -1, behind a `write` to the destination that failed or did not take all its bytes.
  abbrev pub CopiedOrStopped : CopyOutcome W → ℕ → ℕ → List ℕ → Type 0
  CopiedOrStopped out src dst bytes =
      CopiedAs out src dst bytes
      ⊎ ((sh : Shell W) × (w : W) × (more : List ℕ) × (out ≡ returned false sh)
          × ((os.write_file w dst more).0 ≢ done (length more)))

  copy_read_end :
      (again : Shell W → CopyOutcome W) (sh : Shell W) (src dst : ℕ) (r : Sys (List ℕ) × W)
      (bytes : List ℕ)
      → r.0 ≡ done []
      → Writing r.1 dst bytes
      → CopiedAs (copy_read os again sh src dst r) src dst bytes
  unfolding copy_read
  copy_read_end again sh src dst (r, w) bytes e h = rw e (sh, w, refl, h)

  copy_written_all :
      (again : Shell W → CopyOutcome W) (sh : Shell W) (src dst len : ℕ) (r : Sys ℕ × W)
      → r.0 ≡ done len
      → copy_written os again sh src dst len r ≡ again (record sh { world = r.1 })
  unfolding copy_written
  copy_written_all again sh src dst len (r, w) e = rw (e, ==-refl len) refl

  copy_read_more :
      (again : Shell W → CopyOutcome W) (sh : Shell W) (src dst b : ℕ) (bytes : List ℕ)
      (r : Sys (List ℕ) × W)
      → r.0 ≡ done (b ∷ bytes)
      → copy_read os again sh src dst r
        ≡ copy_written os again sh src dst (length (b ∷ bytes)) (os.write_file r.1 dst (b ∷ bytes))
  unfolding copy_read
  copy_read_more again sh src dst b bytes (r, w) e = rw e refl

  taken_cases : (r : Sys ℕ) (len : ℕ) → (r ≡ done len) ⊎ (r ≢ done len)
  taken_cases (failed e) len = inr (λ p. absurd (ground (arith, ap succeeded p)))
  taken_cases (done n) len = elim (Bool-cases (n == len)) [
    | inl hit ↦ inl (ap done (ground (arith, hit)))
    | inr miss ↦ inr (λ p. absurd (ground (arith, miss, p)))
  ]

  copy_stop_returns :
      (sh : Shell W) (w : W) (src dst : ℕ)
      → (sh' : Shell W) × (copy_stop os sh w src dst ≡ returned false sh')
  unfolding copy_stop
  copy_stop_returns sh w src dst = (_, refl)

  copy_written_short :
      (again : Shell W → CopyOutcome W) (sh : Shell W) (src dst len : ℕ) (r : Sys ℕ × W)
      → r.0 ≢ done len
      → (sh' : Shell W) × (copy_written os again sh src dst len r ≡ returned false sh')
  unfolding copy_written
  copy_written_short again sh src dst len (failed e, w) short =
      copy_stop_returns (record sh { errno = e }) w src dst
  copy_written_short again sh src dst len (done n, w) short = elim (Bool-cases (n == len)) [
    | inl hit ↦ absurd (short (ap done (ground (arith, hit))))
    | inr miss ↦ let (sh', stops) = copy_stop_returns sh w src dst in (sh', rw miss stops)
  ]

  -- A turn that goes on ends as the loop does from there.
  copied_on :
      (out later : CopyOutcome W) (src dst : ℕ) (sofar got rest all : List ℕ)
      → out ≡ later
      → got ++ rest ≡ all
      → CopiedOrStopped later src dst ((sofar ++ got) ++ rest)
      → CopiedOrStopped out src dst (sofar ++ all)
  copied_on out later src dst sofar got rest all e split h =
      let whole : (sofar ++ got) ++ rest ≡ sofar ++ all =
        append_assoc sofar got rest ∙ ap (λ xs. sofar ++ xs) split in
      subst (λ o. CopiedOrStopped o src dst (sofar ++ all)) (sym e)
        (subst (CopiedOrStopped later src dst) whole h)

  Copies : ℕ → ℕ → ℕ → Type 0
  Copies fuel src dst =
      (sh : Shell W) (rest sofar : List ℕ)
      → length rest < fuel
      → Reading sh.world src rest
      → Writing sh.world dst sofar
      → CopiedOrStopped (copy_fds os fuel sh src dst) src dst (sofar ++ rest)

  abbrev next : ℕ → ℕ → ℕ → Shell W → CopyOutcome W
  next fuel src dst sh = copy_fds os fuel sh src dst

  -- One turn: the end of the file, or some of its bytes and then the rest of the loop.
  copy_turn :
      (fuel src dst : ℕ) (sh : Shell W) (rest sofar : List ℕ) (n : ℕ)
      → Copies fuel src dst
      → length rest < suc fuel
      → (os.read_file sh.world src 4096).0 ≡ done (take n rest)
      → (rest ≡ []) ⊎ (0 < n)
      → Reading (os.read_file sh.world src 4096).1 src (drop n rest)
      → Writing (os.read_file sh.world src 4096).1 dst sofar
      → CopiedOrStopped (copy_fds os (suc fuel) sh src dst) src dst (sofar ++ rest)
  unfolding copy_fds Copies
  copy_turn fuel src dst sh [] sofar zero again h gives moves r w = inl (
      copy_read_end (next fuel src dst) sh src dst _ (sofar ++ []) gives
        (subst (Writing (os.read_file sh.world src 4096).1 dst) (sym (append-nil sofar)) w))
  copy_turn fuel src dst sh [] sofar (suc n) again h gives moves r w = inl (
      copy_read_end (next fuel src dst) sh src dst _ (sofar ++ []) gives
        (subst (Writing (os.read_file sh.world src 4096).1 dst) (sym (append-nil sofar)) w))
  copy_turn fuel src dst sh (b ∷ rest) sofar zero again h gives moves r w = elim moves [
    | inl e ↦ cc e
    | inr lt ↦ absurd (omega (arith, lt))
  ]
  copy_turn fuel src dst sh (b ∷ rest) sofar (suc n) again h gives moves r w =
      let got : List ℕ = b ∷ take n rest in
      let read : Sys (List ℕ) × W = os.read_file sh.world src 4096 in
      let written : Sys ℕ × W = os.write_file read.1 dst got in
      let this = copy_read_more (next fuel src dst) sh src dst b (take n rest) read gives in
      elim (taken_cases written.0 (length got)) [
        | inl whole ↦
            let now =
              (write_counts os Reading Writing posix read.1 dst (length got) sofar got w whole).1 in
            copied_on (copy_fds os (suc fuel) sh src dst)
              (next fuel src dst (record sh { world = written.1 })) src dst sofar got (drop n rest)
              (b ∷ rest)
              (this ∙ copy_written_all (next fuel src dst) sh src dst (length got) written whole)
              (ap (λ xs. b ∷ xs) (take-append-drop n rest))
              (again (record sh { world = written.1 }) (drop n rest) (sofar ++ got)
                (omega (arith, length-drop n rest, h))
                (posix.write_keeps read.1 dst src got (drop n rest) r)
                (subst (λ xs. Writing written.1 dst (sofar ++ xs))
                  (take-length (length got) got (omega arith)) now))
        | inr short ↦
            let (sh', stops) =
              copy_written_short (next fuel src dst) sh src dst (length got) written short in
            inr (sh', read.1, got, this ∙ stops, short)
      ]

  -- On a regular file that is read from its start and on, and a destination that holds some bytes,
  -- when no `read` fails: the loop ends, in at most one turn more than there are bytes left, and
  -- returns 0 with all that were left behind the destination's bytes, or -1.
  pub copy_fds_whole :
      (fuel : ℕ) (sh : Shell W) (src dst : ℕ) (rest sofar : List ℕ)
      → length rest < fuel
      → Reading sh.world src rest
      → Writing sh.world dst sofar
      → CopiedOrStopped (copy_fds os fuel sh src dst) src dst (sofar ++ rest)
  unfolding Copies
  copy_fds_whole zero sh src dst rest sofar h r w = absurd (omega (arith, h))
  copy_fds_whole (suc fuel) sh src dst rest sofar h r w =
      let (n, gives, most, moves, later) =
        read_sure os Reading Writing posix sure sh.world src 4096 rest (omega arith) r in
      copy_turn fuel src dst sh rest sofar n
        (λ sh' rest' sofar'. copy_fds_whole fuel sh' src dst rest' sofar') h gives moves later
        (posix.read_keeps sh.world src 4096 dst sofar w)

  -- The test of the destination's directory passes.
  abbrev pub dir_ready : W → Option (List ℕ) → Bool
  dir_ready w none = true
  dir_ready w (some dir) =
      not (leb 512 (length dir)) && (length dir == 0 || succeeded (os.access_file w dir write_ok))
