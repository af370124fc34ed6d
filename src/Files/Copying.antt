-- ===== src/Files/Copying.antt =====
-- What the destination of `fm_copy` of src/file_manager.c holds.
use linux_file_manager.Prelude.{
  Bool, List, Option, [], ap, append-nil, append_assoc, arith, false, if◌then◌else◌, length, none,
  some, sym, true, ℕ, ◌&&◌, ◌++◌, ◌==◌, ◌∙◌, ◌∷◌, ◌≡◌,
}
use linux_file_manager.Paths.{cut_last}
use linux_file_manager.Files.{
  CopyChecks, CopyRound, chunk, copied, copy_checked, copy_dir_check, copy_loop, end_of_file,
  fm_copy, read_failed, refused_copy,
}

-- All the bytes that were read before the first `read` without any.
abbrev pub all_read : List CopyRound → List ℕ
all_read [] = []
all_read (end_of_file ∷ rs) = []
all_read (read_failed ∷ rs) = []
all_read (chunk bytes written ∷ rs) = bytes ++ all_read rs

-- Every `read` gives bytes that are all written, up to the end of the file.
abbrev pub goes_well : List CopyRound → Bool
goes_well [] = false
goes_well (end_of_file ∷ rs) = true
goes_well (read_failed ∷ rs) = false
goes_well (chunk bytes none ∷ rs) = false
goes_well (chunk bytes (some n) ∷ rs) = n == length bytes && goes_well rs

copied_eq : {a b : List ℕ} → copied a ≡ copied b → a ≡ b
copied_eq e = ground (arith, e)

copy_loop-copied :
    (rs : List CopyRound) (dst d : List ℕ) → copy_loop dst rs ≡ copied d → d ≡ dst ++ all_read rs
unfolding copy_loop
copy_loop-copied [] dst d e = absurd (ground (arith, e))
copy_loop-copied (end_of_file ∷ rs) dst d e = sym (copied_eq e) ∙ sym (append-nil dst)
copy_loop-copied (read_failed ∷ rs) dst d e = sym (copied_eq e) ∙ sym (append-nil dst)
copy_loop-copied (chunk bytes none ∷ rs) dst d e = absurd (ground (arith, e))
copy_loop-copied (chunk bytes (some n) ∷ rs) dst d e =
    copy_loop-copied rs (dst ++ bytes) d (ground (arith, e)) ∙ append_assoc dst bytes (all_read rs)

copy_loop_complete :
    (rs : List CopyRound) (dst : List ℕ)
    → goes_well rs ≡ true
    → copy_loop dst rs ≡ copied (dst ++ all_read rs)
unfolding copy_loop
copy_loop_complete [] dst h = absurd (ground (arith, h))
copy_loop_complete (end_of_file ∷ rs) dst h = ap copied (sym (append-nil dst))
copy_loop_complete (read_failed ∷ rs) dst h = absurd (ground (arith, h))
copy_loop_complete (chunk bytes none ∷ rs) dst h = absurd (ground (arith, h))
copy_loop_complete (chunk bytes (some n) ∷ rs) dst h =
    let whole : (n == length bytes) ≡ true = ground (arith, h) in
    rw whole (
      copy_loop_complete rs (dst ++ bytes) (ground (arith, h))
      ∙ ap copied (append_assoc dst bytes (all_read rs)))

checked_copied :
    (k : CopyChecks) (rs : List CopyRound) (c : Option Bool) (d : List ℕ)
    → copy_checked k rs c ≡ copied d
    → d ≡ all_read rs
unfolding copy_checked
checked_copied k rs none d e = absurd (ground (arith, e))
checked_copied k rs (some false) d e = absurd (ground (arith, e))
checked_copied k rs (some true) d e = copy_loop-copied rs [] d (ground (arith, e))

-- When `fm_copy` returns 0, the destination holds exactly what was read, in order, though what was read
-- may be less than the source when a `read` failed.
pub fm_copy-copied :
    (k : CopyChecks) (dst : List ℕ) (rs : List CopyRound) (d : List ℕ)
    → fm_copy k dst rs ≡ copied d
    → d ≡ all_read rs
unfolding fm_copy
fm_copy-copied k dst rs d e =
    checked_copied k rs (copy_dir_check (cut_last dst) k.dir_writable) d (ground (arith, e))

-- `fm_copy` returns 0 with all the bytes up to the end of the file, whatever the sizes of the reads,
-- when the source exists, is readable and opens, the destination opens and its directory, if it has
-- one, has at most 511 bytes and is writable, and every `write` is whole.
pub fm_copy_complete :
    (k : CopyChecks) (dst : List ℕ) (rs : List CopyRound)
    → (k.exists && k.readable && k.source_opens) ≡ true
    → copy_dir_check (cut_last dst) k.dir_writable ≡ some true
    → k.target_opens ≡ true
    → goes_well rs ≡ true
    → fm_copy k dst rs ≡ copied (all_read rs)
unfolding fm_copy copy_checked
fm_copy_complete k dst rs source dir target well =
    ap
      (λ b.
        if b
        then copy_checked k rs (copy_dir_check (cut_last dst) k.dir_writable)
        else refused_copy)
      source
    ∙ ap (copy_checked k rs) dir
    ∙ ap (λ b. if b then copy_loop [] rs else refused_copy) target
    ∙ copy_loop_complete rs [] well
