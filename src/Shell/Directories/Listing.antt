-- ===== src/Shell/Directories/Listing.antt =====
-- The listing of src/directory.c as lines, and its buffer.
use linux_file_manager.Prelude.{
  Bool-cases, List, [], ap, append-nil, append_assoc, arith, if◌then◌else◌, inl, inr, leb, length,
  length-append, refl, suc, sym, take, true, ℕ, ◌++◌, ◌+◌, ◌<◌, ◌∙◌, ◌∷◌, ◌≡◌, ◌≤◌, ◌⊎◌,
}
use linux_file_manager.Shell.{Shell}
use linux_file_manager.Os.{Os, done}
use linux_file_manager.Shell.Directories.{collect_names, dir_list, is_hidden, listed_names}

-- The names that do not start with a dot, and names one to a line.
abbrev pub visible : List (List ℕ) → List (List ℕ)
visible [] = []
visible (name ∷ names) = if is_hidden name then visible names else name ∷ visible names

abbrev pub lines : List (List ℕ) → List ℕ
lines [] = []
lines (name ∷ names) = name ++ b'\n' ∷ lines names

-- What a listing of names behind a buffer is: all lines, or those of the first ones, where one more
-- does not fit.
Listing : ℕ → List ℕ → List (List ℕ) → List ℕ → Type 0
Listing size buffer names out =
    (out ≡ buffer ++ lines names)
    ⊎ ((k : ℕ) × (out ≡ buffer ++ lines (take k names))
        × (size ≤ length (buffer ++ lines names) + 1))

too_long : (a b : ℕ) → leb a b ≡ true → a ≤ b
too_long a b h = ground arith

joined :
    (buffer name rest : List ℕ)
    → (buffer ++ (name ++ b'\n' ∷ [])) ++ rest ≡ buffer ++ (name ++ b'\n' ∷ rest)
joined buffer name rest =
    append_assoc buffer (name ++ b'\n' ∷ []) rest
    ∙ ap (◌++◌ buffer) (append_assoc name (b'\n' ∷ []) rest)

one_more_line :
    (size : ℕ) (buffer name : List ℕ) (names : List (List ℕ)) (out : List ℕ)
    → Listing size (buffer ++ (name ++ b'\n' ∷ [])) names out
    → Listing size buffer (name ∷ names) out
unfolding Listing
one_more_line size buffer name names out (inl all) = inl (all ∙ joined buffer name (lines names))
one_more_line size buffer name names out (inr (k, some_of, more)) = inr (
  suc k,
  some_of ∙ joined buffer name (lines (take k names)),
  rw (sym (joined buffer name (lines names))) more,
)

collect_lem :
    (size : ℕ) (buffer : List ℕ) (names : List (List ℕ))
    → length buffer < size
    → Listing size buffer (visible names) (collect_names size buffer names)
      × (length (collect_names size buffer names) < size)
unfolding collect_names Listing
collect_lem size buffer [] h = (inl (sym (append-nil buffer)), h)
collect_lem size buffer (name ∷ names) h = elim (Bool-cases (is_hidden name)) [
  | inl hidden ↦ rw hidden (collect_lem size buffer names h)
  | inr shown ↦ elim (Bool-cases (leb size (length buffer + length name + 2))) [
    | inl full ↦
        rw (shown, full)
          (
            (inr (
              0,
              sym (append-nil buffer),
              omega (
                arith,
                length-append buffer (lines (name ∷ visible names)),
                length-append name (b'\n' ∷ lines (visible names)),
                too_long size (length buffer + length name + 2) full,
              ),
            )),
            h,
          )
    | inr fits ↦
        let longer : List ℕ = buffer ++ (name ++ b'\n' ∷ []) in
        let len : length longer ≡ length buffer + (length name + 1) =
          length-append buffer (name ++ b'\n' ∷ [])
          ∙ ap (λ n. length buffer + n) (length-append name (b'\n' ∷ [])) in
        let (listing, bound) = collect_lem size longer names (ground (arith, len, fits)) in
        rw (shown, fits) (one_more_line size buffer name (visible names) _ listing, bound)
  ]
]

-- When `dir_list` returns 0 with a buffer of `size` bytes, the string in the buffer is shorter than the
-- buffer. It is the names that do not start with a dot, one to a line, in the order of the directory:
-- all of them, or, where all of them with one byte to spare do not fit, the first ones.
pub dir_list_lem :
    {W : Type 0} (os : Os W) (sh : Shell W) (path buffer : List ℕ) (size : ℕ)
    (names : List (List ℕ))
    → 0 < size
    → os.list_names sh.world path ≡ done names
    → let (ok, out, sh') = dir_list os sh path buffer size in
      (ok ≡ true)
      × (length out < size)
      × ((out ≡ lines (visible names))
          ⊎ ((k : ℕ) × (out ≡ lines (take k (visible names)))
              × (size ≤ length (lines (visible names)) + 1)))
unfolding dir_list listed_names Listing
dir_list_lem os sh path buffer size names room e =
    let (listing, bound) = collect_lem size [] names room in rw e (refl, bound, listing)
