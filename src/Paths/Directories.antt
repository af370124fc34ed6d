-- ===== src/Paths/Directories.antt =====
-- What `path_mkdir_recursive` of src/path_manager.c has made when it returns 0.
use linux_file_manager.Prelude.{
  ==_iff, Bool, Bool-cases, List, [], append-nil, append_assoc, arith, false, get_or,
  get_or-append_at, if◌then◌else◌, inl, inr, length, length-append, refl, subst, suc, sym, take,
  take-append, take-length, true, ℕ, ◌++◌, ◌+◌, ◌<◌, ◌==◌, ◌∙◌, ◌∷◌, ◌≡◌, ◌≢◌, ◌≤◌, ◌⊎◌,
}
use linux_file_manager.Paths.{
  FileSystem, MkdirResult, already_there, and_then, made, make_from, make_one, make_parts, mkdir_ok,
  path_mkdir_recursive, refused,
}

-- What the code relies on: `access` succeeds only for what exists; `mkdir` makes its path exist, or
-- fails with EEXIST only where it exists; and a call of `mkdir` removes nothing.
pub record IsFileSystem {W : Type 0} (fs : FileSystem W) (Exists : W → List ℕ → Type 0)
    : Type 0 where
  pub access_sound : (w : W) (p : List ℕ) → fs.access w p ≡ true → Exists w p
  pub mkdir_made : (w : W) (p : List ℕ) → (fs.mkdir w p).0 ≢ refused → Exists (fs.mkdir w p).1 p
  pub mkdir_keeps : (w : W) (p q : List ℕ) → Exists w q → Exists (fs.mkdir w p).1 q

module _ {W : Type 0} (fs : FileSystem W) (Exists : W → List ℕ → Type 0)
    (laws : IsFileSystem fs Exists) where
  mkdir_ok-world : (r : MkdirResult × W) → (mkdir_ok fs r).1 ≡ r.1
  unfolding mkdir_ok
  mkdir_ok-world (made, w) = refl
  mkdir_ok-world (already_there, w) = refl
  mkdir_ok-world (refused, w) = refl

  mkdir_ok-true : (r : MkdirResult × W) → (mkdir_ok fs r).0 ≡ true → r.0 ≢ refused
  unfolding mkdir_ok
  mkdir_ok-true (made, w) h = λ e. absurd (ground (arith, e))
  mkdir_ok-true (already_there, w) h = λ e. absurd (ground (arith, e))
  mkdir_ok-true (refused, w) h = absurd (ground (arith, h))

  make_one_keeps : (w : W) (p q : List ℕ) → Exists w q → Exists (make_one fs w p).1 q
  unfolding make_one
  make_one_keeps w p q h = elim (Bool-cases (fs.access w p)) [
    | inl there ↦ rw there h
    | inr absent ↦ rw (absent, mkdir_ok-world) (laws.mkdir_keeps w p q h)
  ]

  make_one_makes : (w : W) (p : List ℕ) → (make_one fs w p).0 ≡ true → Exists (make_one fs w p).1 p
  unfolding make_one
  make_one_makes w p ok = elim (Bool-cases (fs.access w p)) [
    | inl there ↦ rw there (laws.access_sound w p there)
    | inr absent ↦
        rw (absent, mkdir_ok-world)
          (laws.mkdir_made w p (
            mkdir_ok-true (fs.mkdir w p) (
              subst (λ b. (if b then (true, w) else mkdir_ok fs (fs.mkdir w p)).0 ≡ true) absent
                ok)))
  ]

  and_then_keeps :
      (q : List ℕ) (r : Bool × W) (f : W → Bool × W)
      → Exists r.1 q
      → ((w : W) → Exists w q → Exists (f w).1 q)
      → Exists (and_then fs r f).1 q
  unfolding and_then
  and_then_keeps q (true, w) f h k = k w h
  and_then_keeps q (false, w) f h k = h

  make_from_keeps :
      (w : W) (before rest q : List ℕ) → Exists w q → Exists (make_from fs w before rest).1 q
  unfolding make_from
  make_from_keeps w before [] q h = make_one_keeps w before q h
  make_from_keeps w before (b ∷ rest) q h = elim (Bool-cases (b == b'/')) [
    | inr plain ↦ rw plain (make_from_keeps w (before ++ b ∷ []) rest q h)
    | inl slash ↦ rw slash (
        and_then_keeps q (make_one fs w before) _ (make_one_keeps w before q h)
          (λ w' h'. make_from_keeps w' (before ++ b ∷ []) rest q h'))
  ]

  -- Both parts of a sequence that succeeds have succeeded.
  and_then-true :
      (r : Bool × W) (f : W → Bool × W)
      → (and_then fs r f).0 ≡ true
      → (r.0 ≡ true) × ((f r.1).0 ≡ true) × ((and_then fs r f).1 ≡ (f r.1).1)
  unfolding and_then
  and_then-true (true, w) f h = (refl, h, refl)
  and_then-true (false, w) f h = absurd (ground (arith, h))

  -- Where a directory ends: before a '/', or at the end of the path.
  Ends : ℕ → List ℕ → Type 0
  Ends i p = (i ≡ length p) ⊎ (get_or p i 0 ≡ b'/')

  make_from_makes :
      (rest before : List ℕ) (w : W) (p : List ℕ) (i : ℕ)
      → p ≡ before ++ rest
      → length before ≤ i
      → i ≤ length p
      → Ends i p
      → (make_from fs w before rest).0 ≡ true
      → Exists (make_from fs w before rest).1 (take i p)
  unfolding make_from Ends
  make_from_makes [] before w p i e low high end ok =
      let all : take i p ≡ before = rw (e, append-nil before) (take-length i before low) in
      rw all (make_one_makes w before ok)
  make_from_makes (b ∷ rest) before w p i e low high end ok =
      let e' : p ≡ (before ++ b ∷ []) ++ rest = e ∙ sym (append_assoc before (b ∷ []) rest) in
      let len : length (before ++ b ∷ []) ≡ length before + 1 = length-append before (b ∷ []) in
      let long : length p ≡ length before + suc (length rest) =
        rw e (length-append before (b ∷ rest)) in
      let first : get_or p (length before) 0 ≡ b =
        rw e (get_or-append_at before (b ∷ rest) (length before) 0 refl) in
      let further : (w' : W)
          → length before < i
          → (make_from fs w' (before ++ b ∷ []) rest).0 ≡ true
          → Exists (make_from fs w' (before ++ b ∷ []) rest).1 (take i p) =
        λ w' more ok'.
          make_from_makes rest (before ++ b ∷ []) w' p i e' (omega (arith, len, more)) high end
            ok' in
      let on : W → Bool × W = λ w'. make_from fs w' (before ++ b ∷ []) rest in
      let done : Bool → Bool × W = λ x. if x then and_then fs (make_one fs w before) on else on w in
      elim (Bool-cases (b == b'/')) [
        | inr plain ↦
            let more : length before < i = ground (arith, end, long, low, first, plain) in
            rw plain (further w more (subst (λ x. (done x).0 ≡ true) plain ok))
        | inl slash ↦
            let (one, others, same) =
              and_then-true (make_one fs w before) on (subst (λ x. (done x).0 ≡ true) slash ok) in
            rw (slash, same)
              (elim (Bool-cases (i == length before)) [
                | inl at_once ↦
                    let whole : take i p ≡ before =
                      rw e (take-append i before (b ∷ rest) ((==_iff _ _).0 at_once)) in
                    rw whole (
                      make_from_keeps (make_one fs w before).1 (before ++ b ∷ []) rest before
                        (make_one_makes w before one))
                | inr later ↦ further (make_one fs w before).1 (ground (arith, later, low)) others
              ])
      ]

  -- When `path_mkdir_recursive` returns 0, something of that name exists, a directory or a file, as
  -- `access` with F_OK or the EEXIST of `mkdir` tells it, for each part of the path, cut to 511 bytes,
  -- that ends behind its first byte and before a '/', and for the whole of it.
  pub path_mkdir_recursive_lem :
      (w : W) (path : List ℕ) (i : ℕ)
      → 0 < i
      → i ≤ length (take 511 path)
      → (i ≡ length (take 511 path)) ⊎ (get_or (take 511 path) i 0 ≡ b'/')
      → (path_mkdir_recursive fs w path).0 ≡ true
      → Exists (path_mkdir_recursive fs w path).1 (take i (take 511 path))
  unfolding path_mkdir_recursive make_parts Ends
  path_mkdir_recursive_lem w [] i above high end ok = absurd (ground (arith, ok))
  path_mkdir_recursive_lem w (b ∷ path) i above high end ok =
      make_from_makes (take 510 path) (b ∷ []) w (b ∷ take 510 path) i refl (omega (arith, above))
        high end ok
