-- ===== src/Paths/Names.antt =====
-- Joining a path and taking its directory, in src/path_manager.c.
use linux_file_manager.Prelude.{
  All, List, [], ap, arith, length, length-append, none, refl, some, take, take-length, ℕ, ◌++◌,
  ◌+◌, ◌-◌, ◌<◌, ◌∙◌, ◌∷◌, ◌≡◌, ◌≢◌, ◌≤◌,
}
use linux_file_manager.Paths.{cut_last, dir_found, path_get_dir, path_join}

abbrev pub HasNoSlash : List ℕ → Type 0
HasNoSlash name = All (λ b. b ≢ b'/') name

cut_last-none : (name : List ℕ) → HasNoSlash name → cut_last name ≡ none
unfolding cut_last
cut_last-none [] h = refl
cut_last-none (b ∷ bs) h = rw (cut_last-none bs h.1) (ground (arith, h.0))

cut_last-some : (dir name : List ℕ) → HasNoSlash name → cut_last (dir ++ b'/' ∷ name) ≡ some dir
unfolding cut_last
cut_last-some [] name h = rw (cut_last-none name h) refl
cut_last-some (b ∷ dir) name h = rw (cut_last-some dir name h) refl

-- When root, '/' and name fit the buffers and the name has no '/', the directory of the joined path is
-- the root.
path_get_dir-path_join :
    (size : ℕ) (root name : List ℕ)
    → length root + 1 + length name < size
    → HasNoSlash name
    → path_get_dir (some (path_join size root name)) size ≡ some root
unfolding path_get_dir path_join dir_found
path_get_dir-path_join size root name fit h =
    let whole : List ℕ = root ++ b'/' ∷ name in
    let len : length whole ≤ size - 1 = omega (arith, length-append root (b'/' ∷ name), fit) in
    let uncut : take (size - 1) whole ≡ whole = take-length (size - 1) whole len in
    ap (λ r. some (dir_found r))
      (ap (λ p. cut_last (take (size - 1) p)) uncut ∙ ap cut_last uncut ∙ cut_last-some root name h)
