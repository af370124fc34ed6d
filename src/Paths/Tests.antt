-- ===== src/Paths/Tests.antt =====
-- src/path_manager.c over a file system that is the list of its directories.
use linux_file_manager.Prelude.{
  Bool, List, [], arith, false, inr, refl, true, ℕ, ◌&&◌, ◌==◌, ◌||◌, ◌∷◌, ◌≡◌,
}
use linux_file_manager.Paths.{
  FileSystem, and_then, made, make_from, make_one, make_parts, mkdir_ok, path_mkdir_recursive,
}
use linux_file_manager.Paths.Directories.{IsFileSystem, path_mkdir_recursive_lem}

same_path : List ℕ → List ℕ → Bool
same_path [] [] = true
same_path [] (y ∷ ys) = false
same_path (x ∷ xs) [] = false
same_path (x ∷ xs) (y ∷ ys) = x == y && same_path xs ys

same_path_refl : (p : List ℕ) → same_path p p ≡ true
unfolding same_path
same_path_refl [] = refl
same_path_refl (x ∷ xs) = ground (arith, same_path_refl xs)

in_list : List (List ℕ) → List ℕ → Bool
unfolding same_path
in_list [] p = false
in_list (q ∷ qs) p = same_path q p || in_list qs p

abbrev listed : FileSystem (List (List ℕ))
listed = record { access = in_list; mkdir = λ w p. (made, p ∷ w) }

abbrev IsListed : List (List ℕ) → List ℕ → Type 0
IsListed w p = in_list w p ≡ true

listed-IsFileSystem : IsFileSystem listed IsListed
unfolding in_list
listed-IsFileSystem = record {
  access_sound = λ w p h. h;
  mkdir_made = λ w p h. rw (same_path_refl p) refl;
  mkdir_keeps = λ w p q h. ground (arith, h);
}

both_made : (path_mkdir_recursive listed [] (b'a' ∷ b'/' ∷ b'b' ∷ [])).0 ≡ true
unfolding path_mkdir_recursive make_parts make_from make_one mkdir_ok and_then in_list same_path
both_made = refl

-- "a/b": the parent is there after the call.
path_mkdir_recursive_lem_example :
    IsListed (path_mkdir_recursive listed [] (b'a' ∷ b'/' ∷ b'b' ∷ [])).1 (b'a' ∷ [])
path_mkdir_recursive_lem_example =
    path_mkdir_recursive_lem listed IsListed listed-IsFileSystem [] (b'a' ∷ b'/' ∷ b'b' ∷ []) 1
      (omega arith) (omega arith) (inr refl) both_made
