-- ===== src/Shell/Posix.antt =====
-- What the file commands rely on: the documented behaviour of calls on a regular file.
use linux_file_manager.Prelude.{
  List, [], ap, arith, drop, inl, inr, length, subst, sym, take, take-length, true, ℕ, ◌++◌, ◌<◌,
  ◌∙◌, ◌≡◌, ◌≤◌, ◌⊎◌,
}
use linux_file_manager.Os.{Errno, Os, Sys, done, failed, read_only, succeeded, write_append}

-- A `read` that does not fail.
abbrev pub Gives : {W : Type 0} → Os W → (W → ℕ → List ℕ → Type 0) → W → ℕ → ℕ → List ℕ → Type 0
Gives os Reading w fd k rest =
    (n : ℕ) × ((os.read_file w fd k).0 ≡ done (take n rest))
    × (n ≤ k)
    × ((rest ≡ []) ⊎ (0 < n))
    × Reading (os.read_file w fd k).1 fd (drop n rest)

-- `Reading w fd rest` says that `fd` reads a file from where `rest` is left of it, `Writing w fd bytes`
-- that `fd` appends to a file that holds `bytes`. A `read` fails, or gives the bytes that are there, at
-- most as many as asked for and at least one before the end. A `write` fails and writes nothing, or puts
-- some first ones of its bytes, none or all of them included, behind the others and returns their number.
-- Neither changes what another descriptor is about.
pub record IsPosix {W : Type 0} (os : Os W) (Reading : W → ℕ → List ℕ → Type 0)
    (Writing : W → ℕ → List ℕ → Type 0) : Type 0 where
  pub read_gives :
      (w : W) (fd k : ℕ) (rest : List ℕ)
      → 0 < k
      → Reading w fd rest
      → ((e : Errno) × ((os.read_file w fd k).0 ≡ failed e)) ⊎ Gives os Reading w fd k rest
  pub read_keeps :
      (w : W) (fd k other : ℕ) (bytes : List ℕ)
      → Writing w other bytes
      → Writing (os.read_file w fd k).1 other bytes
  pub write_puts :
      (w : W) (fd : ℕ) (bytes more : List ℕ)
      → Writing w fd bytes
      → ((e : Errno) × ((os.write_file w fd more).0 ≡ failed e)
          × Writing (os.write_file w fd more).1 fd bytes)
        ⊎ ((n : ℕ) × ((os.write_file w fd more).0 ≡ done n)
            × (n ≤ length more)
            × Writing (os.write_file w fd more).1 fd (bytes ++ take n more))
  pub write_keeps :
      (w : W) (fd other : ℕ) (more rest : List ℕ)
      → Reading w other rest
      → Reading (os.write_file w fd more).1 other rest

-- No `read` of such a descriptor fails; and every `write` to one takes all its bytes.
abbrev pub ReadsSucceed : {W : Type 0} → Os W → (W → ℕ → List ℕ → Type 0) → Type 0
ReadsSucceed {W} os Reading =
    (w : W) (fd k : ℕ) (rest : List ℕ)
    → Reading w fd rest
    → succeeded (os.read_file w fd k).0 ≡ true

abbrev pub WritesWhole : {W : Type 0} → Os W → (W → ℕ → List ℕ → Type 0) → Type 0
WritesWhole {W} os Writing =
    (w : W) (fd : ℕ) (bytes more : List ℕ)
    → Writing w fd bytes
    → (os.write_file w fd more).0 ≡ done (length more)

abbrev done_or : ℕ → Sys ℕ → ℕ
done_or k (done n) = n
done_or k (failed e) = k

module _ {W : Type 0} (os : Os W) (Reading : W → ℕ → List ℕ → Type 0)
    (Writing : W → ℕ → List ℕ → Type 0) (posix : IsPosix os Reading Writing) where
  pub read_sure :
      ReadsSucceed os Reading
      → (w : W) (fd k : ℕ) (rest : List ℕ) → 0 < k
      → Reading w fd rest
      → Gives os Reading w fd k rest
  read_sure sure w fd k rest some_room r = elim (posix.read_gives w fd k rest some_room r) [
    | inl (e, fails) ↦ absurd (ground (arith, ap succeeded fails, sure w fd k rest r))
    | inr gives ↦ gives
  ]

  -- What a `write` that returns `n` has put there.
  pub write_counts :
      (w : W) (fd n : ℕ) (bytes more : List ℕ)
      → Writing w fd bytes
      → (os.write_file w fd more).0 ≡ done n
      → (n ≤ length more) × Writing (os.write_file w fd more).1 fd (bytes ++ take n more)
  write_counts w fd n bytes more h puts = elim (posix.write_puts w fd bytes more h) [
    | inl (e, fails, same) ↦ absurd (ground (arith, ap succeeded fails, ap succeeded puts))
    | inr (k, counts, most, later) ↦
        let same : k ≡ n = ap (done_or 0) (sym counts ∙ puts) in
        (
          omega (arith, most, same),
          subst (λ i. Writing (os.write_file w fd more).1 fd (bytes ++ take i more)) same later,
        )
  ]

  pub write_whole :
      WritesWhole os Writing
      → (w : W) (fd : ℕ) (bytes more : List ℕ) → Writing w fd bytes
      → Writing (os.write_file w fd more).1 fd (bytes ++ more)
  write_whole whole w fd bytes more h =
      let (most, later) = write_counts w fd (length more) bytes more h (whole w fd bytes more h) in
      subst (λ xs. Writing (os.write_file w fd more).1 fd (bytes ++ xs))
        (take-length (length more) more (omega arith)) later

-- One path over time: `Content w bytes` says that the file there holds `bytes`. Opening it for
-- appending or for reading succeeds, and what was written is there when the descriptor is closed.
pub record IsFile {W : Type 0} (os : Os W) (Reading : W → ℕ → List ℕ → Type 0)
    (Writing : W → ℕ → List ℕ → Type 0) (path : List ℕ) (Content : W → List ℕ → Type 0)
    : Type 0 where
  pub opens_append :
      (w : W) (bytes : List ℕ)
      → Content w bytes
      → (fd : ℕ) × (w' : W) × (os.open_file w path write_append ≡ (done fd, w'))
        × Writing w' fd bytes
  pub opens_read :
      (w : W) (bytes : List ℕ)
      → Content w bytes
      → (fd : ℕ) × (w' : W) × (os.open_file w path read_only ≡ (done fd, w')) × Reading w' fd bytes
  pub close_keeps :
      (w : W) (fd : ℕ) (bytes : List ℕ) → Writing w fd bytes → Content (os.close_file w fd) bytes
