-- ===== src/Shell/Tests.antt =====
-- The commands of src/file_manager.c and src/directory.c over a small disk.
use linux_file_manager.Prelude.{
  Bool, List, [], ap, arith, sym, take-length, ◌∙◌, drop, get_or, if◌then◌else◌, inr, length, refl,
  some, take, text, true, ℕ, ◌++◌, ◌+◌, ◌<◌, ◌==◌, ◌∷◌, ◌≡◌, ◌≤◌, ◌⊎◌,
}
use linux_file_manager.Os.{
  OpenMode, Os, Sys, create_append, create_truncate, create_write, done, enoent, enotempty, failed,
  other_errno, read_only, write_append,
}
use linux_file_manager.Shell.{Shell, fm_read, fm_write}
use linux_file_manager.Shell.Posix.{IsFile, IsPosix, ReadsSucceed, WritesWhole}
use linux_file_manager.Shell.Contents.{ReadOrFails, fm_read-fm_write}
use linux_file_manager.Shell.Directories.{dir_list}
use linux_file_manager.Shell.Directories.Listing.{dir_list_lem, lines, visible}

-- Two files, the source "s" and a target, which any other path names; descriptor 3 reads, 4 writes.
pub record Disk : Type 0 where
  pub source : List ℕ
  pub target : List ℕ
  pub unread : List ℕ

abbrev pub is_source : List ℕ → Bool
is_source path = get_or path 0 0 == b's'

abbrev pub open_disk : Disk → List ℕ → OpenMode → Sys ℕ × Disk
open_disk w path read_only =
    (done 3, record w { unread = if is_source path then w.source else w.target })
open_disk w path create_truncate = (done 4, record w { target = [] })
open_disk w path write_append = (done 4, w)
open_disk w path create_write = (done 4, w)
open_disk w path create_append = (done 4, w)

abbrev pub names_of : List ℕ → Sys (List (List ℕ))
names_of path = done (text "." ∷ text "b" ∷ text ".hidden" ∷ text "a" ∷ [])

abbrev pub disk_os : Os Disk
disk_os = record {
  open_file = open_disk;
  read_file = λ w fd k. (done (take k w.unread), record w { unread = drop k w.unread });
  write_file = λ w fd more. (done (length more), record w { target = w.target ++ more });
  close_file = λ w fd. w;
  access_file = λ w path mode. done tt;
  unlink = λ w path. (done tt, record w { target = [] });
  mkdir_path = λ w path. (done tt, w);
  rmdir = λ w path. (failed enotempty, w);
  stat_path = λ w path. failed enoent;
  list_names = λ w path. names_of path;
  read_link = λ w. some (text "/app/file_manager");
}

abbrev pub Reads : Disk → ℕ → List ℕ → Type 0
Reads w fd rest = w.unread ≡ rest

abbrev pub Writes : Disk → ℕ → List ℕ → Type 0
Writes w fd bytes = w.target ≡ bytes

abbrev pub Holds : Disk → List ℕ → Type 0
Holds w bytes = w.target ≡ bytes

pub disk-IsPosix : IsPosix disk_os Reads Writes
disk-IsPosix = record {
  read_gives = λ w fd k rest some_room r.
      inr (k, ap (λ xs. done (take k xs)) r, omega arith, inr some_room, ap (drop k) r);
  read_keeps = λ w fd k other bytes h. h;
  write_puts = λ w fd bytes more h. inr (
    length more,
    refl,
    omega arith,
    ap (λ xs. xs ++ more) h
        ∙ ap (λ xs. bytes ++ xs) (sym (take-length (length more) more (omega arith))),
  );
  write_keeps = λ w fd other more rest h. h;
}

pub disk-ReadsSucceed : ReadsSucceed disk_os Reads
disk-ReadsSucceed w fd k rest r = refl

pub disk-WritesWhole : WritesWhole disk_os Writes
disk-WritesWhole w fd bytes more h = refl

-- The same disk, where a `write` takes at most two bytes.
abbrev short_os : Os Disk
short_os = record disk_os {
  write_file =
      λ w fd more. (done (length (take 2 more)), record w { target = w.target ++ take 2 more });
}

short_puts :
    (xs : List ℕ) (more : List ℕ)
    → (length (take 2 more) ≤ length more)
      × (xs ++ take 2 more ≡ xs ++ take (length (take 2 more)) more)
short_puts xs [] = (omega arith, refl)
short_puts xs (a ∷ []) = (omega arith, refl)
short_puts xs (a ∷ b ∷ more) = (omega arith, refl)

short-IsPosix : IsPosix short_os Reads Writes
short-IsPosix = record {
  read_gives = disk-IsPosix.read_gives;
  read_keeps = λ w fd k other bytes h. h;
  write_puts = λ w fd bytes more h.
      let (most, same) = short_puts bytes more in
      inr (length (take 2 more), refl, most, ap (λ xs. xs ++ take 2 more) h ∙ same);
  write_keeps = λ w fd other more rest h. h;
}

short-IsFile : IsFile short_os Reads Writes (text "t") Holds
short-IsFile = record {
  opens_append = λ w bytes h. (4, w, refl, h);
  opens_read = λ w bytes h. (3, record w { unread = w.target }, refl, h);
  close_keeps = λ w fd bytes h. h;
}

pub disk-IsFile : IsFile disk_os Reads Writes (text "t") Holds
disk-IsFile = record {
  opens_append = λ w bytes h. (4, w, refl, h);
  opens_read = λ w bytes h. (3, record w { unread = w.target }, refl, h);
  close_keeps = λ w fd bytes h. h;
}

abbrev pub sample_shell : Shell Disk
sample_shell = record {
  world = record { source = text "abc"; target = text "x"; unread = [] };
  errno = other_errno 0;
  logged = [];
}

abbrev room : List ℕ
room = 9 ∷ 9 ∷ 9 ∷ 9 ∷ []

fm_read-fm_write_example :
    let written = fm_write short_os sample_shell (text "t") (text "yzu") in
    (2 ≤ 3)
    × (written.0 ≡ true)
    × Holds written.1.world (text "x" ++ text "yz")
    × ReadOrFails short_os Reads Writes short-IsPosix
        (text "t")
        Holds
        short-IsFile
        (fm_read short_os written.1 (text "t") room 4)
        4
        (text "x" ++ text "yz")
fm_read-fm_write_example =
    fm_read-fm_write short_os Reads Writes short-IsPosix (text "t") Holds short-IsFile sample_shell
      (text "x") (text "yzu") room 4 4 2 sample_shell.world refl refl refl (omega arith)
      (omega arith)

dir_list_lem_example :
    let (ok, out, sh') = dir_list disk_os sample_shell (text "d") [] 4 in
    (ok ≡ true)
    × (length out < 4)
    × ((out ≡ lines (visible (text "." ∷ text "b" ∷ text ".hidden" ∷ text "a" ∷ [])))
        ⊎ ((k : ℕ) × (out
              ≡ lines (take k (visible (text "." ∷ text "b" ∷ text ".hidden" ∷ text "a" ∷ []))))
            × (4
                ≤ length (lines (visible (text "." ∷ text "b" ∷ text ".hidden" ∷ text "a" ∷ [])))
                  + 1)))
dir_list_lem_example =
    dir_list_lem disk_os sample_shell (text "d") [] 4
      (text "." ∷ text "b" ∷ text ".hidden" ∷ text "a" ∷ []) (omega arith) refl
