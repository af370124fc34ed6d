-- ===== src/Menu/Messages.antt =====
-- What src/menu.c prints: the menu, the information on a file, and the messages of a failure by
-- `errno`.
use linux_file_manager.Prelude.{List, String, [], if◌then◌else◌, suc, zero, ℕ, ◌%◌, ◌/◌, ◌==◌, ◌∷◌}
use linux_file_manager.Os.{Errno, Stat, eacces, eexist, eisdir, enoent, enotdir, enotempty}
use linux_file_manager.Terminal.{
  Output, failure, line_output, printed, printed_bytes, printed_number, system_error,
}

pub menu_lines : List Output
menu_lines =
    line_output
    ∷ printed "        Linux File Manager\n"
    ∷ line_output
    ∷ printed "1. Create File\n"
    ∷ printed "2. Delete File\n"
    ∷ printed "3. Write File\n"
    ∷ printed "4. Read File\n"
    ∷ printed "5. Copy File\n"
    ∷ printed "6. File Information\n"
    ∷ printed "7. List Directory\n"
    ∷ printed "8. Create Directory\n"
    ∷ printed "9. Delete Directory\n"
    ∷ printed "10. View Log\n"
    ∷ printed "11. Start Server\n"
    ∷ printed "0. Exit\n"
    ∷ line_output
    ∷ printed "Input:"
    ∷ []

pub zeros : ℕ → List ℕ
zeros zero = []
zeros (suc n) = 0 ∷ zeros n

-- `S_ISREG`, `S_ISDIR` and `S_ISLNK` look at the bits of `S_IFMT`.
pub file_type : ℕ → String
file_type mode =
    let kind = mode / 4096 % 16 in
    if kind == 8
    then "Regular file\n"
    else if kind == 4
    then "Directory\n"
    else if kind == 10
    then "Symbolic link\n"
    else "Other\n"

-- `ctime` is left as the time, and `%o` as the number of the nine mode bits.
pub file_info : Stat → List ℕ → List Output
unfolding file_type
file_info st path =
    printed "\n========== File Information ==========\n"
    ∷ printed "File path      : "
    ∷ printed_bytes path
    ∷ printed "File size      : "
    ∷ printed_number st.st_size
    ∷ printed "File mode      : "
    ∷ printed_number (st.st_mode % 512)
    ∷ printed "Hard links     : "
    ∷ printed_number st.st_nlink
    ∷ printed "Owner UID      : "
    ∷ printed_number st.st_uid
    ∷ printed "Owner GID      : "
    ∷ printed_number st.st_gid
    ∷ printed "Last access    : "
    ∷ printed_number st.st_atime
    ∷ printed "Last modify    : "
    ∷ printed_number st.st_mtime
    ∷ printed "Last change    : "
    ∷ printed_number st.st_ctime
    ∷ printed "File type      : "
    ∷ printed (file_type st.st_mode)
    ∷ line_output
    ∷ []

pub create_failure : Errno → List Output
create_failure enoent =
    printed "[ERROR] Directory does not exist, please create directory first\n"
    ∷ failure "Create file failed"
    ∷ []
create_failure eacces = printed "[ERROR] Permission denied\n" ∷ failure "Create file failed" ∷ []
create_failure e = system_error "create file" e ∷ failure "Create file failed" ∷ []

pub delete_failure : Errno → List Output
delete_failure e = failure "Delete file failed" ∷ []

pub write_failure : Errno → List Output
write_failure enoent = failure "File does not exist" ∷ failure "Write file failed" ∷ []
write_failure eacces = failure "Permission denied" ∷ failure "Write file failed" ∷ []
write_failure eisdir = failure "Target is a directory" ∷ failure "Write file failed" ∷ []
write_failure e = failure "Write file failed" ∷ failure "Write file failed" ∷ []

pub read_failure : Errno → List Output
read_failure enoent = failure "File does not exist" ∷ failure "Read file failed" ∷ []
read_failure eacces = failure "Permission denied" ∷ failure "Read file failed" ∷ []
read_failure eisdir = failure "Target is a directory" ∷ failure "Read file failed" ∷ []
read_failure e = failure "Read file failed" ∷ failure "Read file failed" ∷ []

pub copy_failure : Errno → List Output
copy_failure enoent = failure "Source file does not exist" ∷ []
copy_failure eacces = failure "Permission denied" ∷ []
copy_failure e = failure "Copy failed" ∷ []

pub info_failure : Errno → List Output
info_failure enoent = failure "File does not exist" ∷ []
info_failure eacces = failure "Permission denied" ∷ []
info_failure e = failure "Get information failed" ∷ []

pub list_failure : Errno → List Output
list_failure enoent = failure "Directory does not exist" ∷ []
list_failure eacces = failure "Permission denied" ∷ []
list_failure enotdir = failure "Path is not a directory" ∷ []
list_failure e = failure "List directory failed" ∷ []

pub make_dir_failure : Errno → List Output
make_dir_failure eexist = failure "Directory already exists" ∷ []
make_dir_failure eacces = failure "Permission denied" ∷ []
make_dir_failure e = failure "Create directory failed" ∷ []

pub remove_dir_failure : Errno → List Output
remove_dir_failure enotempty = failure "Directory is not empty" ∷ []
remove_dir_failure enoent = failure "Directory does not exist" ∷ []
remove_dir_failure eacces = failure "Permission denied" ∷ []
remove_dir_failure e = failure "Delete directory failed" ∷ []
