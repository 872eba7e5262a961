-- ===== src/Shell.antt =====
-- src/file_system/interface.rs. The session holds the file system itself: a single session stands
-- for the shared reference and its lock. What a command prints is its result.
pub mod Moving
pub mod Entering
pub mod Keeping
use mathlib.Core.Option
use fat32_reimplementation.Base.{
  ℕ, List, [], ◌∷◌, ◌++◌, bytes_eq, ◌||◌, if◌then◌else◌, true, false, Option, none, some, Run, done,
  ◌>>=◌, Result, ok, err, String,
}
use fat32_reimplementation.FileSystem.{Fat32FileSystem}
use fat32_reimplementation.FileSystem.Entry.{FileInfo}
use fat32_reimplementation.FileSystem.Listing.{list_directory_entries}
use fat32_reimplementation.FileSystem.FilePath.{dot, dot_dot, parse_path}
use fat32_reimplementation.FileSystem.Directories as Directories
use fat32_reimplementation.FileSystem.Files.{read_file, write_file}

pub record ShellSession : Type 0 where
  pub fs : Fat32FileSystem
  pub current_cluster : ℕ

unfoldable pub new : Fat32FileSystem → ShellSession
new fs = record { fs = fs; current_cluster = fs.root_cluster }

-- The entries other than `.` and `..`.
unfoldable pub without_dots : List FileInfo → List FileInfo
without_dots [] = []
without_dots (f ∷ files) =
    if bytes_eq f.name dot || bytes_eq f.name dot_dot
    then without_dots files
    else f ∷ without_dots files

abbrev dir_label : List ℕ
dir_label = b'[' ∷ b'D' ∷ b'I' ∷ b'R' ∷ b']' ∷ []

abbrev file_label : List ℕ
file_label = b'[' ∷ b'F' ∷ b'I' ∷ b'L' ∷ b'E' ∷ b']' ∷ []

-- The loop of `ls`, with its line end.
unfoldable pub print_files : List FileInfo → List ℕ
print_files [] = b'\n' ∷ []
print_files (f ∷ files) =
    if bytes_eq f.name dot || bytes_eq f.name dot_dot
    then print_files files
    else (if f.is_directory then dir_label else file_label)
      ++ b' ' ∷ f.name
      ++ b' ' ∷ print_files files

unfoldable pub print_directory : Fat32FileSystem → ℕ → Run (Result (List ℕ))
unfolding list_directory_entries print_files
print_directory fs cluster = do
  files ← list_directory_entries fs cluster
  done (ok (b'>' ∷ b' ' ∷ print_files files))

unfoldable pub ls : ShellSession → Option (List ℕ) → Run (Result (List ℕ))
unfolding parse_path print_directory
ls session none = print_directory session.fs session.current_cluster
ls session (some p) = do
  found ← parse_path session.fs p (some session.current_cluster)
  elim found [
    | none ↦ done (err "Entry not found")
    | some file ↦ print_directory session.fs file.start_cluster
  ]

unfoldable pub cd : ShellSession → List ℕ → Run (Result (Unit {0}) × ShellSession)
unfolding parse_path
cd session path = do
  found ← parse_path session.fs path (some session.current_cluster)
  elim found [
    | none ↦ done (err "Entry not found", session)
    | some file ↦ elim file.is_directory [
      | false ↦ done (err "Not a directory", session)
      | true ↦ done (ok tt, record session { current_cluster = file.start_cluster })
    ]
  ]

unfoldable pub ls_entries : ShellSession → Run (List FileInfo)
unfolding list_directory_entries without_dots
ls_entries session = do
  files ← list_directory_entries session.fs session.current_cluster
  done (without_dots files)

-- What `cat` prints in front of the line end.
pub data Printed : Type 0 where
  content : List ℕ → Printed
  message : String → Printed

unfoldable pub cat : ℕ → ShellSession → List ℕ → Run (Result Printed)
unfolding read_file
cat fuel session path = do
  data_read ← read_file fuel session.fs path none
  elim data_read [ ok text ↦ done (ok (content text)) | err e ↦ done (ok (message e)) ]

module _ (to_uppercase : List ℕ → List ℕ) where
  unfoldable pub mkdir : ShellSession → List ℕ → List ℕ → Run (Result (Unit {0}) × ShellSession)
  unfolding Directories.mkdir
  mkdir session parent_path folder_name = do
    (result, fs) ← Directories.mkdir to_uppercase session.fs parent_path folder_name
    done (result, record session { fs = fs })

  unfoldable pub touch : ShellSession → List ℕ → List ℕ → Run (Result (Unit {0}) × ShellSession)
  unfolding Directories.create_file
  touch session parent_path file_name = do
    (result, fs) ← Directories.create_file to_uppercase session.fs parent_path file_name
    done (result, record session { fs = fs })

  unfoldable pub write : ShellSession → List ℕ → List ℕ → Run (Result (Unit {0}) × ShellSession)
  unfolding write_file
  write session path text = do
    (result, fs) ← write_file to_uppercase session.fs path text
    done (result, record session { fs = fs })
