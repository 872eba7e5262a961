-- ===== src/Tests/Runs.antt =====
-- Runs of the file system on the example volume.
use fat32_reimplementation.Base.{
  ℕ, List, [], ◌∷◌, map, ◌≡◌, refl, Run, done, ◌>>=◌, Result, ok, none, false,
}
use fat32_reimplementation.Base.Windows.{slice, window, copy_at, splice}
use fat32_reimplementation.Base.Text.{ascii_upper, from_utf8}
use fat32_reimplementation.FileSystem.Names.{short_name_to_string}
use fat32_reimplementation.FileSystem.{mount}
use fat32_reimplementation.FileSystem.Entry.{file_info}
use fat32_reimplementation.FileSystem.Listing.{list_directory_entries}
use fat32_reimplementation.FileSystem.Directories.{create_file, mkdir}
use fat32_reimplementation.FileSystem.Files.{read_file, write_file}
use fat32_reimplementation.Tests.Fixture.{text, test_name, image, volume}

mount-image : mount image ≡ done volume
unfolding mount slice window
mount-image = refl

list_root : list_directory_entries volume 2 ≡ done (file_info test_name false 5 3 ∷ [])
unfolding list_directory_entries slice window short_name_to_string from_utf8
list_root = refl

read_test : read_file 4 volume test_name none ≡ done (ok text)
unfolding read_file slice window short_name_to_string
read_test = refl

abbrev upper : List ℕ → List ℕ
upper = map ascii_upper

abbrev a_file : List ℕ
a_file = b'N' ∷ b'E' ∷ b'W' ∷ []

abbrev session : Run (Result (List ℕ))
session = do
  (_, fs1) ← create_file upper volume [] a_file
  (_, fs2) ← mkdir upper fs1 [] (b'D' ∷ [])
  (_, fs3) ← write_file upper fs2 (b'/' ∷ a_file) text
  read_file 4 fs3 a_file none

session_runs : session ≡ done (ok text)
unfolding create_file mkdir write_file read_file ascii_upper slice window copy_at splice
    short_name_to_string
session_runs = refl
