-- ===== src/Tests/Entering.antt =====
-- A directory of the example volume, made and entered.
use fat32_reimplementation.Base.{◌≡◌, refl, List, [], ◌∷◌, none, false, arith, done, ok}
use fat32_reimplementation.Base.Windows.{slice, window}
use fat32_reimplementation.Base.Text.{split, from_utf8}
use fat32_reimplementation.FileSystem.{Fat32FileSystem}
use fat32_reimplementation.FileSystem.Names.{short_name_to_string}
use fat32_reimplementation.FileSystem.Entry.{FileInfo, file_info}
use fat32_reimplementation.FileSystem.FilePath.{dot_dot, find_name, path_parts}
use fat32_reimplementation.FileSystem.Listing.{list_directory_entries}
use fat32_reimplementation.FileSystem.Directories.Entering.{IsName}
use fat32_reimplementation.Shell.{mkdir, cd, ls_entries}
use fat32_reimplementation.Shell.Entering.{session, mkdir-cd}
use fat32_reimplementation.Tests.Fixture.{volume, test_name}
use fat32_reimplementation.Tests.Volume.{volume-IsVolume, volume-InData}
use fat32_reimplementation.Tests.Witnesses.{upper}
use fat32_reimplementation.Tests.Directories.{
  new_name, new_short, new_short-IsShortName, root-HasRoom, root_parent, new_formatted,
}

new_text : short_name_to_string new_short ≡ new_name
unfolding short_name_to_string window from_utf8
new_text = refl

pub new_short-IsName : IsName (short_name_to_string new_short)
unfolding short_name_to_string window from_utf8 path_parts split
new_short-IsName = record { one_part = refl; relative = refl; not_dot = refl; not_dot_dot = refl }

abbrev pub root_files : List FileInfo
root_files = file_info test_name false 5 3 ∷ []

pub root_listed : list_directory_entries volume 2 ≡ done root_files
unfolding list_directory_entries slice window short_name_to_string from_utf8
root_listed = refl

pub not_listed : find_name (short_name_to_string new_short) root_files ≡ none
unfolding find_name short_name_to_string window from_utf8
not_listed = refl

mkdir-cd_example :
    (fs' : Fat32FileSystem) × (mkdir upper (session volume 2) [] new_name
      ≡ done (ok tt, session fs' 2))
    × (cd (session fs' 2) (short_name_to_string new_short) ≡ done (ok tt, session fs' 4))
    × (ls_entries (session fs' 4) ≡ done [])
    × (cd (session fs' 4) dot_dot ≡ done (ok tt, session fs' 2))
mkdir-cd_example =
    mkdir-cd upper volume-IsVolume [] new_name 2 1 4 new_short new_short-IsShortName root-HasRoom
      (volume-InData 4 (omega arith) (omega arith)) (omega arith) (omega arith) (omega arith)
      new_short-IsName (omega arith) root_parent new_formatted root_files root_listed not_listed
