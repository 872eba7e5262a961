-- ===== src/Tests/Boot.antt =====
-- The kernel's shell commands on a volume with the long names that they use.
use fat32_reimplementation.Base.{
  ℕ, List, [], ◌∷◌, ◌++◌, replicate, ◌≡◌, refl, Run, done, ◌>>=◌, true,
}
use fat32_reimplementation.Base.Ascii.{ascii}
use fat32_reimplementation.Base.Windows.{slice, window, copy_at, splice}
use fat32_reimplementation.Base.Text.{split, from_utf8, from_utf16, ascii_upper}
use fat32_reimplementation.FileSystem.Names.{short_name_to_string, lfn_checksum}
use fat32_reimplementation.FileSystem.LongNames.{assemble_lfn}
use fat32_reimplementation.FileSystem.Entry.{FileInfo, file_info}
use fat32_reimplementation.Vga.{Writer}
use fat32_reimplementation.Shell.{ls_entries}
use fat32_reimplementation.Kernel.{run_shell}
use fat32_reimplementation.Tests.Fixture.{boot_sector, end_of_chain, text}
use fat32_reimplementation.Tests.Witnesses.{upper}

-- `test_dir` with its long name entry.
abbrev root_entries : List ℕ
root_entries =
    65 ∷ 116 ∷ 0 ∷ 101 ∷ 0 ∷ 115 ∷ 0 ∷ 116 ∷ 0 ∷ 95 ∷ 0 ∷ 15 ∷ 0 ∷ 132 ∷ 100 ∷ 0 ∷ 105 ∷ 0 ∷ 114 ∷ 0
    ∷ 0 ∷ 0 ∷ 255 ∷ 255 ∷ 255 ∷ 255 ∷ 0 ∷ 0 ∷ 255 ∷ 255 ∷ 255 ∷ 255 ∷ 84 ∷ 69 ∷ 83 ∷ 84 ∷ 95 ∷ 68
    ∷ 126 ∷ 49 ∷ 32 ∷ 32 ∷ 32 ∷ 16 ∷ 0 ∷ 0 ∷ 0 ∷ 0 ∷ 0 ∷ 0 ∷ 0 ∷ 0 ∷ 0 ∷ 0 ∷ 0 ∷ 0 ∷ 0 ∷ 0 ∷ 3 ∷ 0
    ∷ 0 ∷ 0 ∷ 0 ∷ 0 ∷ []

-- `.`, `..`, and `test_dir_file` with its long name entry.
abbrev sub_entries : List ℕ
sub_entries =
    46 ∷ 32 ∷ 32 ∷ 32 ∷ 32 ∷ 32 ∷ 32 ∷ 32 ∷ 32 ∷ 32 ∷ 32 ∷ 16 ∷ 0 ∷ 0 ∷ 0 ∷ 0 ∷ 0 ∷ 0 ∷ 0 ∷ 0 ∷ 0
    ∷ 0 ∷ 0 ∷ 0 ∷ 0 ∷ 0 ∷ 3 ∷ 0 ∷ 0 ∷ 0 ∷ 0 ∷ 0 ∷ 46 ∷ 46 ∷ 32 ∷ 32 ∷ 32 ∷ 32 ∷ 32 ∷ 32 ∷ 32 ∷ 32
    ∷ 32 ∷ 16 ∷ 0 ∷ 0 ∷ 0 ∷ 0 ∷ 0 ∷ 0 ∷ 0 ∷ 0 ∷ 0 ∷ 0 ∷ 0 ∷ 0 ∷ 0 ∷ 0 ∷ 0 ∷ 0 ∷ 0 ∷ 0 ∷ 0 ∷ 0 ∷ 65
    ∷ 116 ∷ 0 ∷ 101 ∷ 0 ∷ 115 ∷ 0 ∷ 116 ∷ 0 ∷ 95 ∷ 0 ∷ 15 ∷ 0 ∷ 36 ∷ 100 ∷ 0 ∷ 105 ∷ 0 ∷ 114 ∷ 0
    ∷ 95 ∷ 0 ∷ 102 ∷ 0 ∷ 105 ∷ 0 ∷ 0 ∷ 0 ∷ 108 ∷ 0 ∷ 101 ∷ 0 ∷ 84 ∷ 69 ∷ 83 ∷ 84 ∷ 95 ∷ 68 ∷ 126
    ∷ 50 ∷ 32 ∷ 32 ∷ 32 ∷ 32 ∷ 0 ∷ 0 ∷ 0 ∷ 0 ∷ 0 ∷ 0 ∷ 0 ∷ 0 ∷ 0 ∷ 0 ∷ 0 ∷ 0 ∷ 0 ∷ 0 ∷ 4 ∷ 0 ∷ 5 ∷ 0
    ∷ 0 ∷ 0 ∷ []

abbrev table : List ℕ
table = replicate 8 0xFF ++ (end_of_chain ++ (end_of_chain ++ (end_of_chain ++ replicate 108 0)))

abbrev image : List ℕ
image =
    boot_sector
    ++ (table
        ++ ((root_entries ++ replicate 64 0)
            ++ (sub_entries ++ ((text ++ replicate 123 0) ++ replicate 256 0))))

abbrev screen : Writer
screen = record {
  column_position = 0;
  color_code = 14;
  chars = λ row col. record { ascii_character = b' '; color_code = 14 };
}

-- The commands succeed, and end in `test_dir`, with the two new directories in the root.
abbrev cluster_behind : Run ℕ
cluster_behind = do (_, session) ← run_shell upper 1 screen image; done session.current_cluster

cluster_behind_runs : cluster_behind ≡ done 3
unfolding run_shell ascii_upper slice window copy_at splice short_name_to_string lfn_checksum
    assemble_lfn split from_utf8 from_utf16
cluster_behind_runs = refl

-- What the root then lists.
abbrev root_behind : Run (List FileInfo)
root_behind = do
  (_, session) ← run_shell upper 1 screen image
  ls_entries (record session { current_cluster = 2 })

root_behind_runs :
    root_behind
    ≡ done (
        file_info (ascii "test_dir") true 0 3
        ∷ file_info (ascii "FILE_T") true 0 5
        ∷ file_info (ascii "FOLDER_T") true 0 6
        ∷ [])
unfolding run_shell ls_entries ascii_upper slice window copy_at splice short_name_to_string
    lfn_checksum assemble_lfn split from_utf8 from_utf16
root_behind_runs = refl
