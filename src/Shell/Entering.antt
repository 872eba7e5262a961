-- ===== src/Shell/Entering.antt =====
-- `mkdir`, `cd` into the new directory, `ls_entries` and `cd ..`.
use fat32_reimplementation.Base.{
  ℕ, ◌^◌, ◌≤◌, ◌<◌, ◌≡◌, ◌≢◌, refl, List, [], none, some, done, bind-done, ok,
}
use fat32_reimplementation.FileSystem.{Fat32FileSystem, IsVolume, InData, cluster_size}
use fat32_reimplementation.FileSystem.Names.{short_name_to_string, format_to_8_3}
use fat32_reimplementation.FileSystem.Entry.{FileInfo}
use fat32_reimplementation.FileSystem.Listing.{list_directory_entries}
use fat32_reimplementation.FileSystem.FilePath.{dot_dot, find_name}
use fat32_reimplementation.FileSystem.Directories.{parent_of}
use fat32_reimplementation.FileSystem.Directories.Creation.{HasRoom, IsShortName}
use fat32_reimplementation.FileSystem.Directories.Entering.{IsName, mkdir-entered}
use fat32_reimplementation.Shell.{ShellSession, mkdir, cd, ls_entries, without_dots}

abbrev pub session : Fat32FileSystem → ℕ → ShellSession
session fs cluster = record { fs = fs; current_cluster = cluster }

-- In a session whose current directory is cluster `p` of a volume with clusters of 64 bytes at
-- least, with a parent path that resolves to `p`: if the name has a short form of 11 bytes that
-- begins neither an end mark nor a deleted entry, whose text is one part of a path and not listed in
-- `p`, and there is room (`HasRoom`: a first free slot without a pending long name, nothing listed
-- behind an end mark, and a free cluster `n` below 50000, with all clusters from 2 up to it in use),
-- where `n` lies inside the image and is neither `p` nor the root: `mkdir` succeeds and stays in `p`;
-- `cd` to the short name's text then succeeds, nothing is listed there, and `cd ..` leads back to
-- the session behind `mkdir`.
pub mkdir-cd :
    (to_uppercase : List ℕ → List ℕ) {fs : Fat32FileSystem} (v : IsVolume fs) (path name : List ℕ)
    → (p idx n : ℕ) (short_name : List ℕ) → IsShortName short_name
    → HasRoom fs p idx n
    → InData fs n
    → n ≢ p
    → 64 ≤ cluster_size fs
    → p < 2 ^ 32
    → IsName (short_name_to_string short_name)
    → n ≢ fs.root_cluster
    → parent_of fs path ≡ done (some p)
    → format_to_8_3 to_uppercase name ≡ ok short_name
    → (files : List FileInfo) → list_directory_entries fs p ≡ done files
    → find_name (short_name_to_string short_name) files ≡ none
    → (fs' : Fat32FileSystem) × (mkdir to_uppercase (session fs p) path name
        ≡ done (ok tt, session fs' p))
      × (cd (session fs' p) (short_name_to_string short_name) ≡ done (ok tt, session fs' n))
      × (ls_entries (session fs' n) ≡ done [])
      × (cd (session fs' n) dot_dot ≡ done (ok tt, session fs' p))
unfolding mkdir cd ls_entries without_dots
mkdir-cd to_uppercase {fs} v path name p idx n short_name s room inside ne large small plain
      not_root parent formatted files listing missing =
    let (fs', made, found, fresh, back) =
      mkdir-entered to_uppercase v path name p idx n short_name s room inside ne large small plain
        not_root parent formatted files listing missing in
    (
      fs',
      bind-done _ made refl,
      bind-done _ found refl,
      bind-done _ fresh refl,
      bind-done _ back refl,
    )
