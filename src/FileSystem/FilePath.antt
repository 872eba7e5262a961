-- ===== src/FileSystem/FilePath.antt =====
-- src/file_system.rs: `parse_path` and `find_parent_cluster`.
use mathlib.Core.Option
use fat32_reimplementation.Base.{
  ℕ, List, [], ◌∷◌, ◌==◌, bytes_eq, if◌then◌else◌, Bool, true, false, Option, none, some, Run, done,
  ◌>>=◌,
}
use fat32_reimplementation.Base.Text.{split}
use fat32_reimplementation.FileSystem.{Fat32FileSystem}
use fat32_reimplementation.FileSystem.Entry.{FileInfo, file_info}
use fat32_reimplementation.FileSystem.Listing.{list_directory_entries}

abbrev pub dot : List ℕ
dot = b'.' ∷ []

abbrev pub dot_dot : List ℕ
dot_dot = b'.' ∷ b'.' ∷ []

-- `files.iter().find(|f| f.name == name)`.
unfoldable pub find_name : List ℕ → List FileInfo → Option FileInfo
find_name name [] = none
find_name name (f ∷ files) = if bytes_eq f.name name then some f else find_name name files

unfoldable pub find_parent_cluster : Fat32FileSystem → ℕ → Run (Option ℕ)
unfolding list_directory_entries find_name
find_parent_cluster fs current_cluster = elim (current_cluster == fs.root_cluster) [
  | true ↦ done none
  | false ↦ do
    files ← list_directory_entries fs current_cluster
    done (
        Option.map
          (λ parent. if parent.start_cluster == 0 then fs.root_cluster else parent.start_cluster)
          (find_name dot_dot files))
]

abbrev is_empty {ℓ} : {A : Type ℓ} → List A → Bool
is_empty [] = true
is_empty (x ∷ xs) = false

-- `for (i, part) in parts.iter().enumerate()`, from directory `cluster` on.
unfoldable pub walk : Fat32FileSystem → List (List ℕ) → ℕ → Run (Option FileInfo)
unfolding find_parent_cluster list_directory_entries find_name
walk fs [] cluster = done none
walk fs (part ∷ parts) cluster = do
  files ← list_directory_entries fs cluster
  elim (bytes_eq part dot) [
    | true ↦ walk fs parts cluster
    | false ↦ elim (bytes_eq part dot_dot) [
      | true ↦ do
        parent ← find_parent_cluster fs cluster
        elim parent [
          | none ↦ done none
          | some parent_cluster ↦ elim (is_empty parts) [
            | true ↦ done (some (file_info dot_dot true 0 parent_cluster))
            | false ↦ walk fs parts parent_cluster
          ]
        ]
      | false ↦ elim (find_name part files) [
        | none ↦ done none
        | some file ↦ elim (is_empty parts) [
          | true ↦ done (some file)
          | false ↦ elim file.is_directory [
            | true ↦ walk fs parts file.start_cluster
            | false ↦ done none
          ]
        ]
      ]
    ]
  ]

abbrev drop_empty : List (List ℕ) → List (List ℕ)
drop_empty [] = []
drop_empty ([] ∷ parts) = drop_empty parts
drop_empty ((b ∷ bs) ∷ parts) = (b ∷ bs) ∷ drop_empty parts

-- `path.split("/").filter(|s| !s.is_empty())`.
unfoldable pub path_parts : List ℕ → List (List ℕ)
unfolding split
path_parts path = drop_empty (split b'/' path)

-- `path.starts_with("/") || path.is_empty()`.
abbrev pub from_root : List ℕ → Bool
from_root [] = true
from_root (b ∷ bs) = b == b'/'

unfoldable pub parse_path : Fat32FileSystem → List ℕ → Option ℕ → Run (Option FileInfo)
unfolding walk path_parts
parse_path fs path current_cluster =
    walk fs (path_parts path)
      (if from_root path then fs.root_cluster else Option.get_or current_cluster fs.root_cluster)
