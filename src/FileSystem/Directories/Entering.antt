-- ===== src/FileSystem/Directories/Entering.antt =====
-- A new directory is entered by its name, is empty, and leads back.
use mathlib.Core.Path.{subst}
use fat32_reimplementation.Base.{
  ℕ, ◌^◌, ◌≤◌, ◌<◌, ◌≡◌, ◌≢◌, refl, ap, sym, ◌∙◌, List, [], ◌∷◌, ◌++◌, Bool, true, false, none,
  some, done, bind-done, ok, arith, bytes_eq, bytes_eq_refl, ◌==◌, ne→==, if◌then◌else◌, Bool-cases,
  inl, inr,
}
use fat32_reimplementation.Base.Text.{split}
use fat32_reimplementation.FileSystem.{Fat32FileSystem, IsVolume, InData, cluster_size}
use fat32_reimplementation.FileSystem.Names.{short_name_to_string, format_to_8_3}
use fat32_reimplementation.FileSystem.Entry.{FileInfo, file_info}
use fat32_reimplementation.FileSystem.Listing.{list_directory_entries}
use fat32_reimplementation.FileSystem.FilePath.{
  dot, dot_dot, find_name, find_parent_cluster, walk, path_parts, from_root, parse_path,
}
use fat32_reimplementation.FileSystem.Directories.{parent_of, mkdir}
use fat32_reimplementation.FileSystem.Directories.Fresh.{recorded_parent, directory_bytes}
use fat32_reimplementation.FileSystem.Directories.Creation.{HasRoom, IsShortName}
use fat32_reimplementation.FileSystem.Directories.Subdirectory.{mkdir_lem}
use fat32_reimplementation.FileSystem.Directories.Opening.{fresh-listing}

-- A path that is one name.
pub record IsName (text : List ℕ) : Type 0 where
  pub one_part : path_parts text ≡ text ∷ []
  pub relative : from_root text ≡ false
  pub not_dot : bytes_eq text dot ≡ false
  pub not_dot_dot : bytes_eq text dot_dot ≡ false

pub find_name-behind :
    (name : List ℕ) (before after : List FileInfo) (file : FileInfo)
    → file.name ≡ name
    → find_name name (before ++ after) ≡ none
    → find_name name (before ++ file ∷ after) ≡ some file
unfolding find_name
find_name-behind name [] after file same e =
    ap (λ (n : List ℕ). if bytes_eq file.name n then some file else find_name name after) (sym same)
    ∙ ap (λ (b : Bool). if b then some file else find_name name after) (bytes_eq_refl file.name)
find_name-behind name (f ∷ before) after file same e = elim (Bool-cases (bytes_eq f.name name)) [
  | inl found ↦ absurd (
      ground
        (arith, ap (λ (b : Bool). if b then some f else find_name name (before ++ after)) found))
  | inr other ↦
      let rest : find_name name (before ++ after) ≡ none =
        sym (ap (λ (b : Bool). if b then some f else find_name name (before ++ after)) other) ∙ e in
      ap (λ (b : Bool). if b then some f else find_name name (before ++ file ∷ after)) other
      ∙ find_name-behind name before after file same rest
]

-- A name that a directory lists is found.
pub parse_path-name :
    (fs : Fat32FileSystem) (text : List ℕ) (p : ℕ) (files : List FileInfo) (file : FileInfo)
    → IsName text
    → list_directory_entries fs p ≡ done files
    → find_name text files ≡ some file
    → parse_path fs text (some p) ≡ done (some file)
unfolding parse_path walk
parse_path-name fs text p files file plain listing found =
    ap (λ (b : Bool). walk fs (path_parts text) (if b then fs.root_cluster else p)) plain.relative
    ∙ ap (λ (parts : List (List ℕ)). walk fs parts p) plain.one_part
    ∙ bind-done _ listing (rw (plain.not_dot) (rw (plain.not_dot_dot) (rw found refl)))

parts_of_dot_dot : path_parts dot_dot ≡ dot_dot ∷ []
unfolding path_parts split
parts_of_dot_dot = refl

parent_found :
    (fs : Fat32FileSystem) (c parent : ℕ)
    → c ≢ fs.root_cluster
    → list_directory_entries fs c
      ≡ done (file_info dot true 0 c ∷ file_info dot_dot true 0 parent ∷ [])
    → find_parent_cluster fs c ≡ done (some (if parent == 0 then fs.root_cluster else parent))
unfolding find_parent_cluster find_name
parent_found fs c parent ne listing =
    rw (find_parent_cluster, ne→== c fs.root_cluster ne) (bind-done _ listing refl)

-- `..` of a directory that lists its parent.
pub parse_path-dot_dot :
    (fs : Fat32FileSystem) (c parent : ℕ)
    → c ≢ fs.root_cluster
    → list_directory_entries fs c
      ≡ done (file_info dot true 0 c ∷ file_info dot_dot true 0 parent ∷ [])
    → parse_path fs dot_dot (some c)
      ≡ done (some (file_info dot_dot true 0 (if parent == 0 then fs.root_cluster else parent)))
unfolding parse_path walk
parse_path-dot_dot fs c parent ne listing =
    ap (λ (parts : List (List ℕ)). walk fs parts c) parts_of_dot_dot
    ∙ bind-done _ listing (bind-done _ (parent_found fs c parent ne listing) refl)

recorded_back :
    (fs : Fat32FileSystem) (root p : ℕ)
    → root ≡ fs.root_cluster
    → 2 ≤ p
    → (if recorded_parent fs p == 0 then root else recorded_parent fs p) ≡ p
recorded_back fs root p e low = ground arith

recorded_small : (fs : Fat32FileSystem) (p : ℕ) → p < 2 ^ 32 → recorded_parent fs p < 2 ^ 32
recorded_small fs p small = ground arith

-- Under the conditions of `mkdir-listing`, with a displayed name that is one part of a path, that
-- the parent does not list, and a cluster other than the root's.
module _ (to_uppercase : List ℕ → List ℕ) {fs : Fat32FileSystem} (v : IsVolume fs)
    (path name : List ℕ) (p idx n : ℕ) (short_name : List ℕ) (s : IsShortName short_name)
    (room : HasRoom fs p idx n) (inside : InData fs n) (ne : n ≢ p) (large : 64 ≤ cluster_size fs)
    (small : p < 2 ^ 32) (plain : IsName (short_name_to_string short_name))
    (not_root : n ≢ fs.root_cluster) where
  pub mkdir-entered :
      parent_of fs path ≡ done (some p)
      → format_to_8_3 to_uppercase name ≡ ok short_name
      → (files : List FileInfo) → list_directory_entries fs p ≡ done files
      → find_name (short_name_to_string short_name) files ≡ none
      → (fs' : Fat32FileSystem) × (mkdir to_uppercase fs path name ≡ done (ok tt, fs'))
        × (parse_path fs' (short_name_to_string short_name) (some p)
            ≡ done (some (file_info (short_name_to_string short_name) true 0 n)))
        × (list_directory_entries fs' n
            ≡ done (file_info dot true 0 n ∷ file_info dot_dot true 0 (recorded_parent fs p) ∷ []))
        × (parse_path fs' dot_dot (some n) ≡ done (some (file_info dot_dot true 0 p)))
  mkdir-entered parent formatted files listing missing =
      let text = short_name_to_string short_name in
      let (fs', before, after, old, made, new, bytes, v', inside', root, size) =
        mkdir_lem to_uppercase v path name p idx n short_name s room inside ne large parent
          formatted in
      let same : before ++ after ≡ files = cc in
      let file = file_info text true 0 n in
      let found : find_name text (before ++ file ∷ after) ≡ some file =
        find_name-behind text before after file refl (ap (find_name text) same ∙ missing) in
      let back = recorded_parent fs p in
      let fresh : list_directory_entries fs' n
          ≡ done (file_info dot true 0 n ∷ file_info dot_dot true 0 back ∷ []) =
        fresh-listing v' n back inside' (subst (λ (k : ℕ). 64 ≤ k) (sym size) large)
          (omega (arith, room.high)) (recorded_small fs p small)
          (bytes ∙ ap (λ (k : ℕ). directory_bytes k n back) (sym size)) in
      (
        fs',
        made,
        parse_path-name fs' text p (before ++ file ∷ after) file plain new found,
        fresh,
        parse_path-dot_dot fs' n back (λ e. not_root (e ∙ root)) fresh
            ∙ ap (λ (k : ℕ). done (some (file_info dot_dot true 0 k)))
                (recorded_back fs fs'.root_cluster p root room.inside.0),
      )
