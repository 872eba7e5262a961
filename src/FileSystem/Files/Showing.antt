-- ===== src/FileSystem/Files/Showing.antt =====
-- What the root directory lists behind `write_file`.
use fat32_reimplementation.Base.{
  ℕ, ◌/◌, ◌^◌, ◌≤◌, ◌<◌, ◌≡◌, ◌≢◌, refl, ap, sym, ◌∙◌, List, [], ◌∷◌, ◌++◌, length, take, All, min,
  bytes_eq, bytes_eq_refl, Bool, Bool-cases, if◌then◌else◌, inl, inr, bind-done, chunks_exact,
  false, none, some, done, ok, arith,
}
use fat32_reimplementation.Base.Chunks.{length-chunks, get_elem?-chunks}
use fat32_reimplementation.Base.Words.{IsByte}
use fat32_reimplementation.FileSystem.{Fat32FileSystem, IsVolume, InData, InTable, cluster_size}
use fat32_reimplementation.FileSystem.Table.{table_entry}
use fat32_reimplementation.FileSystem.Names.{format_to_8_3}
use fat32_reimplementation.FileSystem.Entry.{FileInfo}
use fat32_reimplementation.FileSystem.LongNames.{no_lfn}
use fat32_reimplementation.FileSystem.Listing.{list_directory_entries}
use fat32_reimplementation.FileSystem.Listing.Contents.{
  entries_of, cluster_chunks, list_directory_entries-entries_of,
}
use fat32_reimplementation.FileSystem.FilePath.{find_name}
use fat32_reimplementation.FileSystem.Directories.Entering.{IsName}
use fat32_reimplementation.FileSystem.Files.Keeping.{from_root_name}
use fat32_reimplementation.Base.Text.{from_utf8}
use fat32_reimplementation.FileSystem.Files.{
  rsplit_slash, named_slot, write_file, read_file, text_result,
}
use fat32_reimplementation.FileSystem.Files.Chains.{cluster_bytes}
use fat32_reimplementation.FileSystem.Files.Replacing.{named_slot-bounds}
use fat32_reimplementation.FileSystem.Files.Writing.{
  written, fs_sized, written-count, write_file-sized,
}
use fat32_reimplementation.FileSystem.Files.Saving.{
  write_file-read_file, sized_IsVolume, sized_InData, sized_root,
}
use fat32_reimplementation.FileSystem.Files.Resizing.{
  entry_at, chunk, length-chunk, resized-chunks, resized, kind_of-resized, shown-resized,
  replace_entry,
}

find_name-first :
    (name : List ℕ) (before after : List FileInfo) (file : FileInfo)
    → file.name ≡ name
    → find_name name before ≡ none
    → find_name name (before ++ file ∷ after) ≡ some file
unfolding find_name
find_name-first name [] after file same e =
    ap (λ (n : List ℕ). if bytes_eq file.name n then some file else find_name name after) (sym same)
    ∙ ap (λ (b : Bool). if b then some file else find_name name after) (bytes_eq_refl file.name)
find_name-first name (f ∷ before) after file same e = elim (Bool-cases (bytes_eq f.name name)) [
  | inl found ↦ absurd (ground (arith, found))
  | inr other ↦
      let rest : find_name name before ≡ none = ground (arith, other) in
      ap (λ (b : Bool). if b then some f else find_name name (before ++ file ∷ after)) other
      ∙ find_name-first name before after file same rest
]

-- The root directory lists its entry `idx` as a file under this name, the first under it, of one
-- cluster.
pub record IsListed (to_uppercase : List ℕ → List ℕ) (fs : Fat32FileSystem)
    (path short_name : List ℕ) (file : FileInfo) (idx : ℕ) : Type 0 where
  pub regular : file.is_directory ≡ false
  pub inside : InData fs file.start_cluster
  pub root : InData fs fs.root_cluster
  pub apart : file.start_cluster ≢ fs.root_cluster
  pub in_table : InTable fs file.start_cluster
  pub one_cluster : 0x0FFF_FFF8 ≤ table_entry fs file.start_cluster
  pub one_name : IsName path
  pub no_slash : rsplit_slash path ≡ none
  pub formatted : format_to_8_3 to_uppercase path ≡ ok short_name
  pub slot : named_slot short_name (cluster_chunks fs fs.root_cluster) 0 ≡ some idx
  pub listed : entry_at (cluster_chunks fs fs.root_cluster) no_lfn idx ≡ some file
  pub named : file.name ≡ path
  pub first :
      find_name path (entries_of (take idx (cluster_chunks fs fs.root_cluster)) no_lfn) ≡ none

module _ (to_uppercase : List ℕ → List ℕ) {fs : Fat32FileSystem} (v : IsVolume fs)
    (path short_name : List ℕ) (file : FileInfo) (idx : ℕ)
    (is : IsListed to_uppercase fs path short_name file idx) (bytes : List ℕ)
    (good : All IsByte bytes) where
  abbrev kept : List ℕ
  kept = written to_uppercase v path short_name bytes file idx

  abbrev saved : Fat32FileSystem
  saved = fs_sized to_uppercase v path short_name bytes file idx

  abbrev info : FileInfo
  info = record file { size = length kept }

  abbrev before : List FileInfo
  before = entries_of (take idx (cluster_chunks fs fs.root_cluster)) no_lfn

  listings :
      (after : List FileInfo) × (list_directory_entries fs fs.root_cluster
        ≡ done (before ++ file ∷ after))
      × (list_directory_entries saved fs.root_cluster ≡ done (before ++ info ∷ after))
  listings =
      let w = cluster_bytes fs fs.root_cluster in
      let size = length kept in
      let count = written-count to_uppercase v path short_name bytes file idx in
      let word : size < 2 ^ 32 = omega (arith, count, is.inside.1, v.addressable) in
      let lt : idx < length w / 32 = omega (
        arith,
        named_slot-bounds short_name (cluster_chunks fs fs.root_cluster) 0 idx is.slot,
        length-chunks 32 (length w / 32) w,
      ) in
      let entry = chunk w idx size lt in
      let whole = length-chunk w idx size lt in
      let (after, old, new) =
        replace_entry file info entry (resized entry size) (cluster_chunks fs fs.root_cluster)
          no_lfn idx (get_elem?-chunks 32 (length w / 32) w idx lt)
          (kind_of-resized entry whole size word)
          (λ s e. shown-resized entry whole size word s file e) is.listed in
      let chunks_now =
        ap (chunks_exact 32) (
          sized_root to_uppercase v path short_name bytes file idx is.inside is.root is.apart good
            is.slot)
        ∙ resized-chunks w idx size lt in
      (
        after,
        list_directory_entries-entries_of v fs.root_cluster is.root ∙ ap done old,
        list_directory_entries-entries_of
              (sized_IsVolume to_uppercase v path short_name bytes file idx is.inside is.root
                is.apart good is.slot)
              fs.root_cluster
              (sized_InData to_uppercase v path short_name bytes file idx is.inside is.root is.apart
                good is.slot fs.root_cluster is.root)
            ∙ ap (λ (cs : List (List ℕ)). done (entries_of cs no_lfn)) chunks_now
            ∙ ap done new,
      )

  -- On a volume, for a file that the root directory lists, as its entry `idx`, under a name of one
  -- part of a path (`IsListed`: start cluster and root are two clusters inside the image, the FAT
  -- marks the start cluster as the last of its chain, no earlier entry is listed under that name, and
  -- none has its short name): `write_file` of a string of bytes succeeds. Where the root listed
  -- `before ++ file ∷ after`, it then lists the file with the number of the bytes, at most a cluster
  -- of them, as size, and is otherwise unchanged, and `read_file`, with fuel for one cluster, returns
  -- these bytes, or the error for text that is not UTF-8.
  pub write_file-listing :
      (fs' : Fat32FileSystem) × (before : List FileInfo) × (after : List FileInfo) × (write_file
          to_uppercase fs path bytes
        ≡ done (ok tt, fs'))
      × (list_directory_entries fs fs.root_cluster ≡ done (before ++ file ∷ after))
      × (list_directory_entries fs' fs.root_cluster
          ≡ done (before ++ record file { size = min (length bytes) (cluster_size fs) } ∷ after))
      × (read_file 1 fs' path none
          ≡ done (text_result (from_utf8 (take (min (length bytes) (cluster_size fs)) bytes))))
  write_file-listing =
      let (after, old, new) = listings in
      let found =
        from_root_name fs path (before ++ file ∷ after) file is.one_name old
          (find_name-first path before after file is.named is.first) in
      let later =
        from_root_name saved path (before ++ info ∷ after) info is.one_name new
          (find_name-first path before after info is.named is.first) in
      let wrote =
        write_file-sized to_uppercase v path short_name bytes file idx found is.regular is.inside
          is.root is.apart good is.no_slash is.formatted is.slot in
      (
        saved,
        before,
        after,
        wrote,
        old,
        new
            ∙ ap (λ (n : ℕ). done (before ++ record file { size = n } ∷ after))
                (written-count to_uppercase v path short_name bytes file idx),
        sym (bind-done _ wrote refl)
            ∙ write_file-read_file to_uppercase v path short_name bytes file idx found is.regular
                is.inside is.root is.apart good is.no_slash is.formatted is.slot is.in_table
                is.one_cluster later,
      )
