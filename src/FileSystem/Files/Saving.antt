-- ===== src/FileSystem/Files/Saving.antt =====
-- The volume behind `write_file`, and what `read_file` reads of it.
use mathlib.Core.List.{append-nil}
use fat32_reimplementation.Base.{
  ℕ, ◌+◌, ◌*◌, ◌≤◌, ◌≡◌, ◌≢◌, sym, ap, ◌∙◌, List, [], ◌∷◌, All, All-take, take, length, min, false,
  none, some, done, ◌>>=◌, bind-done, ok, arith,
}
use fat32_reimplementation.Base.Windows.{splice}
use fat32_reimplementation.Base.Words.{IsByte, to_le_bytes, to_le_bytes-IsByte}
use fat32_reimplementation.FileSystem.{Fat32FileSystem, IsVolume, InData, InTable, cluster_size}
use fat32_reimplementation.FileSystem.Table.{table_entry}
use fat32_reimplementation.FileSystem.Names.{format_to_8_3}
use fat32_reimplementation.FileSystem.Entry.{FileInfo}
use fat32_reimplementation.FileSystem.FilePath.{parse_path}
use fat32_reimplementation.FileSystem.Listing.Contents.{cluster_chunks}
use fat32_reimplementation.FileSystem.Files.{
  rsplit_slash, named_slot, write_file, read_file, text_result,
}
use fat32_reimplementation.FileSystem.Files.Chains.{
  Chain, last, cluster_bytes, chain_bytes, read_file-Chain,
}
use fat32_reimplementation.Base.Text.{from_utf8}
use fat32_reimplementation.FileSystem.Files.Replacing.{
  with_bytes-IsVolume, with_bytes-InData, with_bytes-InTable, with_bytes_self, with_bytes-other,
  with_bytes-entry, take-splice,
}
use fat32_reimplementation.FileSystem.Files.Writing.{
  written, fs_data, fs_sized, written-room, slot_inside, write_file-sized,
}

module _ (to_uppercase : List ℕ → List ℕ) {fs : Fat32FileSystem} (v : IsVolume fs)
    (path short_name bytes : List ℕ) (file : FileInfo) (idx : ℕ) where
  -- The bytes that are written, at most a cluster of them.
  abbrev kept : List ℕ
  kept = written to_uppercase v path short_name bytes file idx

  -- The volume with the bytes in the file's cluster, and with the size in the entry as well.
  abbrev copied : Fat32FileSystem
  copied = fs_data to_uppercase v path short_name bytes file idx

  abbrev saved : Fat32FileSystem
  saved = fs_sized to_uppercase v path short_name bytes file idx

  kept_fits : 0 + length kept ≤ cluster_size fs
  kept_fits = written-room to_uppercase v path short_name bytes file idx

  size_fits :
      InData fs fs.root_cluster
      → named_slot short_name (cluster_chunks fs fs.root_cluster) 0 ≡ some idx
      → idx * 32 + 28 + 4 ≤ cluster_size fs
  size_fits = slot_inside to_uppercase v path short_name bytes file idx

  -- The volume behind both writes.
  module _ (inside : InData fs file.start_cluster) (root : InData fs fs.root_cluster)
      (ne : file.start_cluster ≢ fs.root_cluster) (good : All IsByte bytes)
      (slot : named_slot short_name (cluster_chunks fs fs.root_cluster) 0 ≡ some idx) where
    data_IsVolume : IsVolume copied
    data_IsVolume =
        with_bytes-IsVolume v file.start_cluster inside 0 kept kept_fits
          (All-take IsByte (min (length bytes) (cluster_size fs)) bytes good)

    data_InData : (d : ℕ) → InData fs d → InData copied d
    data_InData = with_bytes-InData v file.start_cluster inside 0 kept kept_fits

    pub sized_IsVolume : IsVolume saved
    sized_IsVolume =
        with_bytes-IsVolume data_IsVolume fs.root_cluster (data_InData fs.root_cluster root)
          (idx * 32 + 28) (to_le_bytes 4 (length kept)) (size_fits root slot)
          (to_le_bytes-IsByte 4 (length kept))

    pub sized_InData : (d : ℕ) → InData fs d → InData saved d
    sized_InData d h =
        with_bytes-InData data_IsVolume fs.root_cluster (data_InData fs.root_cluster root)
          (idx * 32 + 28) (to_le_bytes 4 (length kept)) (size_fits root slot) d (data_InData d h)

    sized_other :
        (d : ℕ) → 2 ≤ d → fs.root_cluster ≢ d → cluster_bytes saved d ≡ cluster_bytes copied d
    sized_other d lo apart =
        with_bytes-other data_IsVolume fs.root_cluster (data_InData fs.root_cluster root)
          (idx * 32 + 28) (to_le_bytes 4 (length kept)) (size_fits root slot) d lo apart

    sized_file :
        cluster_bytes saved file.start_cluster ≡ splice (cluster_bytes fs file.start_cluster) 0 kept
    sized_file =
        sized_other file.start_cluster inside.0 (λ e. ne (sym e))
        ∙ with_bytes_self v file.start_cluster inside 0 kept kept_fits

    pub sized_root :
        cluster_bytes saved fs.root_cluster
        ≡ splice (cluster_bytes fs fs.root_cluster) (idx * 32 + 28) (to_le_bytes 4 (length kept))
    sized_root =
        with_bytes_self data_IsVolume fs.root_cluster (data_InData fs.root_cluster root)
          (idx * 32 + 28) (to_le_bytes 4 (length kept)) (size_fits root slot)
        ∙ ap (λ (w : List ℕ). splice w (idx * 32 + 28) (to_le_bytes 4 (length kept)))
            (with_bytes-other v file.start_cluster inside 0 kept kept_fits fs.root_cluster root.0
              ne)

    sized_entry : (k : ℕ) → InTable fs k → table_entry saved k ≡ table_entry fs k
    sized_entry k h =
        with_bytes-entry data_IsVolume fs.root_cluster (data_InData fs.root_cluster root)
          (idx * 32 + 28) (to_le_bytes 4 (length kept)) (size_fits root slot) k
          (with_bytes-InTable v file.start_cluster inside 0 kept kept_fits k h)
        ∙ with_bytes-entry v file.start_cluster inside 0 kept kept_fits k h

    sized_Chain :
        InTable fs file.start_cluster
        → 0x0FFF_FFF8 ≤ table_entry fs file.start_cluster
        → Chain saved file.start_cluster (file.start_cluster ∷ [])
    sized_Chain entry end =
        last (sized_InData file.start_cluster inside)
          (with_bytes-InTable data_IsVolume fs.root_cluster (data_InData fs.root_cluster root)
            (idx * 32 + 28) (to_le_bytes 4 (length kept)) (size_fits root slot) file.start_cluster
            (with_bytes-InTable v file.start_cluster inside 0 kept kept_fits file.start_cluster
              entry))
          (omega (arith, sized_entry file.start_cluster entry, end))

  -- On a volume, a file of the root directory that is named without a slash, whose start cluster and
  -- the root's first cluster are two clusters inside the image, and whose short name stands in entry
  -- `idx` of the root: `write_file` of a string of bytes succeeds. The file's cluster then begins with
  -- the bytes, at most a cluster of them, the size field of the entry holds their number, and no
  -- other byte of the two clusters, no other cluster and no entry of the FAT is changed.
  pub write_file-splice :
      parse_path fs path none ≡ done (some file)
      → file.is_directory ≡ false
      → InData fs file.start_cluster
      → InData fs fs.root_cluster
      → file.start_cluster ≢ fs.root_cluster
      → All IsByte bytes
      → rsplit_slash path ≡ none
      → format_to_8_3 to_uppercase path ≡ ok short_name
      → named_slot short_name (cluster_chunks fs fs.root_cluster) 0 ≡ some idx
      → (fs' : Fat32FileSystem) × (write_file to_uppercase fs path bytes ≡ done (ok tt, fs'))
        × (cluster_bytes fs' file.start_cluster
            ≡ splice (cluster_bytes fs file.start_cluster) 0 kept)
        × (cluster_bytes fs' fs.root_cluster
            ≡ splice
                (cluster_bytes fs fs.root_cluster)
                (idx * 32 + 28)
                (to_le_bytes 4 (length kept)))
        × ((d : ℕ)
            → 2 ≤ d
            → file.start_cluster ≢ d
            → fs.root_cluster ≢ d
            → cluster_bytes fs' d ≡ cluster_bytes fs d)
        × ((k : ℕ) → InTable fs k → table_entry fs' k ≡ table_entry fs k)
  write_file-splice found regular inside root ne good plain formatted slot = (
    saved,
    write_file-sized to_uppercase v path short_name bytes file idx found regular inside root ne good
        plain formatted slot,
    sized_file inside root ne good slot,
    sized_root inside root ne good slot,
    λ d lo ne' apart.
        sized_other inside root ne good slot d lo apart
        ∙ with_bytes-other v file.start_cluster inside 0 kept kept_fits d lo ne',
    sized_entry inside root ne good slot,
  )

  -- On a volume, a file of the root directory that is named without a slash: its start cluster and
  -- the root's first cluster are two clusters inside the image, the FAT, which holds its entry,
  -- marks it as the last of its chain, and its short name stands in entry `idx` of the root. When
  -- the path still resolves to the file, with its new size, once a string of bytes is written to
  -- it: `write_file` and then `read_file`, with fuel for one cluster, return the bytes that were
  -- written, at most a cluster of them, or the error for text that is not UTF-8.
  pub write_file-read_file :
      parse_path fs path none ≡ done (some file)
      → file.is_directory ≡ false
      → InData fs file.start_cluster
      → InData fs fs.root_cluster
      → file.start_cluster ≢ fs.root_cluster
      → All IsByte bytes
      → rsplit_slash path ≡ none
      → format_to_8_3 to_uppercase path ≡ ok short_name
      → named_slot short_name (cluster_chunks fs fs.root_cluster) 0 ≡ some idx
      → InTable fs file.start_cluster
      → 0x0FFF_FFF8 ≤ table_entry fs file.start_cluster
      → parse_path saved path none ≡ done (some (record file { size = length kept }))
      → (write_file to_uppercase fs path bytes >>= λ (result, fs'). read_file 1 fs' path none)
        ≡ done (text_result (from_utf8 kept))
  write_file-read_file found regular inside root ne good plain formatted slot entry end later =
      let chain_back : take (length kept) (chain_bytes saved (file.start_cluster ∷ []))
          ≡ take (length kept) (cluster_bytes saved file.start_cluster) =
        unfold chain_bytes in
        ap (take (length kept)) (append-nil (cluster_bytes saved file.start_cluster)) in
      let chain = sized_Chain inside root ne good slot entry end in
      bind-done _
        (write_file-sized to_uppercase v path short_name bytes file idx found regular inside root ne
          good plain formatted slot)
        (read_file-Chain (sized_IsVolume inside root ne good slot) 1 path none
            (record file { size = length kept }) (file.start_cluster ∷ []) later regular chain
            (omega arith)
          ∙ ap (λ (w : List ℕ). done (text_result (from_utf8 w)))
              (chain_back
                ∙ ap (take (length kept)) (sized_file inside root ne good slot)
                ∙ take-splice (cluster_bytes fs file.start_cluster) kept))
