-- ===== src/FileSystem/Directories/Creation.antt =====
-- `create_file` and the listing of the parent directory.
use fat32_reimplementation.Base.{
  ℕ, ◌^◌, ◌≤◌, ◌<◌, ◌≡◌, ◌≢◌, refl, ap, sym, ◌∙◌, List, [], ◌∷◌, ◌++◌, get_or, length, All,
  chunks_exact, false, not, ◌==◌, bit_and, some, done, bind-done, ok, arith,
}
use fat32_reimplementation.Base.Words.{IsByte}
use fat32_reimplementation.FileSystem.{Fat32FileSystem, IsVolume, InData, InTable}
use fat32_reimplementation.FileSystem.Table.{table_entry, set_entry}
use fat32_reimplementation.FileSystem.Table.Allocation.{Taken, allocate_cluster-first}
use fat32_reimplementation.FileSystem.Table.Updates.{
  set_entry-IsVolume, length-set_entry, cluster-set_entry,
}
use fat32_reimplementation.FileSystem.Names.{short_name_to_string, format_to_8_3}
use fat32_reimplementation.FileSystem.Entry.{FatDir, FileInfo, file_info, first_cluster}
use fat32_reimplementation.FileSystem.LongNames.{LfnState, no_lfn}
use fat32_reimplementation.FileSystem.Listing.{list_directory_entries, attr_lfn}
use fat32_reimplementation.FileSystem.Listing.Contents.{
  short, kind_of, shown, shown_dir, entries_of, cluster_chunks, list_directory_entries-entries_of,
}
use fat32_reimplementation.FileSystem.Directories.{free_slot, new_entry, parent_of, create_file}
use fat32_reimplementation.FileSystem.Directories.Insertion.{lfn_at_slot, IsTerminated}
use fat32_reimplementation.FileSystem.Directories.Slots.{
  length-new_entry, new_entry-IsByte, dir_of-new_entry, first_cluster-new_entry,
  first_byte-new_entry,
}
use fat32_reimplementation.FileSystem.Directories.Adding.{
  with_entry, add_entry-with_entry, add_entry-listing,
}

-- The directory of cluster `p` has a free slot `idx`, with no long name pending in front of it and
-- nothing behind its end mark, and `n` is the first free cluster, in reach of the search.
pub record HasRoom (fs : Fat32FileSystem) (p idx n : ℕ) : Type 0 where
  pub inside : InData fs p
  pub slot : free_slot (cluster_chunks fs p) 0 ≡ some idx
  pub settled : (lfn_at_slot (cluster_chunks fs p) no_lfn).fragments ≡ []
  pub terminated : IsTerminated (cluster_chunks fs p)
  pub low : 2 ≤ n
  pub high : n < 50000
  pub taken : Taken fs 2 n
  pub in_table : InTable fs n
  pub unused : table_entry fs n ≡ 0

-- A short name that is neither deleted nor an end mark.
pub record IsShortName (short_name : List ℕ) : Type 0 where
  pub eleven : length short_name ≡ 11
  pub bytes : All IsByte short_name
  pub not_end : get_or short_name 0 0 ≢ 0x00
  pub not_deleted : get_or short_name 0 0 ≢ 0xE5

module _ (short_name : List ℕ) (s : IsShortName short_name) (attr n : ℕ) (small : n < 2 ^ 32) where
  pub entry-short : attr ≢ attr_lfn → kind_of (new_entry short_name attr n) ≡ short
  unfolding kind_of
  entry-short ne = ground (
    arith,
    first_byte-new_entry short_name attr n s.eleven,
    ap (λ (d : FatDir). d.attr) (dir_of-new_entry short_name attr n s.eleven),
  )

  pub entry-shown :
      (state : LfnState)
      → state.fragments ≡ []
      → bit_and attr 0x08 ≡ 0
      → shown (new_entry short_name attr n) state
        ≡ some (file_info (short_name_to_string short_name) (not (bit_and attr 0x10 == 0)) 0 n)
  unfolding shown
  entry-shown state e plain =
      ap (λ (d : FatDir). shown_dir d state) (dir_of-new_entry short_name attr n s.eleven)
      ∙ rw (e, plain)
          (ap
            (λ (c : ℕ).
              some (file_info (short_name_to_string short_name) (not (bit_and attr 0x10 == 0)) 0 c))
            (sym (ap first_cluster (dir_of-new_entry short_name attr n s.eleven))
              ∙ first_cluster-new_entry short_name attr n s.eleven small))

-- After the allocation the directory still has what it had.
module _ {fs : Fat32FileSystem} (v : IsVolume fs) (p idx n : ℕ) (room : HasRoom fs p idx n) where
  abbrev reserved : Fat32FileSystem
  reserved = set_entry fs n 0x0FFF_FFFF

  pub reserved-IsVolume : IsVolume reserved
  reserved-IsVolume = set_entry-IsVolume v n room.in_table 0x0FFF_FFFF

  pub reserved-InData : InData reserved p
  unfolding set_entry
  reserved-InData =
      (room.inside.0, omega (arith, room.inside.1, length-set_entry v n room.in_table 0x0FFF_FFFF))

  pub reserved-chunks : cluster_chunks reserved p ≡ cluster_chunks fs p
  unfolding set_entry
  reserved-chunks = ap (chunks_exact 32) (cluster-set_entry v n room.in_table 0x0FFF_FFFF p)

  pub reserved-slot : free_slot (cluster_chunks reserved p) 0 ≡ some idx
  reserved-slot = ap (λ (cs : List (List ℕ)). free_slot cs 0) reserved-chunks ∙ room.slot

  pub reserved-listing : list_directory_entries fs p ≡ list_directory_entries reserved p
  reserved-listing =
      list_directory_entries-entries_of v p room.inside
      ∙ ap (λ (cs : List (List ℕ)). done (entries_of cs no_lfn)) (sym reserved-chunks)
      ∙ sym (list_directory_entries-entries_of reserved-IsVolume p reserved-InData)

  reserved-shown :
      (short_name : List ℕ) (attr : ℕ)
      → IsShortName short_name
      → bit_and attr 0x08 ≡ 0
      → shown (new_entry short_name attr n) (lfn_at_slot (cluster_chunks reserved p) no_lfn)
        ≡ some (file_info (short_name_to_string short_name) (not (bit_and attr 0x10 == 0)) 0 n)
  reserved-shown short_name attr s plain =
      ap (λ (cs : List (List ℕ)). shown (new_entry short_name attr n) (lfn_at_slot cs no_lfn))
        reserved-chunks
      ∙ entry-shown short_name s attr n (omega (arith, room.high)) _ room.settled plain

-- `create_file` on a parent path, with the entry that it writes.
module _ (to_uppercase : List ℕ → List ℕ) {fs : Fat32FileSystem} (v : IsVolume fs)
    (path name : List ℕ) (p idx n : ℕ) (short_name : List ℕ) where
  abbrev created : Fat32FileSystem
  created = with_entry (set_entry fs n 0x0FFF_FFFF) p idx (new_entry short_name 0x20 n)

  create_file-created :
      parent_of fs path ≡ done (some p)
      → format_to_8_3 to_uppercase name ≡ ok short_name
      → IsShortName short_name
      → HasRoom fs p idx n
      → create_file to_uppercase fs path name ≡ done (ok tt, created)
  unfolding create_file
  create_file-created parent formatted s room = bind-done _ parent (
      rw formatted (
        bind-done _
          (allocate_cluster-first v n room.low room.high room.taken room.in_table room.unused)
          (add_entry-with_entry (reserved-IsVolume v p idx n room) p
            (reserved-InData v p idx n room) idx (new_entry short_name 0x20 n)
            (reserved-slot v p idx n room) (length-new_entry short_name 0x20 n s.eleven))))

  -- On a volume, if the parent path resolves to directory cluster `p`, the name has a short form of
  -- 11 bytes that begins neither an end mark nor a deleted entry, and there is room (`HasRoom`: a
  -- first free slot without a pending long name, nothing listed behind an end mark, and a free
  -- cluster `n` below 50000, with all clusters from 2 up to it in use): `create_file` succeeds, and where `p`
  -- listed `before ++ after` it then lists, between them, the file under its short name, of size 0
  -- and with start cluster `n`.
  pub create_file-listing :
      parent_of fs path ≡ done (some p)
      → format_to_8_3 to_uppercase name ≡ ok short_name
      → IsShortName short_name
      → HasRoom fs p idx n
      → (before : List FileInfo) × (after : List FileInfo) × (list_directory_entries fs p
          ≡ done (before ++ after))
        × (create_file to_uppercase fs path name ≡ done (ok tt, created))
        × (list_directory_entries created p
            ≡ done (before ++ file_info (short_name_to_string short_name) false 0 n ∷ after))
  create_file-listing parent formatted s room =
      let (before, after, old, new) =
        add_entry-listing (reserved-IsVolume v p idx n room) p (reserved-InData v p idx n room) idx
          (new_entry short_name 0x20 n) (reserved-slot v p idx n room)
          (length-new_entry short_name 0x20 n s.eleven)
          (file_info (short_name_to_string short_name) false 0 n)
          (new_entry-IsByte short_name 0x20 n s.eleven s.bytes (omega arith))
          (entry-short short_name s 0x20 n (omega (arith, room.high)) (omega arith))
          (reserved-shown v p idx n room short_name 0x20 s refl)
          (rw (reserved-chunks v p idx n room) room.terminated) in
      (
        before,
        after,
        reserved-listing v p idx n room ∙ old,
        create_file-created parent formatted s room,
        new,
      )
