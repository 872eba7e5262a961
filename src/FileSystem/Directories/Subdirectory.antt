-- ===== src/FileSystem/Directories/Subdirectory.antt =====
-- `mkdir`, the listing of the parent directory and the new directory.
use fat32_reimplementation.Base.{
  ℕ, ◌+◌, ◌*◌, ◌^◌, ◌≤◌, ◌<◌, ◌≡◌, ◌≢◌, refl, ap, sym, ◌∙◌, List, ◌∷◌, ◌++◌, true, some, done,
  bind-done, ok, arith,
}
use fat32_reimplementation.Base.Windows.{length-splice}
use fat32_reimplementation.FileSystem.{
  Fat32FileSystem, IsVolume, InData, cluster_offset, cluster_size,
}
use fat32_reimplementation.FileSystem.Table.{set_entry}
use fat32_reimplementation.FileSystem.Table.Allocation.{allocate_cluster-first}
use fat32_reimplementation.FileSystem.Table.Agreement.{written-InData}
use fat32_reimplementation.FileSystem.Names.{short_name_to_string, format_to_8_3}
use fat32_reimplementation.FileSystem.Entry.{FileInfo, file_info}
use fat32_reimplementation.FileSystem.LongNames.{no_lfn}
use fat32_reimplementation.FileSystem.Listing.{list_directory_entries}
use fat32_reimplementation.FileSystem.Listing.Contents.{shown, cluster_chunks}
use fat32_reimplementation.FileSystem.Directories.{
  free_slot, new_entry, parent_of, add_entry, mkdir,
}
use fat32_reimplementation.FileSystem.Directories.Insertion.{lfn_at_slot}
use fat32_reimplementation.FileSystem.Directories.Fresh.{directory_bytes, recorded_parent}
use fat32_reimplementation.FileSystem.Directories.Slots.{length-new_entry, new_entry-IsByte}
use fat32_reimplementation.FileSystem.Directories.Adding.{
  with_entry, add_entry-with_entry, add_entry-listing, slot_fits, slot_inside, with_entry-IsVolume,
}
use fat32_reimplementation.FileSystem.Directories.Creation.{
  HasRoom, IsShortName, entry-short, entry-shown, reserved-IsVolume, reserved-InData,
  reserved-chunks, reserved-listing,
}
use fat32_reimplementation.FileSystem.Files.Chains.{cluster_bytes}
use fat32_reimplementation.FileSystem.Files.Replacing.{with_bytes-other}
use fat32_reimplementation.FileSystem.Directories.Populating.{
  populated, populated-InData, populated-IsVolume, populated-chunks, populated_bytes,
  populated_done, populated_listing, sized_entry,
}

module _ (to_uppercase : List ℕ → List ℕ) {fs : Fat32FileSystem} (v : IsVolume fs)
    (path name : List ℕ) (p idx n : ℕ) (short_name : List ℕ) (s : IsShortName short_name)
    (room : HasRoom fs p idx n) (inside : InData fs n) (ne : n ≢ p)
    (large : 64 ≤ cluster_size fs) where
  abbrev taken_fs : Fat32FileSystem
  taken_fs = set_entry fs n 0x0FFF_FFFF

  abbrev entry : List ℕ
  entry = new_entry short_name 0x10 n

  v1 : IsVolume taken_fs
  v1 = reserved-IsVolume v p idx n room

  inside1 : InData taken_fs n
  inside1 = written-InData v n room.in_table 0x0FFF_FFFF n inside

  parent1 : InData taken_fs p
  parent1 = reserved-InData v p idx n room

  large1 : 64 ≤ cluster_size taken_fs
  unfolding set_entry
  large1 = large

  abbrev fs2 : Fat32FileSystem
  fs2 = populated v1 p n inside1 parent1 ne large1

  v2 : IsVolume fs2
  v2 = populated-IsVolume v1 p n inside1 parent1 ne large1

  parent2 : InData fs2 p
  parent2 = populated-InData v1 p n inside1 parent1 ne large1 p parent1

  chunks2 : cluster_chunks fs2 p ≡ cluster_chunks fs p
  chunks2 = populated-chunks v1 p n inside1 parent1 ne large1 ∙ reserved-chunks v p idx n room

  slot2 : free_slot (cluster_chunks fs2 p) 0 ≡ some idx
  slot2 = ap (λ (cs : List (List ℕ)). free_slot cs 0) chunks2 ∙ room.slot

  -- The volume that `mkdir` leaves.
  abbrev made : Fat32FileSystem
  made = with_entry fs2 p idx entry

  mkdir-made :
      parent_of fs path ≡ done (some p)
      → format_to_8_3 to_uppercase name ≡ ok short_name
      → mkdir to_uppercase fs path name ≡ done (ok tt, made)
  unfolding mkdir
  mkdir-made parent formatted = bind-done _ parent (
      bind-done _
        (allocate_cluster-first v n room.low room.high room.taken room.in_table room.unused)
        (bind-done _ (populated_done v1 p n inside1 parent1 ne large1) (
          rw formatted (
            ap (λ (e : List ℕ). add_entry fs2 p e) (sized_entry short_name n s.eleven)
            ∙ add_entry-with_entry v2 p parent2 idx entry slot2
                (length-new_entry short_name 0x10 n s.eleven)))))

  made-IsVolume : IsVolume made
  made-IsVolume =
      with_entry-IsVolume v2 p parent2 idx entry slot2 (length-new_entry short_name 0x10 n s.eleven)
        (new_entry-IsByte short_name 0x10 n s.eleven s.bytes (omega arith))

  made-InData : InData made n
  made-InData =
      let inside2 = populated-InData v1 p n inside1 parent1 ne large1 n inside1 in
      let whole = length-new_entry short_name 0x10 n s.eleven in
      let fits = slot_inside v2 p parent2 idx entry slot2 whole in
      (
        inside2.0,
        omega
            (arith, inside2.1, length-splice fs2.disk (cluster_offset fs2 p + idx * 32) entry fits),
      )

  made_root : (made.root_cluster ≡ fs.root_cluster) × (cluster_size made ≡ cluster_size fs)
  unfolding set_entry
  made_root = (refl, refl)

  made_bytes : cluster_bytes made n ≡ directory_bytes (cluster_size fs) n (recorded_parent fs p)
  unfolding set_entry
  made_bytes =
      let whole = length-new_entry short_name 0x10 n s.eleven in
      with_bytes-other v2 p parent2 (idx * 32) entry
        (omega (arith, slot_fits v2 p parent2 idx entry slot2 whole, whole)) n inside.0
        (λ e. ne (sym e))
      ∙ populated_bytes v1 p n inside1 parent1 ne large1

  -- The volume that `mkdir` leaves, with its new cluster.
  pub mkdir_lem :
      parent_of fs path ≡ done (some p)
      → format_to_8_3 to_uppercase name ≡ ok short_name
      → (fs' : Fat32FileSystem) × (before : List FileInfo) × (after : List FileInfo)
        × (list_directory_entries fs p ≡ done (before ++ after))
        × (mkdir to_uppercase fs path name ≡ done (ok tt, fs'))
        × (list_directory_entries fs' p
            ≡ done (before ++ file_info (short_name_to_string short_name) true 0 n ∷ after))
        × (cluster_bytes fs' n ≡ directory_bytes (cluster_size fs) n (recorded_parent fs p))
        × IsVolume fs'
        × InData fs' n
        × (fs'.root_cluster ≡ fs.root_cluster)
        × (cluster_size fs' ≡ cluster_size fs)
  mkdir_lem parent formatted =
      let info = file_info (short_name_to_string short_name) true 0 n in
      let small : n < 2 ^ 32 = omega (arith, room.high) in
      let seen : shown entry (lfn_at_slot (cluster_chunks fs2 p) no_lfn) ≡ some info =
        ap (λ (cs : List (List ℕ)). shown entry (lfn_at_slot cs no_lfn)) chunks2
        ∙ entry-shown short_name s 0x10 n small (lfn_at_slot (cluster_chunks fs p) no_lfn)
            room.settled refl in
      let (before, after, old, new) =
        add_entry-listing v2 p parent2 idx entry slot2 (length-new_entry short_name 0x10 n s.eleven)
          info (new_entry-IsByte short_name 0x10 n s.eleven s.bytes (omega arith))
          (entry-short short_name s 0x10 n small (omega arith)) seen (rw chunks2 room.terminated) in
      (
        made,
        before,
        after,
        reserved-listing v p idx n room ∙ populated_listing v1 p n inside1 parent1 ne large1 ∙ old,
        mkdir-made parent formatted,
        new,
        made_bytes,
        made-IsVolume,
        made-InData,
        made_root.0,
        made_root.1,
      )

  -- On a volume with clusters of 64 bytes at least, if the parent path resolves to directory
  -- cluster `p`, the name has a short form of 11 bytes that begins neither an end mark nor a
  -- deleted entry, and there is room (`HasRoom`: a first free slot without a pending long name,
  -- nothing listed behind an end mark, and a free cluster `n` below 50000, with all clusters from
  -- 2 up to it in use), where `n` lies inside the image and is not `p`: `mkdir` succeeds; where
  -- `p` listed `before ++ after` it then lists, between them, the directory under its short name
  -- with start cluster `n`; and cluster `n` holds `.` and `..` and zeros behind them.
  pub mkdir-listing :
      parent_of fs path ≡ done (some p)
      → format_to_8_3 to_uppercase name ≡ ok short_name
      → (fs' : Fat32FileSystem) × (before : List FileInfo) × (after : List FileInfo)
        × (list_directory_entries fs p ≡ done (before ++ after))
        × (mkdir to_uppercase fs path name ≡ done (ok tt, fs'))
        × (list_directory_entries fs' p
            ≡ done (before ++ file_info (short_name_to_string short_name) true 0 n ∷ after))
        × (cluster_bytes fs' n ≡ directory_bytes (cluster_size fs) n (recorded_parent fs p))
  mkdir-listing parent formatted =
      let (fs', before, after, old, e, new, bytes, _, _, _, _) = mkdir_lem parent formatted in
      (fs', before, after, old, e, new, bytes)
