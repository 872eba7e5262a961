-- ===== src/FileSystem/Directories/Adding.antt =====
-- Putting one entry into the first free slot of a directory.
use fat32_reimplementation.Base.{
  ℕ, ◌+◌, ◌*◌, ◌/◌, ◌≤◌, ◌<◌, ◌≡◌, refl, ap, ◌∙◌, List, ◌∷◌, ◌++◌, length, All, some, done,
  bind-done, ok, arith, chunks_exact, chunks,
}
use fat32_reimplementation.Base.Windows.{
  window, splice, length-window, length-splice, All-splice, window-splice_inside,
}
use fat32_reimplementation.Base.Words.{IsByte}
use fat32_reimplementation.Base.Chunks.{set, chunks-splice, length-chunks}
use fat32_reimplementation.FileSystem.{
  Fat32FileSystem, IsVolume, InData, cluster_offset, cluster_size,
}
use fat32_reimplementation.FileSystem.Sectors.Reading.{read_cluster-window}
use fat32_reimplementation.FileSystem.Table.Updates.{IsVolume-disk}
use fat32_reimplementation.FileSystem.Entry.{FileInfo}
use fat32_reimplementation.FileSystem.LongNames.{no_lfn}
use fat32_reimplementation.FileSystem.Listing.{list_directory_entries}
use fat32_reimplementation.FileSystem.Listing.Contents.{
  kind_of, short, shown, entries_of, cluster_chunks, list_directory_entries-entries_of,
}
use fat32_reimplementation.FileSystem.Directories.{free_slot, add_entry}
use fat32_reimplementation.FileSystem.Directories.Insertion.{
  lfn_at_slot, IsTerminated, insert_entry, free_slot-bounds,
}
use fat32_reimplementation.FileSystem.Directories.Slots.{write_directory_entry-splice}

-- The volume with entry `idx` of directory cluster `c` replaced.
abbrev pub with_entry : Fat32FileSystem → ℕ → ℕ → List ℕ → Fat32FileSystem
with_entry fs c idx entry = record fs {
  disk = splice fs.disk (cluster_offset fs c + idx * 32) entry;
}

module _ {fs : Fat32FileSystem} (v : IsVolume fs) (c : ℕ) (inside : InData fs c) (idx : ℕ)
    (entry : List ℕ) (slot : free_slot (cluster_chunks fs c) 0 ≡ some idx)
    (whole : length entry ≡ 32) where
  abbrev cluster : List ℕ
  cluster = window fs.disk (cluster_offset fs c) (cluster_size fs)

  cluster-whole : length cluster ≡ cluster_size fs
  cluster-whole = length-window fs.disk (cluster_offset fs c) (cluster_size fs) inside.1

  pub slot_below : idx < length cluster / 32
  slot_below = omega (
    arith,
    free_slot-bounds (cluster_chunks fs c) 0 idx slot,
    length-chunks 32 (length cluster / 32) cluster,
  )

  pub slot_fits : idx * 32 + 32 ≤ cluster_size fs
  slot_fits = omega (arith, slot_below, cluster-whole)

  -- `add_entry` writes into the first free slot.
  pub add_entry-with_entry : add_entry fs c entry ≡ done (ok tt, with_entry fs c idx entry)
  unfolding add_entry
  add_entry-with_entry = bind-done _ (read_cluster-window v c inside) (
      rw slot
        (bind-done _ (write_directory_entry-splice v c inside idx entry slot_fits whole) refl))

  -- Only that entry of the cluster changes.
  pub cluster_chunks-with_entry :
      cluster_chunks (with_entry fs c idx entry) c ≡ set (cluster_chunks fs c) idx entry
  cluster_chunks-with_entry =
      let n = length cluster / 32 in
      let fits : idx * 32 + length entry ≤ cluster_size fs = omega (arith, slot_fits) in
      let fits' : idx * 32 + length entry ≤ length cluster = omega (arith, fits, cluster-whole) in
      let inner =
        window-splice_inside fs.disk (cluster_offset fs c) (cluster_size fs) (idx * 32) entry
          inside.1 fits in
      ap (chunks_exact 32) inner
      ∙ ap (λ (k : ℕ). chunks (32) (k / 32) (splice cluster (idx * 32) entry))
          (length-splice cluster (idx * 32) entry fits')
      ∙ chunks-splice 32 n cluster idx entry slot_below (omega arith) whole

  pub slot_inside : cluster_offset fs c + idx * 32 + length entry ≤ length fs.disk
  slot_inside = omega (arith, slot_fits, inside.1)

  pub with_entry-IsVolume : All IsByte entry → IsVolume (with_entry fs c idx entry)
  with_entry-IsVolume bytes =
      IsVolume-disk _ v (length-splice fs.disk (cluster_offset fs c + idx * 32) entry slot_inside)
        (All-splice IsByte fs.disk (cluster_offset fs c + idx * 32) entry v.bytes bytes)

  pub with_entry-InData : InData (with_entry fs c idx entry) c
  with_entry-InData = (
    inside.0,
    omega
        (arith, inside.1, length-splice fs.disk (cluster_offset fs c + idx * 32) entry slot_inside),
  )

  -- `add_entry` lists one more file or directory, at one place.
  pub add_entry-listing :
      (info : FileInfo)
      → All IsByte entry
      → kind_of entry ≡ short
      → shown entry (lfn_at_slot (cluster_chunks fs c) no_lfn) ≡ some info
      → IsTerminated (cluster_chunks fs c)
      → (before : List FileInfo) × (after : List FileInfo) × (list_directory_entries fs c
          ≡ done (before ++ after))
        × (list_directory_entries (with_entry fs c idx entry) c ≡ done (before ++ info ∷ after))
  add_entry-listing info bytes is_short s t =
      let (before, after, e, f) =
        insert_entry entry info is_short (cluster_chunks fs c) no_lfn 0 idx
          (slot ∙ ap some (omega arith)) s t in
      (
        before,
        after,
        list_directory_entries-entries_of v c inside ∙ ap done e,
        list_directory_entries-entries_of (with_entry-IsVolume bytes) c with_entry-InData
            ∙ ap (λ (cs : List (List ℕ)). done (entries_of cs no_lfn)) cluster_chunks-with_entry
            ∙ ap done f,
      )
