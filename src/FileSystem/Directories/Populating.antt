-- ===== src/FileSystem/Directories/Populating.antt =====
-- `mkdir`: the bytes of the new directory's cluster on the volume.
use fat32_reimplementation.Base.{
  ℕ, ◌+◌, ◌-◌, ◌≤◌, ◌≡◌, ◌≢◌, ap, sym, ◌∙◌, List, length, chunks_exact, done, arith, get_elem?_ext,
  get_elem?-none,
}
use fat32_reimplementation.Base.Windows.{
  splice, window, get_elem?-splice, get_elem?-window, length-window,
}
use fat32_reimplementation.Base.Words.{to_le_bytes}
use fat32_reimplementation.FileSystem.{
  Fat32FileSystem, IsVolume, InData, cluster_offset, cluster_size,
}
use fat32_reimplementation.FileSystem.LongNames.{no_lfn}
use fat32_reimplementation.FileSystem.Listing.{list_directory_entries}
use fat32_reimplementation.FileSystem.Listing.Contents.{
  entries_of, cluster_chunks, list_directory_entries-entries_of,
}
use fat32_reimplementation.FileSystem.Directories.{new_entry, init_directory_cluster}
use fat32_reimplementation.FileSystem.Directories.Fresh.{
  directory_bytes, recorded_parent, init_directory_cluster-splice,
}
use fat32_reimplementation.FileSystem.Directories.Slots.{length-new_entry, size_field}
use fat32_reimplementation.FileSystem.Files.Chains.{cluster_bytes}
use fat32_reimplementation.FileSystem.Files.Replacing.{
  with_bytes, with_bytes-IsVolume, with_bytes-InData, with_bytes_self, with_bytes-other,
}

-- Bytes replaced by themselves, and all bytes replaced.
splice-window : (xs : List ℕ) (lo n : ℕ) → lo + n ≤ length xs → splice xs lo (window xs lo n) ≡ xs
splice-window xs lo n h = get_elem?_ext _ _ λ i. ground (
  arith,
  get_elem?-splice xs lo (window xs lo n) i,
  get_elem?-window xs lo n (i - lo),
  length-window xs lo n h,
)

splice_whole : (xs ys : List ℕ) → length ys ≡ length xs → splice xs 0 ys ≡ ys
splice_whole xs ys e =
    get_elem?_ext _ _
      λ i. ground (arith, get_elem?-splice xs 0 ys i, get_elem?-none xs i, get_elem?-none ys i)

-- The entry of a directory: the size that `mkdir` writes is there already.
pub sized_entry :
    (short_name : List ℕ) (n : ℕ)
    → length short_name ≡ 11
    → splice (new_entry short_name 0x10 n) 28 (to_le_bytes 4 0) ≡ new_entry short_name 0x10 n
sized_entry short_name n eleven =
    ap (splice (new_entry short_name 0x10 n) 28) (sym (size_field short_name 0x10 n eleven))
    ∙ splice-window (new_entry short_name 0x10 n) 28 4
        (omega (arith, length-new_entry short_name 0x10 n eleven))

-- A volume `fs` on which cluster `n` becomes a directory below cluster `p`.
module _ {fs : Fat32FileSystem} (v : IsVolume fs) (p n : ℕ) (inside : InData fs n)
    (parent : InData fs p) (ne : n ≢ p) (large : 64 ≤ cluster_size fs) where
  abbrev pub fresh_bytes : List ℕ
  fresh_bytes = directory_bytes (cluster_size fs) n (recorded_parent fs p)

  abbrev pub populated : Fat32FileSystem
  populated = with_bytes fs n 0 fresh_bytes

  fresh_room : 0 + length fresh_bytes ≤ cluster_size fs
  fresh_room = omega (arith, (init_directory_cluster-splice v n p inside large).0.0)

  pub populated-IsVolume : IsVolume populated
  populated-IsVolume =
      with_bytes-IsVolume v n inside 0 fresh_bytes fresh_room
        (init_directory_cluster-splice v n p inside large).0.1

  pub populated-InData : (d : ℕ) → InData fs d → InData populated d
  populated-InData = with_bytes-InData v n inside 0 fresh_bytes fresh_room

  pub populated-chunks : cluster_chunks populated p ≡ cluster_chunks fs p
  populated-chunks =
      ap (chunks_exact 32) (with_bytes-other v n inside 0 fresh_bytes fresh_room p parent.0 ne)

  pub populated_listing : list_directory_entries fs p ≡ list_directory_entries populated p
  populated_listing =
      list_directory_entries-entries_of v p parent
      ∙ ap (λ (cs : List (List ℕ)). done (entries_of cs no_lfn)) (sym populated-chunks)
      ∙ sym (list_directory_entries-entries_of populated-IsVolume p (populated-InData p parent))

  pub populated_done : init_directory_cluster fs n p ≡ done populated
  populated_done =
      let whole : cluster_offset fs n + 0 ≡ cluster_offset fs n = omega arith in
      (init_directory_cluster-splice v n p inside large).1
      ∙ ap (λ (k : ℕ). done (record fs { disk = splice fs.disk k fresh_bytes })) (sym whole)

  pub populated_bytes : cluster_bytes populated n ≡ fresh_bytes
  populated_bytes =
      let window_whole = length-window fs.disk (cluster_offset fs n) (cluster_size fs) inside.1 in
      with_bytes_self v n inside 0 fresh_bytes fresh_room
      ∙ splice_whole (cluster_bytes fs n) fresh_bytes
          ((init_directory_cluster-splice v n p inside large).0.0 ∙ sym window_whole)
