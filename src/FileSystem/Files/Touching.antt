-- ===== src/FileSystem/Files/Touching.antt =====
-- The volume behind `create_file` in the root directory, and behind `write_file` of the new file.
use fat32_reimplementation.Base.{
  ℕ, zero, suc, ◌+◌, ◌*◌, ◌≤◌, ◌<◌, ◌≡◌, refl, ap, sym, ◌∙◌, List, [], ◌∷◌, length, chunks_exact,
  arith,
}
use fat32_reimplementation.Base.Chunks.{set}
use fat32_reimplementation.Base.Windows.{
  window, splice, length-splice, length-window, window-splice_self,
}
use fat32_reimplementation.Base.Words.{to_le_bytes}
use fat32_reimplementation.FileSystem.{
  Fat32FileSystem, IsVolume, InData, InTable, cluster_offset, cluster_size,
}
use fat32_reimplementation.FileSystem.Table.{table_entry, set_entry}
use fat32_reimplementation.FileSystem.Table.Updates.{table_entry-set_self}
use fat32_reimplementation.FileSystem.Table.Agreement.{written-InData, written-InTable}
use fat32_reimplementation.FileSystem.Listing.Contents.{cluster_chunks}
use fat32_reimplementation.FileSystem.Directories.{new_entry}
use fat32_reimplementation.FileSystem.Directories.Slots.{length-new_entry, new_entry-IsByte}
use fat32_reimplementation.FileSystem.Directories.Adding.{
  with_entry, cluster_chunks-with_entry, slot_fits,
}
use fat32_reimplementation.FileSystem.Directories.Creation.{
  HasRoom, IsShortName, reserved-IsVolume, reserved-InData, reserved-chunks, reserved-slot,
}
use fat32_reimplementation.FileSystem.Directories.Insertion.{free_slot-bounds}
use fat32_reimplementation.FileSystem.Files.Chains.{cluster_bytes}
use fat32_reimplementation.FileSystem.Files.Replacing.{
  with_bytes-IsVolume, with_bytes-InData, with_bytes-InTable, with_bytes-entry, with_bytes_self,
}
use fat32_reimplementation.FileSystem.Files.Sizing.{sized_entry}
use fat32_reimplementation.FileSystem.Files.Resizing.{resized, resized-chunks}

set-set : (xs : List (List ℕ)) (i : ℕ) (a b : List ℕ) → set (set xs i a) i b ≡ set xs i b
set-set [] i a b = refl
set-set (x ∷ xs) zero a b = refl
set-set (x ∷ xs) (suc i) a b = ap (λ (l : List (List ℕ)). x ∷ l) (set-set xs i a b)

-- The volume with a file of cluster `n` in entry `idx` of directory `p`.
abbrev pub touched : Fat32FileSystem → ℕ → ℕ → ℕ → List ℕ → Fat32FileSystem
touched fs p idx n short_name =
    with_entry (set_entry fs n 0x0FFF_FFFF) p idx (new_entry short_name 0x20 n)

module _ {fs : Fat32FileSystem} (v : IsVolume fs) (p idx n : ℕ) (room : HasRoom fs p idx n)
    (short_name : List ℕ) (s : IsShortName short_name) where
  abbrev reserved : Fat32FileSystem
  reserved = set_entry fs n 0x0FFF_FFFF

  abbrev entry : List ℕ
  entry = new_entry short_name 0x20 n

  whole : length entry ≡ 32
  whole = length-new_entry short_name 0x20 n s.eleven

  v1 : IsVolume reserved
  v1 = reserved-IsVolume v p idx n room

  inside1 : InData reserved p
  inside1 = reserved-InData v p idx n room

  fits : idx * 32 + length entry ≤ cluster_size reserved
  fits = omega (arith, whole, slot_fits v1 p inside1 idx entry (reserved-slot v p idx n room) whole)

  pub touched-IsVolume : IsVolume (touched fs p idx n short_name)
  touched-IsVolume =
      with_bytes-IsVolume v1 p inside1 (idx * 32) entry fits
        (new_entry-IsByte short_name 0x20 n s.eleven s.bytes (omega arith))

  pub touched-InData : (d : ℕ) → InData fs d → InData (touched fs p idx n short_name) d
  touched-InData d h =
      with_bytes-InData v1 p inside1 (idx * 32) entry fits d
        (written-InData v n room.in_table 0x0FFF_FFFF d h)

  pub touched-InTable : InTable (touched fs p idx n short_name) n
  touched-InTable =
      with_bytes-InTable v1 p inside1 (idx * 32) entry fits n
        (written-InTable v n room.in_table 0x0FFF_FFFF n room.in_table)

  -- The file's cluster is the end of its chain.
  pub touched_end : table_entry (touched fs p idx n short_name) n ≡ 0x0FFF_FFFF
  touched_end =
      with_bytes-entry v1 p inside1 (idx * 32) entry fits n
        (written-InTable v n room.in_table 0x0FFF_FFFF n room.in_table)
      ∙ table_entry-set_self v n room.in_table 0x0FFF_FFFF
      ∙ omega arith

  pub touched-chunks :
      cluster_chunks (touched fs p idx n short_name) p ≡ set (cluster_chunks fs p) idx entry
  touched-chunks =
      cluster_chunks-with_entry v1 p inside1 idx entry (reserved-slot v p idx n room) whole
      ∙ ap (λ (cs : List (List ℕ)). set cs idx entry) (reserved-chunks v p idx n room)

  touched_bytes :
      cluster_bytes (touched fs p idx n short_name) p
      ≡ splice (cluster_bytes reserved p) (idx * 32) entry
  touched_bytes = with_bytes_self v1 p inside1 (idx * 32) entry fits

  pub slot-lt : idx < length (cluster_chunks fs p)
  slot-lt = omega (arith, free_slot-bounds (cluster_chunks fs p) 0 idx room.slot)

  -- The size is written into the entry.
  pub sized-chunks :
      (size : ℕ)
      → chunks_exact 32 (
          splice
            (cluster_bytes (touched fs p idx n short_name) p)
            (idx * 32 + 28)
            (to_le_bytes 4 size))
        ≡ set (cluster_chunks fs p) idx (sized_entry short_name n size)
  sized-chunks size =
      let w = cluster_bytes (touched fs p idx n short_name) p in
      let old = cluster_bytes reserved p in
      let y = sized_entry short_name n size in
      let long : length old ≡ cluster_size reserved =
        length-window reserved.disk (cluster_offset reserved p) (cluster_size reserved) inside1.1 in
      let inside : idx * 32 + length entry ≤ length old = omega (arith, fits, long) in
      let same : length w ≡ length old =
        ap length touched_bytes ∙ length-splice old (idx * 32) entry inside in
      let here : window w (idx * 32) 32 ≡ entry =
        ap (λ (l : List ℕ). window l (idx * 32) 32) touched_bytes
        ∙ ap (window (splice old (idx * 32) entry) (idx * 32)) (sym whole)
        ∙ window-splice_self old (idx * 32) entry inside in
      resized-chunks w idx size (omega (arith, inside, same, whole))
      ∙ ap (λ (e : List ℕ). set (chunks_exact 32 w) idx (resized e size)) here
      ∙ ap (λ (cs : List (List ℕ)). set cs idx y) touched-chunks
      ∙ set-set (cluster_chunks fs p) idx entry y
