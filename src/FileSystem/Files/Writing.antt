-- ===== src/FileSystem/Files/Writing.antt =====
-- What `write_file` writes.
use mathlib.Core.Option
use fat32_reimplementation.Base.{
  ℕ, ◌+◌, ◌*◌, ◌/◌, ◌%◌, ◌^◌, ◌≤◌, ◌<◌, ◌≡◌, ◌≢◌, refl, sym, ap, ◌∙◌, List, [], All, All-take, take,
  length, length-take, min, false, Option, none, some, done, ◌>>=◌, bind-done, ok, arith, lt→ltb,
  chunks_exact,
}
use fat32_reimplementation.Base.Windows.{splice, copy_at, copy_at-splice, length-window}
use fat32_reimplementation.Base.Chunks.{length-chunks}
use fat32_reimplementation.Base.Words.{mul_u32, IsByte, to_le_bytes}
use fat32_reimplementation.FileSystem.{
  Fat32FileSystem, IsVolume, InData, cluster_offset, cluster_size,
}
use fat32_reimplementation.FileSystem.Sectors.Reading.{
  read_cluster-window, start_sector-done, first_sector,
}
use fat32_reimplementation.FileSystem.Names.{format_to_8_3}
use fat32_reimplementation.FileSystem.Entry.{FileInfo}
use fat32_reimplementation.FileSystem.FilePath.{parse_path}
use fat32_reimplementation.FileSystem.Listing.Contents.{cluster_chunks}
use fat32_reimplementation.FileSystem.Directories.{parent_of}
use fat32_reimplementation.FileSystem.Files.{
  rsplit_slash, named_slot, update_entry_size, update_file_size, write_file,
}
use fat32_reimplementation.FileSystem.Files.Chains.{cluster_bytes}
use fat32_reimplementation.FileSystem.Files.Replacing.{
  with_bytes, with_bytes-IsVolume, with_bytes-InData, with_bytes-other,
}
use fat32_reimplementation.FileSystem.Files.Replacing.{named_slot-bounds, write_size-with_bytes}

module _ (to_uppercase : List ℕ → List ℕ) {fs : Fat32FileSystem} (v : IsVolume fs)
    (path short_name bytes : List ℕ) (file : FileInfo) (idx : ℕ) where
  -- How many bytes are written: at most one cluster.
  abbrev pub written : List ℕ
  written = take (min (length bytes) (cluster_size fs)) bytes

  abbrev pub fs_data : Fat32FileSystem
  fs_data = with_bytes fs file.start_cluster 0 written

  -- The volume with the bytes in the file's cluster and the size in entry `idx` of the root.
  abbrev pub fs_sized : Fat32FileSystem
  fs_sized = with_bytes fs_data fs.root_cluster (idx * 32 + 28) (to_le_bytes 4 (length written))

  pub written-count : length written ≡ min (length bytes) (cluster_size fs)
  written-count = omega (arith, length-take (min (length bytes) (cluster_size fs)) bytes)

  pub written-room : 0 + length written ≤ cluster_size fs
  written-room = omega (arith, written-count)

  pub slot_inside :
      InData fs fs.root_cluster
      → named_slot short_name (cluster_chunks fs fs.root_cluster) 0 ≡ some idx
      → idx * 32 + 28 + 4 ≤ cluster_size fs
  slot_inside root slot =
      let cluster = cluster_bytes fs fs.root_cluster in
      omega (
        arith,
        named_slot-bounds short_name (cluster_chunks fs fs.root_cluster) 0 idx slot,
        length-chunks 32 (length cluster / 32) cluster,
        length-window fs.disk (cluster_offset fs fs.root_cluster) (cluster_size fs) root.1,
      )

  update_entry_size-sized :
      InData fs file.start_cluster
      → InData fs fs.root_cluster
      → file.start_cluster ≢ fs.root_cluster
      → All IsByte bytes
      → format_to_8_3 to_uppercase path ≡ ok short_name
      → named_slot short_name (cluster_chunks fs fs.root_cluster) 0 ≡ some idx
      → update_entry_size to_uppercase fs_data fs.root_cluster path (length written)
        ≡ done (ok tt, fs_sized)
  unfolding update_entry_size
  update_entry_size-sized inside root ne good formatted slot =
      let v' =
        with_bytes-IsVolume v file.start_cluster inside 0 written written-room
          (All-take IsByte (min (length bytes) (cluster_size fs)) bytes good) in
      let root' =
        with_bytes-InData v file.start_cluster inside 0 written written-room fs.root_cluster root in
      let same =
        with_bytes-other v file.start_cluster inside 0 written written-room fs.root_cluster root.0
          ne in
      let slot' : named_slot short_name (cluster_chunks fs_data fs.root_cluster) 0 ≡ some idx =
        ap (λ (w : List ℕ). named_slot short_name (chunks_exact 32 w) 0) same ∙ slot in
      rw (formatted, update_entry_size)
        (bind-done _ (read_cluster-window v' fs.root_cluster root') (
          rw slot' (
            bind-done _
              (write_size-with_bytes v' fs.root_cluster root' idx (length written)
                (slot_inside root slot))
              refl)))

  update_file_size-sized :
      InData fs file.start_cluster
      → InData fs fs.root_cluster
      → file.start_cluster ≢ fs.root_cluster
      → All IsByte bytes
      → rsplit_slash path ≡ none
      → format_to_8_3 to_uppercase path ≡ ok short_name
      → named_slot short_name (cluster_chunks fs fs.root_cluster) 0 ≡ some idx
      → update_file_size to_uppercase fs_data path (length written) ≡ done (ok tt, fs_sized)
  unfolding update_file_size
  update_file_size-sized inside root ne good plain formatted slot =
      ap
        (λ (p : List ℕ × List ℕ). parent_of fs_data p.0 >>= λ parent.
          update_entry_size to_uppercase fs_data (Option.get_or parent fs.root_cluster) p.1
            (length written))
        (ap (λ (o : Option (List ℕ × List ℕ)). Option.get_or o ([], path)) plain)
      ∙ (unfold parent_of in update_entry_size-sized inside root ne good formatted slot)

  pub write_file-sized :
      parse_path fs path none ≡ done (some file)
      → file.is_directory ≡ false
      → InData fs file.start_cluster
      → InData fs fs.root_cluster
      → file.start_cluster ≢ fs.root_cluster
      → All IsByte bytes
      → rsplit_slash path ≡ none
      → format_to_8_3 to_uppercase path ≡ ok short_name
      → named_slot short_name (cluster_chunks fs fs.root_cluster) 0 ≡ some idx
      → write_file to_uppercase fs path bytes ≡ done (ok tt, fs_sized)
  unfolding write_file
  write_file-sized found regular inside root ne good plain formatted slot =
      let c = file.start_cluster in
      let size_fits : cluster_size fs < 2 ^ 32 = omega (arith, inside.1, v.addressable) in
      let count = written-count in
      let size : mul_u32 fs.sectors_per_cluster fs.bytes_per_sector ≡ done (cluster_size fs) =
        rw (lt→ltb (cluster_size fs) (2 ^ 32) size_fits) refl in
      let start : mul_u32 (first_sector v c inside) fs.bytes_per_sector
          ≡ done (cluster_offset fs c) =
        rw (lt→ltb (cluster_offset fs c) (2 ^ 32) (omega (arith, inside.1, v.addressable))) refl in
      let whole : cluster_offset fs c + 0 ≡ cluster_offset fs c = omega arith in
      let copied : copy_at fs.disk (cluster_offset fs c) written ≡ done fs_data.disk =
        copy_at-splice fs.disk (cluster_offset fs c) written (omega (arith, inside.1, written-room))
        ∙ ap (λ (k : ℕ). done (splice fs.disk k written)) (sym whole) in
      let word : min (length bytes) (cluster_size fs) % 2 ^ 32 ≡ length written =
        omega (arith, size_fits, count) in
      bind-done _ found (
        rw regular (
          bind-done _ size (
            bind-done _ (start_sector-done v c inside) (
              bind-done _ start (
                bind-done _ copied (
                  ap (λ (n : ℕ). update_file_size to_uppercase fs_data path n) word
                  ∙ update_file_size-sized inside root ne good plain formatted slot))))))
