-- ===== src/FileSystem/Table.antt =====
-- src/file_system.rs: reading, writing and searching the FAT.
pub mod Agreement
pub mod Entries
pub mod Updates
pub mod Allocation
use fat32_reimplementation.Base.{
  ℕ, zero, suc, ◌+◌, ◌*◌, ◌/◌, ◌%◌, ◌^◌, bit_and, bit_or, true, false, ◌==◌, Run, done, ◌>>=◌,
  Result, ok, err,
}
use fat32_reimplementation.Base.Windows.{window, splice, slice, copy_at}
use fat32_reimplementation.Base.Words.{
  add_u32, mul_u32, div_u32, rem_u32, from_le_bytes, to_le_bytes,
}
use fat32_reimplementation.FileSystem.{Fat32FileSystem, entry_offset}
use fat32_reimplementation.FileSystem.Sectors.{read_sector}

unfoldable pub read_fat_entry : Fat32FileSystem → ℕ → Run ℕ
unfolding read_sector
read_fat_entry fs cluster_id = do
  fat_offset ← mul_u32 cluster_id 4
  sectors ← div_u32 fat_offset fs.bytes_per_sector
  fat_sector ← add_u32 fs.fat_sector sectors
  fat_index ← rem_u32 fat_offset fs.bytes_per_sector
  sector ← read_sector fs fat_sector
  entry ← slice sector fat_index 4
  done (bit_and (from_le_bytes entry) 0x0FFF_FFFF)

-- The four bits above the address are kept.
abbrev pub merge_entry : ℕ → ℕ → ℕ
merge_entry current_value value =
    bit_or (bit_and current_value 0xF000_0000) (bit_and value 0x0FFF_FFFF)

unfoldable pub write_fat_entry : Fat32FileSystem → ℕ → ℕ → Run Fat32FileSystem
write_fat_entry fs cluster_id value = do
  fat_offset ← mul_u32 cluster_id 4
  sectors ← div_u32 fat_offset fs.bytes_per_sector
  sector_num ← add_u32 fs.fat_sector sectors
  offset_in_sector ← rem_u32 fat_offset fs.bytes_per_sector
  sector_offset ← mul_u32 sector_num fs.bytes_per_sector
  let global_offset = sector_offset + offset_in_sector
  current_value ← slice fs.disk global_offset 4
  disk ←
      copy_at fs.disk global_offset
        (to_le_bytes 4 (merge_entry (from_le_bytes current_value) value))
  done (record fs { disk = disk })

-- `for cluster_id in 2..50000`, with the rounds that are left.
unfoldable pub find_free : ℕ → Fat32FileSystem → ℕ → Run (Result ℕ × Fat32FileSystem)
unfolding read_fat_entry write_fat_entry
find_free zero fs cluster_id = done (err "Disk full", fs)
find_free (suc left) fs cluster_id = do
  entry ← read_fat_entry fs cluster_id
  elim (entry == 0) [
    | true ↦ do fs' ← write_fat_entry fs cluster_id 0x0FFF_FFFF; done (ok cluster_id, fs')
    | false ↦ find_free left fs (cluster_id + 1)
  ]

unfoldable pub allocate_cluster : Fat32FileSystem → Run (Result ℕ × Fat32FileSystem)
unfolding find_free
allocate_cluster fs = find_free 49998 fs 2

-- What the FAT says of cluster `c`: 28 bits.
unfoldable pub table_entry : Fat32FileSystem → ℕ → ℕ
table_entry fs c = from_le_bytes (window fs.disk (entry_offset fs c) 4) % 2 ^ 28

-- The volume with the FAT entry of cluster `c` replaced, its four top bits kept.
unfoldable pub set_entry : Fat32FileSystem → ℕ → ℕ → Fat32FileSystem
set_entry fs c value =
    let current = from_le_bytes (window fs.disk (entry_offset fs c) 4) in
    record fs {
      disk =
          splice fs.disk (entry_offset fs c)
            (to_le_bytes 4 (current / 2 ^ 28 * 2 ^ 28 + value % 2 ^ 28));
    }
