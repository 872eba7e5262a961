-- ===== src/FileSystem.antt =====
-- src/file_system.rs: the mounted volume and the boot sector.
pub mod Boot
pub mod Sectors
pub mod Table
pub mod Names
pub mod Entry
pub mod LongNames
pub mod Listing
pub mod FilePath
pub mod Directories
pub mod Files
use fat32_reimplementation.Base.{ℕ, List, get_elem?, ◌≡◌, ◌<◌, ◌≤◌, ◌+◌, ◌*◌, ◌-◌, ◌%◌, ◌^◌}
use fat32_reimplementation.Base.{Run, done, ◌>>=◌, unwrap, length, All}
use fat32_reimplementation.Base.Windows.{slice}
use fat32_reimplementation.Base.Words.{IsByte, from_le_bytes, add_u32, mul_u32}

-- The image is a list of bytes; the other fields are `u32`.
pub record Fat32FileSystem : Type 0 where
  pub disk : List ℕ
  pub bytes_per_sector : ℕ
  pub sectors_per_cluster : ℕ
  pub fat_sector : ℕ
  pub data_sector : ℕ
  pub root_cluster : ℕ

pub data BootOffsets : Type 0 where
  byts_per_sec sec_per_clus rsvd_sec_cnt num_fats fatsz32 root_clus : BootOffsets

-- `off as usize`.
unfoldable pub boot_offset : BootOffsets → ℕ
boot_offset byts_per_sec = 11
boot_offset sec_per_clus = 13
boot_offset rsvd_sec_cnt = 14
boot_offset num_fats = 16
boot_offset fatsz32 = 36
boot_offset root_clus = 44

unfoldable pub read_u16 : List ℕ → BootOffsets → Run ℕ
unfolding boot_offset
read_u16 d off = do bytes ← slice d (boot_offset off) 2; done (from_le_bytes bytes)

unfoldable pub read_u32 : List ℕ → BootOffsets → Run ℕ
unfolding boot_offset
read_u32 d off = do bytes ← slice d (boot_offset off) 4; done (from_le_bytes bytes)

-- `Fat32FileSystem::new`.
unfoldable pub mount : List ℕ → Run Fat32FileSystem
unfolding read_u16 read_u32 boot_offset
mount disk = do
  bytes_per_sector ← read_u16 disk byts_per_sec
  sectors_per_cluster ← unwrap (get_elem? disk (boot_offset sec_per_clus))
  reserved_sectors_count ← read_u16 disk rsvd_sec_cnt
  fat_count ← unwrap (get_elem? disk (boot_offset num_fats))
  sectors_per_fat ← read_u32 disk fatsz32
  root_cluster ← read_u32 disk root_clus
  fat_sectors ← mul_u32 fat_count sectors_per_fat
  data_sector ← add_u32 reserved_sectors_count fat_sectors
  done (record {
    disk = disk;
    bytes_per_sector = bytes_per_sector;
    sectors_per_cluster = sectors_per_cluster;
    fat_sector = reserved_sectors_count;
    data_sector = data_sector;
    root_cluster = root_cluster;
  })

-- Where cluster `c` begins on the image, in bytes, and how long a cluster is.
abbrev pub cluster_offset : Fat32FileSystem → ℕ → ℕ
cluster_offset fs c = (fs.data_sector + (c - 2) * fs.sectors_per_cluster) * fs.bytes_per_sector

abbrev pub cluster_size : Fat32FileSystem → ℕ
cluster_size fs = fs.sectors_per_cluster * fs.bytes_per_sector

-- Where the FAT entry of cluster `c` stands on the image.
abbrev pub entry_offset : Fat32FileSystem → ℕ → ℕ
entry_offset fs c = fs.fat_sector * fs.bytes_per_sector + c * 4

-- A volume that the code can address: an image below 4 GiB, sectors that hold whole directory
-- entries, and a FAT in front of the data.
pub record IsVolume (fs : Fat32FileSystem) : Type 0 where
  pub bytes : All IsByte fs.disk
  pub addressable : length fs.disk < 2 ^ 32
  pub sector_pos : 0 < fs.bytes_per_sector
  pub sector_whole : fs.bytes_per_sector % 32 ≡ 0
  pub cluster_pos : 0 < fs.sectors_per_cluster
  pub table_first : fs.fat_sector ≤ fs.data_sector
  pub root : 2 ≤ fs.root_cluster

-- Cluster `c` lies inside the image.
abbrev pub InData : Fat32FileSystem → ℕ → Type 0
InData fs c = (2 ≤ c) × (cluster_offset fs c + cluster_size fs ≤ length fs.disk)

-- The entry of cluster `c` lies inside the FAT, and the FAT inside the image.
abbrev pub InTable : Fat32FileSystem → ℕ → Type 0
InTable fs c =
    (entry_offset fs c + 4 ≤ fs.data_sector * fs.bytes_per_sector)
    × (fs.data_sector * fs.bytes_per_sector ≤ length fs.disk)
