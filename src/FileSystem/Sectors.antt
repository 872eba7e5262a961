-- ===== src/FileSystem/Sectors.antt =====
-- src/file_system.rs: `read_sector` and `read_cluster`.
pub mod Reading
use fat32_reimplementation.Base.{
  ℕ, zero, suc, ◌+◌, List, [], ◌++◌, leb, if◌then◌else◌, length, Run, done, panic, ◌>>=◌,
}
use fat32_reimplementation.Base.Windows.{window, slice}
use fat32_reimplementation.Base.Words.{add_u32, sub_u32, mul_u32}
use fat32_reimplementation.FileSystem.{Fat32FileSystem}

unfoldable pub read_sector : Fat32FileSystem → ℕ → Run (List ℕ)
read_sector fs address = do
  offset ← mul_u32 address fs.bytes_per_sector
  slice fs.disk offset fs.bytes_per_sector

-- `for i in 0..sectors_per_cluster`, with the rounds that are left.
unfoldable pub read_sectors : Fat32FileSystem → ℕ → ℕ → ℕ → List ℕ → Run (List ℕ)
read_sectors fs start_address zero i bytes = done bytes
read_sectors fs start_address (suc left) i bytes = do
  address ← add_u32 start_address i
  sector_data ← read_sector fs address
  read_sectors fs start_address left (i + 1) (bytes ++ sector_data)

-- `data_sector + (cluster_id - 2) * sectors_per_cluster`, the first sector of a cluster.
unfoldable pub start_sector : Fat32FileSystem → ℕ → Run ℕ
start_sector fs cluster_id = do
  below ← sub_u32 cluster_id 2
  sectors ← mul_u32 below fs.sectors_per_cluster
  add_u32 fs.data_sector sectors

unfoldable pub read_cluster : Fat32FileSystem → ℕ → Run (List ℕ)
unfolding read_sectors read_sector start_sector
read_cluster fs cluster_id = do
  start_address ← start_sector fs cluster_id
  read_sectors fs start_address fs.sectors_per_cluster 0 []
