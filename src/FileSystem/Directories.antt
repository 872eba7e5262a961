-- ===== src/FileSystem/Directories.antt =====
-- src/file_system.rs: `create_file`, `mkdir` and what they write.
pub mod Fresh
pub mod Insertion
pub mod Slots
pub mod Adding
pub mod Creation
pub mod Refusals
pub mod Populating
pub mod Subdirectory
pub mod Opening
pub mod Entering
use mathlib.Core.Option
use fat32_reimplementation.Base.{
  ℕ, ◌+◌, ◌*◌, ◌/◌, ◌%◌, ◌^◌, bit_and, List, [], ◌∷◌, get_or, replicate, chunks_exact, ◌==◌,
  bytes_eq, if◌then◌else◌, ◌||◌, true, false, Option, none, some, Run, done, ◌>>=◌, Result, ok, err,
}
use fat32_reimplementation.Base.Windows.{splice, copy_at}
use fat32_reimplementation.Base.Words.{add_u32, mul_u32, div_u32, rem_u32, to_le_bytes}
use fat32_reimplementation.FileSystem.{Fat32FileSystem}
use fat32_reimplementation.FileSystem.Sectors.{start_sector, read_cluster}
use fat32_reimplementation.FileSystem.Table.{allocate_cluster}
use fat32_reimplementation.FileSystem.Names.{format_to_8_3}
use fat32_reimplementation.FileSystem.Entry.{FileInfo}
use fat32_reimplementation.FileSystem.FilePath.{parse_path}

-- The first chunk that is free or deleted. The chunks have 32 bytes, so `chunk[0]` is there.
unfoldable pub free_slot : List (List ℕ) → ℕ → Option ℕ
free_slot [] i = none
free_slot (chunk ∷ chunks) i =
    let first = get_or chunk 0 0 in
    let rest = free_slot chunks (i + 1) in if first == 0x00 || first == 0xE5 then some i else rest

-- An entry with its name, attribute and start cluster; the other bytes are 0.
unfoldable pub new_entry : List ℕ → ℕ → ℕ → List ℕ
new_entry short_name attr cluster =
    let named = splice (replicate 32 0) 0 short_name in
    let typed = splice named 11 (attr ∷ []) in
    let high = splice typed 20 (to_le_bytes 2 (cluster / 2 ^ 16 % 2 ^ 16)) in
    splice high 26 (to_le_bytes 2 (bit_and cluster 0xFFFF % 2 ^ 16))

-- The place on the image of offset `offset_in_cluster` in a cluster.
unfoldable pub locate_slot : Fat32FileSystem → ℕ → ℕ → Run ℕ
unfolding start_sector
locate_slot fs cluster_id offset_in_cluster = do
  start ← start_sector fs cluster_id
  sector_offset ← div_u32 (offset_in_cluster % 2 ^ 32) fs.bytes_per_sector
  byte_offset_in_sector ← rem_u32 offset_in_cluster fs.bytes_per_sector
  sector ← add_u32 start sector_offset
  sector_start ← mul_u32 sector fs.bytes_per_sector
  done (sector_start + byte_offset_in_sector)

unfoldable pub write_directory_entry : Fat32FileSystem → ℕ → ℕ → List ℕ → Run Fat32FileSystem
unfolding locate_slot
write_directory_entry fs cluster_id entry_idx bytes = do
  global_offset ← locate_slot fs cluster_id (entry_idx * 32)
  disk ← copy_at fs.disk global_offset bytes
  done (record fs { disk = disk })

abbrev dot_name : List ℕ
dot_name = b'.' ∷ replicate 10 b' '

abbrev dot_dot_name : List ℕ
dot_dot_name = b'.' ∷ b'.' ∷ replicate 9 b' '

unfoldable pub init_directory_cluster : Fat32FileSystem → ℕ → ℕ → Run Fat32FileSystem
unfolding start_sector
init_directory_cluster fs current_cluster parent_cluster = do
  cluster_size ← mul_u32 fs.sectors_per_cluster fs.bytes_per_sector
  d1 ← copy_at (replicate cluster_size 0) 0 dot_name
  d2 ← copy_at d1 11 (0x10 ∷ [])
  d3 ← copy_at d2 20 (to_le_bytes 2 (current_cluster / 2 ^ 16 % 2 ^ 16))
  d4 ← copy_at d3 26 (to_le_bytes 2 (current_cluster % 2 ^ 16))
  d5 ← copy_at d4 32 dot_dot_name
  d6 ← copy_at d5 43 (0x10 ∷ [])
  let parent_val = if parent_cluster == fs.root_cluster then 0 else parent_cluster
  d7 ← copy_at d6 52 (to_le_bytes 2 (parent_val / 2 ^ 16 % 2 ^ 16))
  d8 ← copy_at d7 58 (to_le_bytes 2 (parent_val % 2 ^ 16))
  start ← start_sector fs current_cluster
  offset_in_disk ← mul_u32 start fs.bytes_per_sector
  disk ← copy_at fs.disk offset_in_disk d8
  done (record fs { disk = disk })

-- The root for an empty path and for "/"; the paths are resolved from the root.
unfoldable pub parent_of : Fat32FileSystem → List ℕ → Run (Option ℕ)
unfolding parse_path
parent_of fs parent_path = elim (bytes_eq parent_path [] || bytes_eq parent_path (b'/' ∷ [])) [
  | true ↦ done (some fs.root_cluster)
  | false ↦ do file ← parse_path fs parent_path none; done (Option.map (λ f. f.start_cluster) file)
]

-- The last part of `create_file` and of `mkdir`: the entry goes into the first free slot.
unfoldable pub add_entry : Fat32FileSystem → ℕ → List ℕ → Run (Result (Unit {0}) × Fat32FileSystem)
unfolding read_cluster free_slot write_directory_entry
add_entry fs parent_cluster entry = do
  cluster_data ← read_cluster fs parent_cluster
  elim (free_slot (chunks_exact 32 cluster_data) 0) [
    | none ↦ done (err "No space in parent directory", fs)
    | some idx ↦ do fs' ← write_directory_entry fs parent_cluster idx entry; done (ok tt, fs')
  ]

-- `to_uppercase` is the standard library's.
module _ (to_uppercase : List ℕ → List ℕ) where
  unfoldable pub create_file :
      Fat32FileSystem → List ℕ → List ℕ → Run (Result (Unit {0}) × Fat32FileSystem)
  unfolding parent_of format_to_8_3 allocate_cluster new_entry add_entry
  create_file fs parent_path filename = do
    parent ← parent_of fs parent_path
    elim parent [
      | none ↦ done (err "Parent directory not found", fs)
      | some parent_cluster ↦ elim (format_to_8_3 to_uppercase filename) [
        | err message ↦ done (err message, fs)
        | ok short_name ↦ do
          (allocated, fs1) ← allocate_cluster fs
          elim allocated [
            | err message ↦ done (err message, fs1)
            | ok new_file_cluster ↦
                add_entry fs1 parent_cluster (new_entry short_name 0x20 new_file_cluster)
          ]
      ]
    ]

  unfoldable pub mkdir :
      Fat32FileSystem → List ℕ → List ℕ → Run (Result (Unit {0}) × Fat32FileSystem)
  unfolding parent_of format_to_8_3 allocate_cluster init_directory_cluster new_entry add_entry
  mkdir fs parent_path folder_name = do
    parent ← parent_of fs parent_path
    elim parent [
      | none ↦ done (err "Parent path not found", fs)
      | some parent_cluster ↦ do
        (allocated, fs1) ← allocate_cluster fs
        elim allocated [
          | err message ↦ done (err message, fs1)
          | ok new_folder_cluster ↦ do
            fs2 ← init_directory_cluster fs1 new_folder_cluster parent_cluster
            elim (format_to_8_3 to_uppercase folder_name) [
              | err message ↦ done (err message, fs2)
              | ok short_name ↦
                  add_entry fs2 parent_cluster
                    (splice (new_entry short_name 0x10 new_folder_cluster) 28 (to_le_bytes 4 0))
            ]
        ]
    ]
