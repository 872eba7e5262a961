-- ===== src/FileSystem/Files.antt =====
-- src/file_system.rs: `read_file`, `write_file` and `update_file_size`.
pub mod Chains
pub mod Replacing
pub mod Writing
pub mod Saving
pub mod Sizing
pub mod Touching
pub mod Keeping
pub mod Resizing
pub mod Showing
use mathlib.Core.Option
use fat32_reimplementation.Base.{
  ℕ, zero, suc, ◌+◌, ◌*◌, ◌/◌, ◌%◌, ◌^◌, min, List, [], ◌∷◌, ◌++◌, take, length, chunks_exact, ◌==◌,
  leb, bytes_eq, if◌then◌else◌, true, false, Option, none, some, Run, done, out_of_fuel, ◌>>=◌,
  Result, ok, err,
}
use fat32_reimplementation.Base.Windows.{window, copy_at}
use fat32_reimplementation.Base.Words.{add_u32, mul_u32, div_u32, rem_u32, to_le_bytes}
use fat32_reimplementation.Base.Text.{from_utf8}
use fat32_reimplementation.FileSystem.{Fat32FileSystem}
use fat32_reimplementation.FileSystem.Sectors.{start_sector, read_cluster}
use fat32_reimplementation.FileSystem.Table.{read_fat_entry}
use fat32_reimplementation.FileSystem.Names.{format_to_8_3}
use fat32_reimplementation.FileSystem.Entry.{FileInfo}
use fat32_reimplementation.FileSystem.FilePath.{parse_path}
use fat32_reimplementation.FileSystem.Directories.{parent_of, locate_slot}

-- The `loop` of `read_file`. It follows the FAT for as long as the chain goes on, so it has fuel.
unfoldable pub read_chain : ℕ → Fat32FileSystem → ℕ → List ℕ → Run (List ℕ)
unfolding read_cluster read_fat_entry
read_chain zero fs cluster bytes = out_of_fuel
read_chain (suc fuel) fs cluster bytes = do
  cluster_data ← read_cluster fs cluster
  next ← read_fat_entry fs cluster
  elim (leb 0x0FFF_FFF8 next) [
    | true ↦ done (bytes ++ cluster_data)
    | false ↦ read_chain fuel fs next (bytes ++ cluster_data)
  ]

abbrev pub text_result : Option (List ℕ) → Result (List ℕ)
text_result none = err "Invalid UTF-8 content"
text_result (some text) = ok text

unfoldable pub read_file : ℕ → Fat32FileSystem → List ℕ → Option ℕ → Run (Result (List ℕ))
unfolding parse_path read_chain from_utf8
read_file fuel fs path current_cluster = do
  found ← parse_path fs path current_cluster
  elim found [
    | none ↦ done (err "File not found")
    | some file ↦ elim file.is_directory [
      | true ↦ done (err "Not a file")
      | false ↦ do
        bytes ← read_chain fuel fs file.start_cluster []
        done (text_result (from_utf8 (take file.size bytes)))
    ]
  ]

-- `path.rfind('/')`: what stands before and behind the last slash.
unfoldable pub rsplit_slash : List ℕ → Option (List ℕ × List ℕ)
rsplit_slash [] = none
rsplit_slash (b ∷ bs) = elim (rsplit_slash bs) [
  | some (before, behind) ↦ some (b ∷ before, behind)
  | none ↦ if b == b'/' then some ([], bs) else none
]

-- The first chunk that begins with the name.
unfoldable pub named_slot : List ℕ → List (List ℕ) → ℕ → Option ℕ
named_slot short_name [] i = none
named_slot short_name (chunk ∷ chunks) i =
    let rest = named_slot short_name chunks (i + 1) in
    if bytes_eq (window chunk 0 11) short_name then some i else rest

-- The four bytes of the size, in entry `entry_idx` of a directory cluster.
unfoldable pub write_size : Fat32FileSystem → ℕ → ℕ → ℕ → Run Fat32FileSystem
unfolding locate_slot
write_size fs parent_cluster entry_idx new_size = do
  final_offset ← locate_slot fs parent_cluster (entry_idx * 32 + 28)
  disk ← copy_at fs.disk final_offset (to_le_bytes 4 new_size)
  done (record fs { disk = disk })

-- `to_uppercase` is the standard library's.
module _ (to_uppercase : List ℕ → List ℕ) where
  -- The last part of `update_file_size`: the size goes into the entry of that name.
  unfoldable pub update_entry_size :
      Fat32FileSystem → ℕ → List ℕ → ℕ → Run (Result (Unit {0}) × Fat32FileSystem)
  unfolding format_to_8_3 read_cluster named_slot write_size
  update_entry_size fs parent_cluster filename new_size =
      elim (format_to_8_3 to_uppercase filename) [
        | err message ↦ done (err message, fs)
        | ok short_name ↦ do
          cluster_data ← read_cluster fs parent_cluster
          elim (named_slot short_name (chunks_exact 32 cluster_data) 0) [
            | none ↦ done (err "Entrée introuvable pour mise à jour", fs)
            | some entry_idx ↦ do
              fs' ← write_size fs parent_cluster entry_idx new_size
              done (ok tt, fs')
          ]
      ]

  unfoldable pub update_file_size :
      Fat32FileSystem → List ℕ → ℕ → Run (Result (Unit {0}) × Fat32FileSystem)
  unfolding rsplit_slash parent_of update_entry_size
  update_file_size fs path new_size = do
    let (parent_path, filename) = Option.get_or (rsplit_slash path) ([], path)
    parent ← parent_of fs parent_path
    update_entry_size fs (Option.get_or parent fs.root_cluster) filename new_size

  unfoldable pub write_file :
      Fat32FileSystem → List ℕ → List ℕ → Run (Result (Unit {0}) × Fat32FileSystem)
  unfolding parse_path start_sector update_file_size
  write_file fs path bytes = do
    found ← parse_path fs path none
    elim found [
      | none ↦ done (err "Fichier non trouvé", fs)
      | some file ↦ elim file.is_directory [
        | true ↦ done (err "Impossible d'écrire dans un répertoire", fs)
        | false ↦ do
          cluster_size ← mul_u32 fs.sectors_per_cluster fs.bytes_per_sector
          let bytes_to_write = min (length bytes) cluster_size
          start ← start_sector fs file.start_cluster
          global_offset ← mul_u32 start fs.bytes_per_sector
          disk ← copy_at fs.disk global_offset (take bytes_to_write bytes)
          update_file_size (record fs { disk = disk }) path (bytes_to_write % 2 ^ 32)
      ]
    ]
