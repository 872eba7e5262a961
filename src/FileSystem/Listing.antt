-- ===== src/FileSystem/Listing.antt =====
-- src/file_system.rs: `list_directory_entries`.
pub mod Contents
pub mod Fragments
pub mod Description
use mathlib.Core.Option
use fat32_reimplementation.Base.{
  ℕ, bit_and, List, [], ◌∷◌, ◌++◌, map, get_elem?, chunks_exact, ◌==◌, if◌then◌else◌, true, false,
  not, Option, none, some, Run, done, ◌>>=◌, unwrap,
}
use fat32_reimplementation.FileSystem.{Fat32FileSystem}
use fat32_reimplementation.FileSystem.Sectors.{read_cluster}
use fat32_reimplementation.FileSystem.Names.{lfn_checksum, short_name_to_string}
use fat32_reimplementation.FileSystem.Entry.{FatDir, FileInfo, file_info, parse_dir, first_cluster}
use fat32_reimplementation.FileSystem.LongNames.{
  LfnFragments, LfnState, no_lfn, process_lfn_entry, assemble_lfn,
}

-- The long name of an entry, if the fragments in front of it belong to it, and the fragments that
-- are left: those of another entry are dropped.
abbrev pub long_name : List ℕ → LfnFragments → Option ℕ → Option (List ℕ) × LfnState
long_name name11 [] expected = (none, record { fragments = []; expected_checksum = expected })
long_name name11 (a ∷ frags) none = (none, no_lfn)
long_name name11 (a ∷ frags) (some expected) =
    if expected == lfn_checksum name11
    then (
      assemble_lfn (a ∷ frags),
      record { fragments = a ∷ frags; expected_checksum = some expected },
    )
    else (none, record { fragments = []; expected_checksum = some expected })

unfoldable pub process_data_entry : List ℕ → LfnState → ℕ → Run (Option FileInfo × LfnState)
unfolding parse_dir first_cluster
process_data_entry entry_chunk state attr_directory_mask = do
  dir_entry ← parse_dir entry_chunk
  let (name_to_use, state') = long_name dir_entry.name state.fragments state.expected_checksum
  let info =
      file_info (Option.get_or name_to_use (short_name_to_string dir_entry.name))
        (not (bit_and dir_entry.attr attr_directory_mask == 0)) dir_entry.size
        (first_cluster dir_entry)
  done (if not (bit_and dir_entry.attr 0x08 == 0) then (none, state) else (some info, state'))

abbrev pub attr_lfn : ℕ
attr_lfn = 0x0F

abbrev pub attr_directory : ℕ
attr_directory = 0x10

abbrev pub push_some : List FileInfo → Option FileInfo → List FileInfo
push_some results none = results
push_some results (some file_info) = results ++ file_info ∷ []

-- `for entry_chunk in cluster_data.chunks_exact(ENTRY_SIZE)`.
unfoldable pub list_entries : List (List ℕ) → LfnState → List FileInfo → Run (List FileInfo)
unfolding process_lfn_entry process_data_entry
list_entries [] state results = done results
list_entries (entry_chunk ∷ chunks) state results = do
  first_byte ← unwrap (get_elem? entry_chunk 0)
  attributes ← unwrap (get_elem? entry_chunk 11)
  elim (first_byte == 0x00) [
    | true ↦ done results
    | false ↦ elim (first_byte == 0xE5) [
      | true ↦ list_entries chunks no_lfn results
      | false ↦ elim (attributes == attr_lfn) [
        | true ↦ do state' ← process_lfn_entry entry_chunk state; list_entries chunks state' results
        | false ↦ do
          (found, _) ← process_data_entry entry_chunk state attr_directory
          list_entries chunks no_lfn (push_some results found)
      ]
    ]
  ]

unfoldable pub list_directory_entries : Fat32FileSystem → ℕ → Run (List FileInfo)
unfolding read_cluster list_entries
list_directory_entries fs cluster_id = do
  cluster_data ← read_cluster fs cluster_id
  list_entries (chunks_exact 32 cluster_data) no_lfn []

unfoldable pub list_files_names : List FileInfo → List (List ℕ)
list_files_names files = map (λ f. f.name) files
