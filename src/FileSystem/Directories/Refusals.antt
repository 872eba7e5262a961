-- ===== src/FileSystem/Directories/Refusals.antt =====
-- `create_file` on requests that it refuses.
use fat32_reimplementation.Base.{
  ℕ, ◌≤◌, ◌<◌, ◌≡◌, refl, ap, ◌∙◌, List, chunks_exact, none, some, done, bind-done, err, ok, String,
}
use fat32_reimplementation.FileSystem.{Fat32FileSystem, IsVolume, InData, InTable}
use fat32_reimplementation.FileSystem.Sectors.Reading.{read_cluster-window}
use fat32_reimplementation.FileSystem.Table.{table_entry, set_entry}
use fat32_reimplementation.FileSystem.Table.Allocation.{
  Taken, allocate_cluster-first, allocate_cluster-full,
}
use fat32_reimplementation.FileSystem.Table.Agreement.{written-IsVolume, written-InData}
use fat32_reimplementation.FileSystem.Table.Updates.{cluster-set_entry, table_entry-set_self}
use fat32_reimplementation.FileSystem.Names.{format_to_8_3}
use fat32_reimplementation.FileSystem.Listing.Contents.{cluster_chunks}
use fat32_reimplementation.FileSystem.Directories.{
  free_slot, new_entry, parent_of, add_entry, create_file,
}

module _ (to_uppercase : List ℕ → List ℕ) (fs : Fat32FileSystem) (path name : List ℕ) where
  -- Why a request is refused before a cluster is used: the parent path leads nowhere, the name has no
  -- short form, or no cluster from 2 to 49999 is free.
  pub data IsRefused : String → Type 0 where
    no_parent : parent_of fs path ≡ done none → IsRefused "Parent directory not found"
    bad_name :
        (p : ℕ) (message : String)
        → parent_of fs path ≡ done (some p)
        → format_to_8_3 to_uppercase name ≡ err message
        → IsRefused message
    full :
        (p : ℕ) (short_name : List ℕ)
        → parent_of fs path ≡ done (some p)
        → format_to_8_3 to_uppercase name ≡ ok short_name
        → Taken fs 2 50000
        → IsRefused "Disk full"

  -- On a volume: when the parent path leads nowhere, when the name has no short form, or when the
  -- entries of the clusters from 2 to 49999 lie inside the FAT and none is free, `create_file` does
  -- not panic, returns the error of that case and leaves the volume as it was.
  pub create_file-IsRefused :
      IsVolume fs
      → (message : String) → IsRefused message
      → create_file to_uppercase fs path name ≡ done (err message, fs)
  unfolding create_file
  create_file-IsRefused v _ (no_parent parent) = bind-done _ parent refl
  create_file-IsRefused v _ (bad_name p message parent formatted) =
      bind-done _ parent (rw formatted refl)
  create_file-IsRefused v _ (full p short_name parent formatted taken) =
      bind-done _ parent (rw formatted (bind-done _ (allocate_cluster-full v taken) refl))

module _ (to_uppercase : List ℕ → List ℕ) {fs : Fat32FileSystem} (v : IsVolume fs)
    (path name : List ℕ) (p n : ℕ) (short_name : List ℕ) where
  add_entry-refused :
      (entry : List ℕ)
      → InData fs p
      → InTable fs n
      → free_slot (cluster_chunks fs p) 0 ≡ none
      → add_entry (set_entry fs n 0x0FFF_FFFF) p entry
        ≡ done (err "No space in parent directory", set_entry fs n 0x0FFF_FFFF)
  unfolding add_entry
  add_entry-refused entry inside in_table slot =
      let same : free_slot (cluster_chunks (set_entry fs n 0x0FFF_FFFF) p) 0 ≡ none =
        unfold set_entry in
        ap (λ (w : List ℕ). free_slot (chunks_exact 32 w) 0)
          (cluster-set_entry v n in_table 0x0FFF_FFFF p)
        ∙ slot in
      bind-done _
        (read_cluster-window (written-IsVolume v n in_table 0x0FFF_FFFF) p
          (written-InData v n in_table 0x0FFF_FFFF p inside))
        (rw same refl)

  -- On a volume, when the parent path resolves to a cluster inside the image without a free entry,
  -- the name has a short form and `n` is the first free cluster, below 50000, its entry and those
  -- before it inside the FAT: `create_file` returns the error, but marks cluster `n` as used all
  -- the same.
  pub create_file_leaks :
      parent_of fs path ≡ done (some p)
      → format_to_8_3 to_uppercase name ≡ ok short_name
      → InData fs p
      → free_slot (cluster_chunks fs p) 0 ≡ none
      → 2 ≤ n
      → n < 50000
      → Taken fs 2 n
      → InTable fs n
      → table_entry fs n ≡ 0
      → (fs' : Fat32FileSystem) × (create_file to_uppercase fs path name
          ≡ done (err "No space in parent directory", fs'))
        × (table_entry fs' n ≡ 0x0FFF_FFFF)
  unfolding create_file
  create_file_leaks parent formatted inside slot lo hi taken in_table unused = (
    set_entry fs n 0x0FFF_FFFF,
    bind-done _ parent (
        rw formatted (
          bind-done _ (allocate_cluster-first v n lo hi taken in_table unused)
            (add_entry-refused (new_entry short_name 0x20 n) inside in_table slot))),
    table_entry-set_self v n in_table 0x0FFF_FFFF,
  )
