-- ===== src/FileSystem/Table/Agreement.antt =====
-- Writes to the FAT and later reads of the volume.
use fat32_reimplementation.Base.{ℕ, ◌%◌, ◌^◌, ◌≡◌, ◌≢◌, ap, sym, ◌∙◌, done, arith, List}
use fat32_reimplementation.FileSystem.{Fat32FileSystem, IsVolume, InData, InTable}
use fat32_reimplementation.FileSystem.Sectors.{read_cluster}
use fat32_reimplementation.FileSystem.Sectors.Reading.{read_cluster-window}
use fat32_reimplementation.FileSystem.Table.{read_fat_entry, write_fat_entry, set_entry}
use fat32_reimplementation.FileSystem.Table.Entries.{
  read_fat_entry-table_entry, write_fat_entry-set_entry,
}
use fat32_reimplementation.FileSystem.Table.Updates.{
  set_entry-IsVolume, length-set_entry, table_entry-set_self, table_entry-set_ne, cluster-set_entry,
}

module _ {fs : Fat32FileSystem} (v : IsVolume fs) (c : ℕ) (inside : InTable fs c) (value : ℕ) where
  abbrev written : Fat32FileSystem
  written = set_entry fs c value

  pub written-IsVolume : IsVolume written
  written-IsVolume = set_entry-IsVolume v c inside value

  -- The write keeps the image's length, so what lay inside still does.
  pub written-InTable : (k : ℕ) → InTable fs k → InTable written k
  unfolding set_entry
  written-InTable k inside_k =
      (inside_k.0, omega (arith, inside_k.1, length-set_entry v c inside value))

  pub written-InData : (d : ℕ) → InData fs d → InData written d
  unfolding set_entry
  written-InData d inside_d =
      (inside_d.0, omega (arith, inside_d.1, length-set_entry v c inside value))

  written-cluster : (d : ℕ) → InData fs d → read_cluster written d ≡ read_cluster fs d
  unfolding set_entry
  written-cluster d inside_d =
      read_cluster-window written-IsVolume d (written-InData d inside_d)
      ∙ ap (λ (bytes : List ℕ). done bytes) (cluster-set_entry v c inside value d)
      ∙ sym (read_cluster-window v d inside_d)

  -- On a volume, with the entries of two clusters `c` and `k` inside the FAT and cluster `d` inside
  -- the image: `write_fat_entry` succeeds, and afterwards the entry of `c` reads as the low 28 bits
  -- of the value, the entry of `k` as before, and the bytes of `d` as before.
  pub write_fat_entry-read_fat_entry :
      (k d : ℕ)
      → k ≢ c
      → InTable fs k
      → InData fs d
      → (fs' : Fat32FileSystem) × (write_fat_entry fs c value ≡ done fs')
        × (read_fat_entry fs' c ≡ done (value % 2 ^ 28))
        × (read_fat_entry fs' k ≡ read_fat_entry fs k)
        × (read_cluster fs' d ≡ read_cluster fs d)
  write_fat_entry-read_fat_entry k d ne inside_k inside_d = (
    written,
    write_fat_entry-set_entry v c inside value,
    read_fat_entry-table_entry written-IsVolume c (written-InTable c inside)
        ∙ ap (λ (e : ℕ). done e) (table_entry-set_self v c inside value),
    read_fat_entry-table_entry written-IsVolume k (written-InTable k inside_k)
        ∙ ap (λ (e : ℕ). done e) (table_entry-set_ne v c inside value k ne)
        ∙ sym (read_fat_entry-table_entry v k inside_k),
    written-cluster d inside_d,
  )
