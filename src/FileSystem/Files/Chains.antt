-- ===== src/FileSystem/Files/Chains.antt =====
-- `read_file` along a chain of the FAT.
use mathlib.Core.List.{append-nil, append_assoc}
use fat32_reimplementation.Base.{
  ℕ, zero, suc, ◌≤◌, ◌<◌, ◌≡◌, refl, ap, ◌∙◌, List, [], ◌∷◌, ◌++◌, take, length, false, Option,
  some, done, out_of_fuel, bind-done, arith, lt→leb,
}
use fat32_reimplementation.Base.Windows.{window}
use fat32_reimplementation.Base.Text.{from_utf8}
use fat32_reimplementation.FileSystem.{
  Fat32FileSystem, IsVolume, InData, InTable, cluster_offset, cluster_size,
}
use fat32_reimplementation.FileSystem.Sectors.Reading.{read_cluster-window}
use fat32_reimplementation.FileSystem.Table.{table_entry}
use fat32_reimplementation.FileSystem.Table.Entries.{read_fat_entry-table_entry}
use fat32_reimplementation.FileSystem.Entry.{FileInfo}
use fat32_reimplementation.FileSystem.FilePath.{parse_path}
use fat32_reimplementation.FileSystem.Files.{read_chain, read_file, text_result}

-- From cluster `c` the FAT leads through the clusters of the list to an end mark.
pub data Chain (fs : Fat32FileSystem) : ℕ → List ℕ → Type 0 where
  last : {c : ℕ} → InData fs c → InTable fs c → 0x0FFF_FFF8 ≤ table_entry fs c → Chain fs c (c ∷ [])
  link :
      {c d : ℕ} {cs : List ℕ}
      → InData fs c
      → InTable fs c
      → table_entry fs c ≡ d
      → d < 0x0FFF_FFF8
      → Chain fs d cs
      → Chain fs c (c ∷ cs)

abbrev pub cluster_bytes : Fat32FileSystem → ℕ → List ℕ
cluster_bytes fs c = window fs.disk (cluster_offset fs c) (cluster_size fs)

-- The clusters' bytes, one cluster behind the other.
unfoldable pub chain_bytes : Fat32FileSystem → List ℕ → List ℕ
chain_bytes fs [] = []
chain_bytes fs (c ∷ cs) = cluster_bytes fs c ++ chain_bytes fs cs

module _ {fs : Fat32FileSystem} (v : IsVolume fs) where
  read_chain-last :
      (fuel c : ℕ) (bytes : List ℕ)
      → InData fs c
      → InTable fs c
      → 0x0FFF_FFF8 ≤ table_entry fs c
      → read_chain (suc fuel) fs c bytes ≡ done (bytes ++ cluster_bytes fs c)
  unfolding read_chain
  read_chain-last fuel c bytes here entry h =
      bind-done _ (read_cluster-window v c here)
        (bind-done _ (read_fat_entry-table_entry v c entry) (ground arith))

  read_chain-link :
      (fuel c d : ℕ) (bytes : List ℕ)
      → InData fs c
      → InTable fs c
      → table_entry fs c ≡ d
      → d < 0x0FFF_FFF8
      → read_chain (suc fuel) fs c bytes ≡ read_chain fuel fs d (bytes ++ cluster_bytes fs c)
  unfolding read_chain
  read_chain-link fuel c d bytes here entry e h = bind-done _ (read_cluster-window v c here) (
      bind-done _ (read_fat_entry-table_entry v c entry) (
        rw e (
          rw (lt→leb 0x0FFF_FFF8 d h)
            (ap (λ (k : ℕ). read_chain fuel fs k (bytes ++ cluster_bytes fs c)) e))))

  read_chain-Chain :
      (fuel : ℕ) {c : ℕ} {cs : List ℕ} (bytes : List ℕ)
      → Chain fs c cs
      → length cs ≤ fuel
      → read_chain fuel fs c bytes ≡ done (bytes ++ chain_bytes fs cs)
  unfolding chain_bytes
  read_chain-Chain zero bytes (last here entry h) enough = absurd (omega arith)
  read_chain-Chain zero bytes (link here entry e h rest) enough = absurd (omega arith)
  read_chain-Chain (suc fuel) {c} bytes (last here entry h) enough =
      read_chain-last fuel c bytes here entry h ∙ rw append-nil refl
  read_chain-Chain (suc fuel) {c} bytes (link {d} {cs} here entry e h rest) enough =
      read_chain-link fuel c d bytes here entry e h
      ∙ read_chain-Chain fuel (bytes ++ cluster_bytes fs c) rest (omega arith)
      ∙ ap done (append_assoc bytes (cluster_bytes fs c) (chain_bytes fs cs))

  -- On a volume, if the path resolves to a file whose start cluster heads a chain of the FAT, and the fuel is at
  -- least the chain's length, `read_file` returns: the chain's bytes, cut to the file's size, or
  -- the error for text that is not UTF-8.
  pub read_file-Chain :
      (fuel : ℕ) (path : List ℕ) (current : Option ℕ) (file : FileInfo) (cs : List ℕ)
      → parse_path fs path current ≡ done (some file)
      → file.is_directory ≡ false
      → Chain fs file.start_cluster cs
      → length cs ≤ fuel
      → read_file fuel fs path current
        ≡ done (text_result (from_utf8 (take file.size (chain_bytes fs cs))))
  unfolding read_file
  read_file-Chain fuel path current file cs found plain chain enough =
      bind-done _ found (rw plain (bind-done _ (read_chain-Chain fuel [] chain enough) refl))

  -- On a volume, for a cluster inside the image whose entry, inside the FAT, names the cluster itself
  -- (a number below the end marks), the loop of `read_file` does not return, whatever the fuel.
  pub read_chain_loop :
      (fuel c : ℕ) (bytes : List ℕ)
      → InData fs c
      → InTable fs c
      → table_entry fs c ≡ c
      → c < 0x0FFF_FFF8
      → read_chain fuel fs c bytes ≡ out_of_fuel
  read_chain_loop zero c bytes here entry e h = unfold read_chain in refl
  read_chain_loop (suc fuel) c bytes here entry e h =
      read_chain-link fuel c c bytes here entry e h
      ∙ read_chain_loop fuel c (bytes ++ cluster_bytes fs c) here entry e h
