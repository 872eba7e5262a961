-- ===== src/FileSystem/Table/Updates.antt =====
-- What replacing a FAT entry changes, and what it leaves alone.
use fat32_reimplementation.Base.{
  ℕ, ◌+◌, ◌-◌, ◌*◌, ◌/◌, ◌%◌, ◌^◌, ◌≤◌, ◌<◌, ◌≡◌, ◌≢◌, ap, ◌∙◌, List, All, length, arith, inr, ◌⊎◌,
}
use fat32_reimplementation.Base.Windows.{
  window, splice, length-window, length-splice, window-splice_self, window-splice_apart, All-window,
  All-splice,
}
use fat32_reimplementation.Base.Words.{
  IsByte, from_le_bytes, to_le_bytes, to_le_bytes-IsByte, from_le_bytes-lt, from-to_le_bytes_four,
}
use fat32_reimplementation.Base.Products.{mul_mono}
use fat32_reimplementation.FileSystem.{
  Fat32FileSystem, IsVolume, InTable, entry_offset, cluster_offset, cluster_size,
}
use fat32_reimplementation.FileSystem.Table.{table_entry, set_entry}

-- A volume stays one when bytes of its image are replaced by bytes.
pub IsVolume-disk :
    {fs : Fat32FileSystem} (d : List ℕ)
    → IsVolume fs
    → length d ≡ length fs.disk
    → All IsByte d
    → IsVolume (record fs { disk = d })
IsVolume-disk d v same bytes = record {
  bytes = bytes;
  addressable = omega (arith, v.addressable);
  sector_pos = v.sector_pos;
  sector_whole = v.sector_whole;
  cluster_pos = v.cluster_pos;
  table_first = v.table_first;
  root = v.root;
}

module _ {fs : Fat32FileSystem} (v : IsVolume fs) (c : ℕ) (inside : InTable fs c) (value : ℕ) where
  abbrev at : ℕ
  at = entry_offset fs c

  abbrev old : ℕ
  old = from_le_bytes (window fs.disk at 4)

  abbrev new : ℕ
  new = old / 2 ^ 28 * 2 ^ 28 + value % 2 ^ 28

  in_image : at + 4 ≤ length fs.disk
  in_image = omega (arith, inside.0, inside.1)

  pub length-set_entry : length (set_entry fs c value).disk ≡ length fs.disk
  unfolding set_entry
  length-set_entry = length-splice fs.disk at (to_le_bytes 4 new) in_image

  pub set_entry-IsVolume : IsVolume (set_entry fs c value)
  unfolding set_entry
  set_entry-IsVolume =
      IsVolume-disk (splice fs.disk at (to_le_bytes 4 new)) v
        (length-splice fs.disk at (to_le_bytes 4 new) in_image)
        (All-splice IsByte fs.disk at (to_le_bytes 4 new) v.bytes (to_le_bytes-IsByte 4 new))

  new-lt : new < 2 ^ 32
  new-lt = omega (
    arith,
    from_le_bytes-lt (window fs.disk at 4) (All-window IsByte fs.disk at 4 v.bytes),
    ap (λ n. 256 ^ n) (length-window fs.disk at 4 in_image),
  )

  entry_bytes : from_le_bytes (window (set_entry fs c value).disk at 4) ≡ new
  unfolding set_entry
  entry_bytes =
      ap from_le_bytes (window-splice_self fs.disk at (to_le_bytes 4 new) in_image)
      ∙ from-to_le_bytes_four new new-lt

  -- The written entry reads back, and its four top bits are the old ones.
  pub table_entry-set_self : table_entry (set_entry fs c value) c ≡ value % 2 ^ 28
  unfolding table_entry set_entry
  table_entry-set_self = rw entry_bytes (omega arith)

  pub set_entry-high :
      from_le_bytes (window (set_entry fs c value).disk at 4) / 2 ^ 28 ≡ old / 2 ^ 28
  set_entry-high = rw entry_bytes (omega arith)

  -- A window apart from the entry is unchanged.
  pub window-set_entry :
      (a n : ℕ)
      → (a + n ≤ at) ⊎ (at + 4 ≤ a)
      → window (set_entry fs c value).disk a n ≡ window fs.disk a n
  unfolding set_entry
  window-set_entry a n apart = window-splice_apart fs.disk at (to_le_bytes 4 new) a n in_image apart

  -- The entries of the other clusters are unchanged.
  pub table_entry-set_ne : (k : ℕ) → k ≢ c → table_entry (set_entry fs c value) k ≡ table_entry fs k
  unfolding table_entry set_entry
  table_entry-set_ne k ne = rw (window-set_entry (entry_offset fs k) 4 (ground arith))

  -- So is what the data clusters hold.
  pub cluster-set_entry :
      (k : ℕ)
      → window (set_entry fs c value).disk (cluster_offset fs k) (cluster_size fs)
        ≡ window fs.disk (cluster_offset fs k) (cluster_size fs)
  cluster-set_entry k =
      let after =
        mul_mono fs.data_sector (fs.data_sector + (k - 2) * fs.sectors_per_cluster)
          fs.bytes_per_sector (omega arith) in
      window-set_entry (cluster_offset fs k) (cluster_size fs)
        (inr (omega (arith, after, inside.0)))
