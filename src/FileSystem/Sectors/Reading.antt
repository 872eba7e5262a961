-- ===== src/FileSystem/Sectors/Reading.antt =====
-- What `read_sector` and `read_cluster` return inside the image.
use mathlib.Core.List.{append_assoc, append-nil}
use fat32_reimplementation.Base.{
  ℕ, zero, suc, ◌+◌, ◌-◌, ◌*◌, ◌≤◌, ◌<◌, ◌≡◌, refl, List, [], ◌++◌, length, arith, done, le→leb,
  lt→ltb, ◌^◌,
}
use fat32_reimplementation.Base.Windows.{window, window-zero, slice-window, window-append}
use fat32_reimplementation.Base.Products.{le-mul_pos}
use fat32_reimplementation.FileSystem.{
  Fat32FileSystem, IsVolume, InData, cluster_offset, cluster_size,
}
use fat32_reimplementation.FileSystem.Sectors.{
  read_sector, start_sector, read_sectors, read_cluster,
}

module _ (fs : Fat32FileSystem) (small : length fs.disk < 2 ^ 32) where
  -- A sector inside the image is the bytes at its place.
  pub read_sector-window :
      (a : ℕ)
      → a * fs.bytes_per_sector + fs.bytes_per_sector ≤ length fs.disk
      → read_sector fs a ≡ done (window fs.disk (a * fs.bytes_per_sector) fs.bytes_per_sector)
  unfolding read_sector
  read_sector-window a h =
      rw (lt→ltb (a * fs.bytes_per_sector) (2 ^ 32) (omega arith)) (slice-window fs.disk _ _ h)

  read_sectors-window :
      (start left i : ℕ) (bytes : List ℕ)
      → 0 < fs.bytes_per_sector
      → (start + i + left) * fs.bytes_per_sector ≤ length fs.disk
      → read_sectors fs start left i bytes
        ≡ done (
            bytes
            ++ window fs.disk ((start + i) * fs.bytes_per_sector) (left * fs.bytes_per_sector))
  unfolding read_sectors
  read_sectors-window start zero i bytes pos h =
      let e = window-zero fs.disk ((start + i) * fs.bytes_per_sector) (0 * fs.bytes_per_sector) in
      rw (e (omega arith), append-nil)
  read_sectors-window start (suc left) i bytes pos h =
      let b = fs.bytes_per_sector in
      let d = fs.disk in
      let lo = (start + i) * b in
      let fits : lo + b ≤ length d = grind arith in
      let next : (start + (i + 1) + left) * b ≤ length d = grind arith in
      let word : start + i < 2 ^ 32 = grind arith in
      let step : (start + (i + 1)) * b ≡ lo + b = omega arith in
      let whole : suc left * b ≡ b + left * b = omega arith in
      rw
        (
          lt→ltb (start + i) (2 ^ 32) word,
          read_sector-window (start + i) fits,
          read_sectors-window start left (i + 1) (bytes ++ window d lo b) pos next,
          step,
          whole,
          append_assoc,
          window-append d lo b (left * b) fits,
        )
        refl

module _ {fs : Fat32FileSystem} (v : IsVolume fs) (c : ℕ) (inside : InData fs c) where
  abbrev pub first_sector : ℕ
  first_sector = fs.data_sector + (c - 2) * fs.sectors_per_cluster

  first_sector-small : first_sector < 2 ^ 32
  first_sector-small =
      omega
        (arith, le-mul_pos first_sector fs.bytes_per_sector v.sector_pos, inside.1, v.addressable)

  -- The first sector of a cluster inside the image is computed without overflow.
  pub start_sector-done : start_sector fs c ≡ done first_sector
  unfolding start_sector
  start_sector-done =
      rw
        (
          le→leb 2 c inside.0,
          lt→ltb ((c - 2) * fs.sectors_per_cluster) (2 ^ 32) (omega (arith, first_sector-small)),
          lt→ltb first_sector (2 ^ 32) first_sector-small,
        )
        refl

  -- On a volume, `read_cluster` of a cluster inside the image succeeds with all the bytes at the
  -- cluster's place.
  pub read_cluster-window :
      read_cluster fs c ≡ done (window fs.disk (cluster_offset fs c) (cluster_size fs))
  unfolding read_cluster
  read_cluster-window =
      let e : first_sector + 0 ≡ first_sector = omega arith in
      rw
        (
          start_sector-done,
          read_sectors-window fs v.addressable first_sector fs.sectors_per_cluster 0 [] v.sector_pos
              (omega (arith, inside.1)),
          e,
        )
        refl
