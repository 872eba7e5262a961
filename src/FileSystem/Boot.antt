-- ===== src/FileSystem/Boot.antt =====
-- The boot sector's fields in the mounted volume.
use fat32_reimplementation.Base.{
  ℕ, ◌+◌, ◌*◌, ◌≤◌, ◌<◌, ◌^◌, ◌≡◌, refl, List, length, get_or, get_elem?-some, lt→ltb, done, arith,
}
use fat32_reimplementation.Base.Windows.{window, slice-window}
use fat32_reimplementation.Base.Words.{from_le_bytes}
use fat32_reimplementation.FileSystem.{Fat32FileSystem, mount}

-- A field of `n` bytes at place `at` of the image.
abbrev pub field : List ℕ → ℕ → ℕ → ℕ
field disk at n = from_le_bytes (window disk at n)

-- The volume that the boot sector describes: the data begins behind the reserved sectors and all
-- copies of the FAT.
abbrev pub described : List ℕ → Fat32FileSystem
described disk = record {
  disk = disk;
  bytes_per_sector = field disk 11 2;
  sectors_per_cluster = get_or disk 13 0;
  fat_sector = field disk 14 2;
  data_sector = field disk 14 2 + get_or disk 16 0 * field disk 36 4;
  root_cluster = field disk 44 4;
}

-- For an image of at least 48 bytes in which the sector behind all copies of the FAT fits 32 bits,
-- mounting does not panic, and the volume has the fields that stand at the boot sector's offsets.
pub mount-described :
    (disk : List ℕ)
    → 48 ≤ length disk
    → field disk 14 2 + get_or disk 16 0 * field disk 36 4 < 2 ^ 32
    → mount disk ≡ done (described disk)
unfolding mount
mount-described disk long fits =
    rw
      (
        slice-window disk 11 2 (omega arith),
        get_elem?-some disk 13 0 (omega arith),
        slice-window disk 14 2 (omega arith),
        get_elem?-some disk 16 0 (omega arith),
        slice-window disk 36 4 (omega arith),
        slice-window disk 44 4 (omega arith),
        lt→ltb (get_or disk 16 0 * field disk 36 4) (2 ^ 32) (omega arith),
        lt→ltb (field disk 14 2 + get_or disk 16 0 * field disk 36 4) (2 ^ 32) fits,
      )
      refl
