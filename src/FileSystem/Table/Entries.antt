-- ===== src/FileSystem/Table/Entries.antt =====
-- `read_fat_entry` and `write_fat_entry` against the table that they stand for.
use native.Mathlib.Nat.{div-add-mod}
use fat32_reimplementation.Base.{
  ℕ, ◌+◌, ◌*◌, ◌/◌, ◌%◌, ◌^◌, ◌≤◌, ◌<◌, ◌≡◌, refl, ap, length, arith, done, lt→ltb, ◌==◌, false,
}
use fat32_reimplementation.Base.Windows.{
  window, slice-window, copy_at-splice, length-window, window-window, All-window,
}
use fat32_reimplementation.Base.Words.{
  IsByte, from_le_bytes, from_le_bytes-lt, bit_and-low_28, bit_and-high_4,
}
use fat32_reimplementation.Base.Bits.{bit_or-fields}
use fat32_reimplementation.Base.Products.{le-mul_pos, mul_step, lt_of_mul_lt, mod_aligned}
use fat32_reimplementation.FileSystem.{Fat32FileSystem, IsVolume, InTable, entry_offset}
use fat32_reimplementation.FileSystem.Sectors.Reading.{read_sector-window}
use fat32_reimplementation.FileSystem.Table.{
  read_fat_entry, write_fat_entry, merge_entry, table_entry, set_entry,
}

module _ {fs : Fat32FileSystem} (v : IsVolume fs) (c : ℕ) (inside : InTable fs c) where
  abbrev b : ℕ
  b = fs.bytes_per_sector

  abbrev sector : ℕ
  sector = fs.fat_sector + c * 4 / b

  abbrev index : ℕ
  index = c * 4 % b

  place : sector * b + index ≡ entry_offset fs c
  place = omega (arith, div-add-mod (c * 4) b)

  sector_before : sector < fs.data_sector
  sector_before = lt_of_mul_lt sector fs.data_sector b (omega (arith, place, inside.0))

  sector_inside : sector * b + b ≤ length fs.disk
  sector_inside = omega (arith, mul_step sector fs.data_sector b sector_before, inside.1)

  fits : index + 4 ≤ b
  fits = mod_aligned c 4 (b / 32 * 8) b v.sector_pos (omega arith) (omega (arith, v.sector_whole))

  small : entry_offset fs c + 4 < 2 ^ 32
  small = omega (arith, inside.0, inside.1, v.addressable)

  inside_image : entry_offset fs c + 4 ≤ length fs.disk
  inside_image = omega (arith, inside.0, inside.1)

  sector_small : sector < 2 ^ 32
  sector_small = omega (arith, le-mul_pos sector b v.sector_pos, sector_inside, v.addressable)

  nonzero : (b == 0) ≡ false
  nonzero = ground (arith, v.sector_pos)

  -- On a volume, `read_fat_entry` of a cluster whose entry lies inside the FAT succeeds with the low
  -- 28 bits of the entry.
  pub read_fat_entry-table_entry : read_fat_entry fs c ≡ done (table_entry fs c)
  unfolding read_fat_entry table_entry
  read_fat_entry-table_entry =
      rw
        (
          lt→ltb (c * 4) (2 ^ 32) (omega (arith, small)),
          nonzero,
          lt→ltb sector (2 ^ 32) sector_small,
          read_sector-window fs v.addressable sector sector_inside,
          slice-window (window fs.disk (sector * b) b) index 4
              (omega (arith, fits, length-window fs.disk (sector * b) b sector_inside)),
          window-window fs.disk (sector * b) b index 4 fits,
          place,
          bit_and-low_28,
        )
        refl

  -- The entry's four bytes as a number.
  abbrev current : ℕ
  current = from_le_bytes (window fs.disk (entry_offset fs c) 4)

  current-lt : current < 2 ^ 32
  current-lt = omega (
    arith,
    from_le_bytes-lt (window fs.disk (entry_offset fs c) 4)
        (All-window IsByte fs.disk (entry_offset fs c) 4 v.bytes),
    ap (λ n. 256 ^ n) (length-window fs.disk (entry_offset fs c) 4 inside_image),
  )

  merge : (value : ℕ) → merge_entry current value ≡ current / 2 ^ 28 * 2 ^ 28 + value % 2 ^ 28
  merge value =
      rw
        (
          bit_and-high_4 current current-lt,
          bit_and-low_28,
          bit_or-fields 28 (current / 2 ^ 28) (value % 2 ^ 28) (omega arith),
        )
        refl

  -- On a volume, `write_fat_entry` of a cluster whose entry lies inside the FAT succeeds, and the
  -- image differs in the entry's four bytes only: they hold the low 28 bits of the value under the
  -- old top 4 bits.
  pub write_fat_entry-set_entry :
      (value : ℕ) → write_fat_entry fs c value ≡ done (set_entry fs c value)
  unfolding write_fat_entry set_entry
  write_fat_entry-set_entry value =
      rw
        (
          lt→ltb (c * 4) (2 ^ 32) (omega (arith, small)),
          nonzero,
          lt→ltb sector (2 ^ 32) sector_small,
          lt→ltb (sector * b) (2 ^ 32) (omega (arith, place, small)),
          place,
          slice-window fs.disk (entry_offset fs c) 4 inside_image,
          merge value,
          copy_at-splice fs.disk (entry_offset fs c) _ inside_image,
        )
        refl
