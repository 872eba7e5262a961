-- ===== src/FileSystem/Directories/Slots.antt =====
-- Writing inside a directory cluster, and the entries that are written.
use native.Mathlib.Nat.{div-add-mod}
use fat32_reimplementation.Base.{
  ℕ, ◌+◌, ◌-◌, ◌*◌, ◌/◌, ◌%◌, ◌^◌, ◌≤◌, ◌<◌, ◌≡◌, refl, ap, ◌∙◌, List, [], ◌∷◌, get_or, sym, ◌⊎◌,
  length, replicate, All, All-replicate, done, lt→ltb, ◌==◌, false, inl, inr, arith, bit_and,
}
use fat32_reimplementation.Base.Windows.{
  window, splice, All-splice, copy_at-splice, length-splice, get_or-window, window-splice_self,
  window-splice_apart,
}
use fat32_reimplementation.Base.Words.{IsByte, to_le_bytes, to_le_bytes-IsByte}
use fat32_reimplementation.Base.Products.{le-mul_pos}
use fat32_reimplementation.FileSystem.{
  Fat32FileSystem, IsVolume, InData, cluster_offset, cluster_size,
}
use fat32_reimplementation.FileSystem.Sectors.Reading.{start_sector-done}
use fat32_reimplementation.Base.Bits.{bit_and-low, bit_or-fields}
use fat32_reimplementation.FileSystem.Entry.{first_cluster}
use fat32_reimplementation.FileSystem.Entry.Fields.{dir_of}
use fat32_reimplementation.FileSystem.Directories.{new_entry, locate_slot, write_directory_entry}

-- Offset `off` in cluster `c`, with room for `len` bytes.
module _ {fs : Fat32FileSystem} (v : IsVolume fs) (c : ℕ) (inside : InData fs c) (off len : ℕ)
    (room : off + len ≤ cluster_size fs) where
  abbrev b : ℕ
  b = fs.bytes_per_sector

  abbrev pub slot_sector : ℕ
  slot_sector = fs.data_sector + (c - 2) * fs.sectors_per_cluster + off / b

  pub slot_place : slot_sector * b + off % b ≡ cluster_offset fs c + off
  slot_place = omega (arith, div-add-mod off b)

  pub slot_room : cluster_offset fs c + off + len ≤ length fs.disk
  slot_room = omega (arith, inside.1, room)

  slot_small : slot_sector * b + off % b < 2 ^ 32
  slot_small = omega (arith, slot_place, slot_room, v.addressable)

  slot_sector-lt : slot_sector < 2 ^ 32
  slot_sector-lt = omega (arith, le-mul_pos slot_sector b v.sector_pos, slot_small)

  -- The place of the slot on the image is computed without overflow.
  pub locate_slot-done : locate_slot fs c off ≡ done (cluster_offset fs c + off)
  unfolding locate_slot
  locate_slot-done =
      let word : off % 2 ^ 32 ≡ off = omega (arith, slot_room, v.addressable) in
      let nonzero : (b == 0) ≡ false = ground (arith, v.sector_pos) in
      rw
        (
          start_sector-done v c inside,
          word,
          nonzero,
          lt→ltb slot_sector (2 ^ 32) slot_sector-lt,
          lt→ltb (slot_sector * b) (2 ^ 32) (omega (arith, slot_small)),
          slot_place,
        )
        refl

-- On a volume, for a cluster inside the image, a slot inside the cluster and an entry of 32 bytes,
-- `write_directory_entry` succeeds, and replaces the 32 bytes of the slot and nothing else.
pub write_directory_entry-splice :
    {fs : Fat32FileSystem} (v : IsVolume fs) (c : ℕ)
    → InData fs c
    → (idx : ℕ) (entry : List ℕ) → idx * 32 + 32 ≤ cluster_size fs
    → length entry ≡ 32
    → write_directory_entry fs c idx entry
      ≡ done (record fs { disk = splice fs.disk (cluster_offset fs c + idx * 32) entry })
unfolding write_directory_entry
write_directory_entry-splice {fs} v c inside idx entry room whole =
    rw (locate_slot-done v c inside (idx * 32) 32 room) (
      rw
        (copy_at-splice fs.disk (cluster_offset fs c + idx * 32) entry
          (omega (arith, slot_room v c inside (idx * 32) 32 room)))
        refl)

module _ (short_name : List ℕ) (attr cluster : ℕ) (eleven : length short_name ≡ 11) where
  abbrev hi : List ℕ
  hi = to_le_bytes 2 (cluster / 2 ^ 16 % 2 ^ 16)

  abbrev lo : List ℕ
  lo = to_le_bytes 2 (bit_and cluster 0xFFFF % 2 ^ 16)

  abbrev zeros : List ℕ
  zeros = replicate 32 0

  abbrev named : List ℕ
  named = splice zeros 0 short_name

  abbrev typed : List ℕ
  typed = splice named 11 (attr ∷ [])

  abbrev high : List ℕ
  high = splice typed 20 hi

  named-whole : length named ≡ 32
  named-whole = length-splice zeros 0 short_name (omega arith)

  typed-whole : length typed ≡ 32
  typed-whole = length-splice named 11 (attr ∷ []) (omega (arith, named-whole)) ∙ named-whole

  high-whole : length high ≡ 32
  high-whole = length-splice typed 20 hi (omega (arith, typed-whole)) ∙ typed-whole

  pub length-new_entry : length (new_entry short_name attr cluster) ≡ 32
  unfolding new_entry
  length-new_entry = length-splice high 26 lo (omega (arith, high-whole)) ∙ high-whole

  -- The four writes, one behind the other.
  behind_low :
      (a n : ℕ)
      → (a + n ≤ 26) ⊎ (28 ≤ a)
      → window (new_entry short_name attr cluster) a n ≡ window high a n
  unfolding new_entry
  behind_low a n = window-splice_apart high 26 lo a n (omega (arith, high-whole))

  behind_high : (a n : ℕ) → (a + n ≤ 20) ⊎ (22 ≤ a) → window high a n ≡ window typed a n
  behind_high a n = window-splice_apart typed 20 hi a n (omega (arith, typed-whole))

  behind_attr : (a n : ℕ) → (a + n ≤ 11) ⊎ (12 ≤ a) → window typed a n ≡ window named a n
  behind_attr a n = window-splice_apart named 11 (attr ∷ []) a n (omega (arith, named-whole))

  pub name_field : window (new_entry short_name attr cluster) 0 11 ≡ short_name
  name_field =
      behind_low 0 11 (inl (omega arith))
      ∙ behind_high 0 11 (inl (omega arith))
      ∙ behind_attr 0 11 (inl (omega arith))
      ∙ ap (window named 0) (sym eleven)
      ∙ window-splice_self zeros 0 short_name (omega arith)

  attr_field : get_or (new_entry short_name attr cluster) 11 0 ≡ attr
  attr_field =
      get_or-window (new_entry short_name attr cluster) 11 1 0 11 0 (omega arith) (omega arith)
      ∙ ap (λ (w : List ℕ). get_or w 0 0)
          (behind_low 11 1 (inl (omega arith))
            ∙ behind_high 11 1 (inl (omega arith))
            ∙ window-splice_self named 11 (attr ∷ []) (omega (arith, named-whole)))

  high_field : window (new_entry short_name attr cluster) 20 2 ≡ hi
  high_field =
      behind_low 20 2 (inl (omega arith))
      ∙ window-splice_self typed 20 hi (omega (arith, typed-whole))

  low_field : window (new_entry short_name attr cluster) 26 2 ≡ lo
  unfolding new_entry
  low_field = window-splice_self high 26 lo (omega (arith, high-whole))

  pub size_field : window (new_entry short_name attr cluster) 28 4 ≡ replicate 4 0
  size_field =
      behind_low 28 4 (inr (omega arith))
      ∙ behind_high 28 4 (inr (omega arith))
      ∙ behind_attr 28 4 (inr (omega arith))
      ∙ window-splice_apart zeros 0 short_name 28 4 (omega arith) (inr (omega arith))
      ∙ (unfold window in refl)

  -- The new entry parses as the short entry with these fields.
  pub dir_of-new_entry : dir_of (new_entry short_name attr cluster) ≡ record {
    name = short_name;
    attr = attr;
    first_cluster_high = cluster / 2 ^ 16 % 2 ^ 16;
    first_cluster_low = cluster % 2 ^ 16;
    size = 0;
  }
  dir_of-new_entry =
      rw (name_field, attr_field, high_field, low_field, size_field)
        (ground (arith, bit_and-low 16 cluster))

  pub first_cluster-new_entry :
      cluster < 2 ^ 32 → first_cluster (dir_of (new_entry short_name attr cluster)) ≡ cluster
  unfolding first_cluster
  first_cluster-new_entry small =
      ap first_cluster dir_of-new_entry
      ∙ bit_or-fields 16 (cluster / 2 ^ 16 % 2 ^ 16) (cluster % 2 ^ 16) (omega arith)
      ∙ omega arith

  pub first_byte-new_entry : get_or (new_entry short_name attr cluster) 0 0 ≡ get_or short_name 0 0
  first_byte-new_entry =
      get_or-window (new_entry short_name attr cluster) 0 11 0 0 0 (omega arith) (omega arith)
      ∙ ap (λ (w : List ℕ). get_or w 0 0) name_field

  pub new_entry-IsByte :
      All IsByte short_name → IsByte attr → All IsByte (new_entry short_name attr cluster)
  unfolding new_entry
  new_entry-IsByte h k =
      All-splice IsByte high 26 lo
        (All-splice IsByte typed 20 hi
          (All-splice IsByte named 11 (attr ∷ [])
            (All-splice IsByte zeros 0 short_name (All-replicate IsByte 32 0 (omega arith)) h)
            (k, tt))
          (to_le_bytes-IsByte 2 _))
        (to_le_bytes-IsByte 2 _)
