-- ===== src/FileSystem/Files/Replacing.antt =====
-- Replacing bytes of a cluster, and what stays as it was.
use native.Mathlib.Decide.{dec_lt}
use fat32_reimplementation.Base.{
  ℕ, ◌+◌, ◌-◌, ◌*◌, ◌≤◌, ◌<◌, ◌≡◌, ◌≢◌, ◌⊎◌, inl, inr, refl, List, All, length, arith, [], ◌∷◌,
  take, take-append, drop, some, done, bind-done, bytes_eq, Bool-cases,
}
use fat32_reimplementation.Base.Windows.{
  splice, length-splice, window-splice_inside, window-splice_apart, All-splice, window,
  copy_at-splice,
}
use fat32_reimplementation.Base.Words.{IsByte, to_le_bytes}
use fat32_reimplementation.Base.Products.{mul_mono, mul_step}
use fat32_reimplementation.FileSystem.{
  Fat32FileSystem, IsVolume, InData, InTable, cluster_offset, cluster_size, entry_offset,
}
use fat32_reimplementation.FileSystem.Table.{table_entry}
use fat32_reimplementation.FileSystem.Table.Updates.{IsVolume-disk}
use fat32_reimplementation.FileSystem.Files.Chains.{cluster_bytes}
use fat32_reimplementation.FileSystem.Directories.Slots.{locate_slot-done, slot_room}
use fat32_reimplementation.FileSystem.Files.{named_slot, write_size}

clusters_ordered :
    (fs : Fat32FileSystem) (c d : ℕ)
    → 2 ≤ c
    → c < d
    → cluster_offset fs c + cluster_size fs ≤ cluster_offset fs d
clusters_ordered fs c d lo lt =
    let sectors = mul_step (c - 2) (d - 2) fs.sectors_per_cluster (omega arith) in
    let lo_sector = fs.data_sector + (c - 2) * fs.sectors_per_cluster in
    let hi_sector = fs.data_sector + (d - 2) * fs.sectors_per_cluster in
    omega (
      arith,
      mul_mono (lo_sector + fs.sectors_per_cluster) hi_sector fs.bytes_per_sector
          (omega (arith, sectors)),
    )

-- Two clusters share no byte.
clusters_apart :
    (fs : Fat32FileSystem) (c d : ℕ)
    → 2 ≤ c
    → 2 ≤ d
    → c ≢ d
    → (cluster_offset fs d + cluster_size fs ≤ cluster_offset fs c)
      ⊎ (cluster_offset fs c + cluster_size fs ≤ cluster_offset fs d)
clusters_apart fs c d lo lo' ne = elim (dec_lt c d) [
  | yes before ↦ inr (omega (arith, clusters_ordered fs c d lo before))
  | no behind ↦
      let lt : d < c = ground (arith, behind, ne) in
      inl (omega (arith, clusters_ordered fs d c lo' lt))
]

-- The volume with bytes of cluster `c` replaced, from offset `off` on.
abbrev pub with_bytes : Fat32FileSystem → ℕ → ℕ → List ℕ → Fat32FileSystem
with_bytes fs c off bytes = record fs { disk = splice fs.disk (cluster_offset fs c + off) bytes }

module _ {fs : Fat32FileSystem} (v : IsVolume fs) (c : ℕ) (inside : InData fs c) (off : ℕ)
    (bytes : List ℕ) (room : off + length bytes ≤ cluster_size fs) where
  in_image : cluster_offset fs c + off + length bytes ≤ length fs.disk
  in_image = omega (arith, inside.1, room)

  pub with_bytes-IsVolume : All IsByte bytes → IsVolume (with_bytes fs c off bytes)
  with_bytes-IsVolume h =
      IsVolume-disk (splice fs.disk (cluster_offset fs c + off) bytes) v
        (length-splice fs.disk (cluster_offset fs c + off) bytes in_image)
        (All-splice IsByte fs.disk (cluster_offset fs c + off) bytes v.bytes h)

  pub with_bytes-InData : (d : ℕ) → InData fs d → InData (with_bytes fs c off bytes) d
  with_bytes-InData d h =
      (h.0, omega (arith, h.1, length-splice fs.disk (cluster_offset fs c + off) bytes in_image))

  pub with_bytes-InTable : (k : ℕ) → InTable fs k → InTable (with_bytes fs c off bytes) k
  with_bytes-InTable k h =
      (h.0, omega (arith, h.1, length-splice fs.disk (cluster_offset fs c + off) bytes in_image))

  pub with_bytes_self :
      cluster_bytes (with_bytes fs c off bytes) c ≡ splice (cluster_bytes fs c) off bytes
  with_bytes_self =
      window-splice_inside fs.disk (cluster_offset fs c) (cluster_size fs) off bytes inside.1 room

  pub with_bytes-other :
      (d : ℕ) → 2 ≤ d → c ≢ d → cluster_bytes (with_bytes fs c off bytes) d ≡ cluster_bytes fs d
  with_bytes-other d lo ne =
      window-splice_apart fs.disk (cluster_offset fs c + off) bytes (cluster_offset fs d)
        (cluster_size fs) in_image
        (elim (clusters_apart fs c d inside.0 lo ne) [
          | inl below ↦ inl (omega (arith, below))
          | inr above ↦ inr (omega (arith, above, room))
        ])

  pub with_bytes-entry :
      (k : ℕ) → InTable fs k → table_entry (with_bytes fs c off bytes) k ≡ table_entry fs k
  unfolding table_entry
  with_bytes-entry k h =
      rw
        (window-splice_apart fs.disk (cluster_offset fs c + off) bytes (entry_offset fs k) 4
          in_image
          (inl (
            omega (
              arith,
              h.0,
              mul_mono fs.data_sector (fs.data_sector + (c - 2) * fs.sectors_per_cluster)
                  fs.bytes_per_sector (omega arith),
            ))))
        refl

pub named_slot-bounds :
    (name : List ℕ) (chunks : List (List ℕ)) (k j : ℕ)
    → named_slot name chunks k ≡ some j
    → j < k + length chunks
unfolding named_slot
named_slot-bounds name [] k j e = absurd (cc)
named_slot-bounds name (chunk ∷ chunks) k j e =
    elim (Bool-cases (bytes_eq (window chunk 0 11) name)) [
      | inl same ↦ ground arith
      | inr other ↦
          let next : named_slot name chunks (k + 1) ≡ some j = ground arith in
          omega (arith, named_slot-bounds name chunks (k + 1) j next)
    ]

pub take-splice : (xs ys : List ℕ) → take (length ys) (splice xs 0 ys) ≡ ys
unfolding splice
take-splice xs ys = take-append ys (drop (0 + length ys) xs)

pub write_size-with_bytes :
    {fs : Fat32FileSystem} (v : IsVolume fs) (c : ℕ) (inside : InData fs c) (idx size : ℕ)
    → idx * 32 + 28 + 4 ≤ cluster_size fs
    → write_size fs c idx size ≡ done (with_bytes fs c (idx * 32 + 28) (to_le_bytes 4 size))
unfolding write_size
write_size-with_bytes {fs} v c inside idx size room =
    bind-done _ (locate_slot-done v c inside (idx * 32 + 28) 4 room) (
      bind-done _
        (copy_at-splice fs.disk (cluster_offset fs c + (idx * 32 + 28)) (to_le_bytes 4 size)
          (omega (arith, slot_room v c inside (idx * 32 + 28) 4 room)))
        refl)
