-- ===== src/FileSystem/Directories/Fresh.antt =====
-- `init_directory_cluster` and the bytes of a new directory.
use fat32_reimplementation.Base.{
  ℕ, ◌+◌, ◌*◌, ◌/◌, ◌%◌, ◌^◌, ◌≤◌, ◌<◌, ◌≡◌, refl, ◌∙◌, List, [], ◌∷◌, length, replicate,
  length-replicate, All, All-replicate, ◌==◌, if◌then◌else◌, ◌>>=◌, done, bind-done, arith, lt→ltb,
}
use fat32_reimplementation.Base.Windows.{copy_at, splice, copy_at-splice, length-splice, All-splice}
use fat32_reimplementation.Base.Words.{
  IsByte, to_le_bytes, to_le_bytes-IsByte, length-to_le_bytes, mul_u32,
}
use fat32_reimplementation.FileSystem.{
  Fat32FileSystem, IsVolume, InData, cluster_offset, cluster_size,
}
use fat32_reimplementation.FileSystem.Sectors.{start_sector}
use fat32_reimplementation.FileSystem.Sectors.Reading.{start_sector-done, first_sector}
use fat32_reimplementation.FileSystem.Directories.{init_directory_cluster}

-- Bytes, as many as a cluster holds.
abbrev pub Fills : ℕ → List ℕ → Type 0
Fills size bytes = (length bytes ≡ size) × All IsByte bytes

-- A copy inside such bytes succeeds and keeps them so.
copied :
    (size : ℕ) (bytes : List ℕ) (lo : ℕ) (new : List ℕ)
    → Fills size bytes
    → lo + length new ≤ size
    → All IsByte new
    → (copy_at bytes lo new ≡ done (splice bytes lo new)) × Fills size (splice bytes lo new)
copied size bytes lo new fills room whole =
    let inside : lo + length new ≤ length bytes = omega (arith, fills.0) in
    (
      copy_at-splice bytes lo new inside,
      (length-splice bytes lo new inside ∙ fills.0, All-splice IsByte bytes lo new fills.1 whole),
    )

word_copied :
    (size : ℕ) (bytes : List ℕ) (lo n : ℕ)
    → Fills size bytes
    → lo + 2 ≤ size
    → (copy_at bytes lo (to_le_bytes 2 n) ≡ done (splice bytes lo (to_le_bytes 2 n)))
      × Fills size (splice bytes lo (to_le_bytes 2 n))
word_copied size bytes lo n fills room =
    copied size bytes lo (to_le_bytes 2 n) fills (omega (arith, length-to_le_bytes 2 n))
      (to_le_bytes-IsByte 2 n)

mul_u32-done : (a b : ℕ) → a * b < 2 ^ 32 → mul_u32 a b ≡ done (a * b)
mul_u32-done a b small = rw (lt→ltb (a * b) (2 ^ 32) small) refl

put_cluster :
    {fs : Fat32FileSystem} (v : IsVolume fs) (c : ℕ)
    → InData fs c
    → (bytes : List ℕ) → length bytes ≡ cluster_size fs
    → (do
      start ← start_sector fs c
      offset_in_disk ← mul_u32 start fs.bytes_per_sector
      disk ← copy_at fs.disk offset_in_disk bytes
      done (record fs { disk = disk }))
      ≡ done (record fs { disk = splice fs.disk (cluster_offset fs c) bytes })
put_cluster {fs} v c inside bytes whole = bind-done _ (start_sector-done v c inside) (
    bind-done _
      (mul_u32-done (first_sector v c inside) fs.bytes_per_sector
        (omega (arith, inside.1, v.addressable, whole)))
      (bind-done _
        (copy_at-splice fs.disk (cluster_offset fs c) bytes (omega (arith, inside.1, whole))) refl))

-- The bytes of a new directory: `.` and `..`, and nothing behind them.
module _ (size c parent_val : ℕ) where
  abbrev dot_bytes : List ℕ
  dot_bytes = splice (splice (replicate size 0) 0 (b'.' ∷ replicate 10 b' ')) 11 (0x10 ∷ [])

  abbrev dot_cluster : List ℕ
  dot_cluster =
      splice (splice dot_bytes 20 (to_le_bytes 2 (c / 2 ^ 16 % 2 ^ 16))) 26
        (to_le_bytes 2 (c % 2 ^ 16))

  abbrev dot_dot_bytes : List ℕ
  dot_dot_bytes = splice (splice dot_cluster 32 (b'.' ∷ b'.' ∷ replicate 9 b' ')) 43 (0x10 ∷ [])

  abbrev pub directory_bytes : List ℕ
  directory_bytes =
      splice (splice dot_dot_bytes 52 (to_le_bytes 2 (parent_val / 2 ^ 16 % 2 ^ 16))) 58
        (to_le_bytes 2 (parent_val % 2 ^ 16))

-- The cluster that `..` records: 0 for the root.
abbrev pub recorded_parent : Fat32FileSystem → ℕ → ℕ
recorded_parent fs parent = if parent == fs.root_cluster then 0 else parent

-- On a volume with clusters of 64 bytes at least, `init_directory_cluster` of a cluster inside the
-- image succeeds, and replaces the bytes of that cluster and nothing else by those of a directory
-- with `.` for the cluster and `..` for the parent, 0 if the parent is the root, filled with zeros.
pub init_directory_cluster-splice :
    {fs : Fat32FileSystem}
    → IsVolume fs
    → (c parent : ℕ) → InData fs c
    → 64 ≤ cluster_size fs
    → Fills (cluster_size fs) (directory_bytes (cluster_size fs) c (recorded_parent fs parent))
      × (init_directory_cluster fs c parent
          ≡ done (record fs {
            disk =
                splice fs.disk
                  (cluster_offset fs c)
                  (directory_bytes (cluster_size fs) c (recorded_parent fs parent));
          }))
unfolding init_directory_cluster
init_directory_cluster-splice {fs} v c parent inside large =
    let size = cluster_size fs in
    let parent_val = recorded_parent fs parent in
    let blank = replicate {A = ℕ} size 0 in
    let name = b'.' ∷ replicate {A = ℕ} 10 b' ' in
    let name2 = b'.' ∷ b'.' ∷ replicate {A = ℕ} 9 b' ' in
    let d1 = splice blank 0 name in
    let d2 = dot_bytes size c parent_val in
    let d3 = splice d2 20 (to_le_bytes 2 (c / 2 ^ 16 % 2 ^ 16)) in
    let d4 = dot_cluster size c parent_val in
    let d5 = splice d4 32 name2 in
    let d6 = dot_dot_bytes size c parent_val in
    let d7 = splice d6 52 (to_le_bytes 2 (parent_val / 2 ^ 16 % 2 ^ 16)) in
    let (e1, f1) =
      copied size blank 0 name
        (length-replicate {A = ℕ} size 0, All-replicate IsByte size 0 (omega arith)) (omega arith)
        (omega arith, All-replicate IsByte 10 b' ' (omega arith)) in
    let (e2, f2) = copied size d1 11 (0x10 ∷ []) f1 (omega arith) (omega arith, tt) in
    let (e3, f3) = word_copied size d2 20 (c / 2 ^ 16 % 2 ^ 16) f2 (omega arith) in
    let (e4, f4) = word_copied size d3 26 (c % 2 ^ 16) f3 (omega arith) in
    let (e5, f5) =
      copied size d4 32 name2 f4 (omega arith)
        (omega arith, (omega arith, All-replicate IsByte 9 b' ' (omega arith))) in
    let (e6, f6) = copied size d5 43 (0x10 ∷ []) f5 (omega arith) (omega arith, tt) in
    let (e7, f7) = word_copied size d6 52 (parent_val / 2 ^ 16 % 2 ^ 16) f6 (omega arith) in
    let (e8, f8) = word_copied size d7 58 (parent_val % 2 ^ 16) f7 (omega arith) in
    (
      f8,
      bind-done _
          (mul_u32-done fs.sectors_per_cluster fs.bytes_per_sector
            (omega (arith, inside.1, v.addressable)))
          (bind-done _ e1 (
            bind-done _ e2 (
              bind-done _ e3 (
                bind-done _ e4 (
                  bind-done _ e5 (
                    bind-done _ e6 (
                      bind-done _ e7 (
                        bind-done _ e8
                          (put_cluster v c inside (directory_bytes size c parent_val) f8.0))))))))),
    )
