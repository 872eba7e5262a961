-- ===== src/FileSystem/Table/Allocation.antt =====
-- `allocate_cluster` and the free entries of the FAT.
use native.Mathlib.Nat.{le_refl}
use native.Mathlib.Decide.{dec_lt}
use fat32_reimplementation.Base.{
  ℕ, zero, suc, ◌+◌, ◌≤◌, ◌<◌, ◌≡◌, ◌≢◌, refl, arith, done, ok, err, ◌∙◌,
}
use fat32_reimplementation.FileSystem.{Fat32FileSystem, IsVolume, InTable}
use fat32_reimplementation.FileSystem.Table.{find_free, allocate_cluster, table_entry, set_entry}
use fat32_reimplementation.FileSystem.Table.Entries.{
  read_fat_entry-table_entry, write_fat_entry-set_entry,
}

-- Every cluster from `i` up to `n`, `n` left out, has a nonzero entry inside the FAT.
abbrev pub Taken : Fat32FileSystem → ℕ → ℕ → Type 0
Taken fs i n = (k : ℕ) → i ≤ k → k < n → InTable fs k × (table_entry fs k ≢ 0)

module _ {fs : Fat32FileSystem} (v : IsVolume fs) where
  find_free-free :
      (left i : ℕ)
      → InTable fs i
      → table_entry fs i ≡ 0
      → find_free (suc left) fs i ≡ done (ok i, set_entry fs i 0x0FFF_FFFF)
  unfolding find_free
  find_free-free left i inside free =
      rw (read_fat_entry-table_entry v i inside)
        (rw free (rw (write_fat_entry-set_entry v i inside 0x0FFF_FFFF) refl))

  find_free-taken :
      (left i : ℕ)
      → InTable fs i
      → table_entry fs i ≢ 0
      → find_free (suc left) fs i ≡ find_free left fs (i + 1)
  unfolding find_free
  find_free-taken left i inside used = rw (read_fat_entry-table_entry v i inside) (ground arith)

  find_free-first :
      (left i n : ℕ)
      → i ≤ n
      → n < i + left
      → Taken fs i n
      → InTable fs n
      → table_entry fs n ≡ 0
      → find_free left fs i ≡ done (ok n, set_entry fs n 0x0FFF_FFFF)
  find_free-first zero i n lo hi taken inside free = absurd (omega arith)
  find_free-first (suc left) i n lo hi taken inside free = elim (dec_lt i n) [
    | yes p ↦
        let here = taken i (le_refl i) p in
        find_free-taken left i here.0 here.1
        ∙ find_free-first left (i + 1) n (omega arith) (omega arith)
            (λ k a b. taken k (omega arith) b) inside free
    | no p ↦ let e : i ≡ n = omega arith in rw e (find_free-free left n inside free)
  ]

  find_free-full :
      (left i n : ℕ)
      → i + left ≡ n
      → Taken fs i n
      → find_free left fs i ≡ done (err "Disk full", fs)
  find_free-full zero i n e taken = unfold find_free in refl
  find_free-full (suc left) i n e taken =
      let here = taken i (le_refl i) (omega arith) in
      find_free-taken left i here.0 here.1
      ∙ find_free-full left (i + 1) n (omega arith) (λ k a b. taken k (omega arith) b)

  -- On a volume, if cluster `n` is below 50000 and the first from 2 on with a free entry, and these
  -- entries lie inside the FAT, `allocate_cluster` returns `n` and marks its entry as the end of a chain; the
  -- volume is otherwise unchanged.
  pub allocate_cluster-first :
      (n : ℕ)
      → 2 ≤ n
      → n < 50000
      → Taken fs 2 n
      → InTable fs n
      → table_entry fs n ≡ 0
      → allocate_cluster fs ≡ done (ok n, set_entry fs n 0x0FFF_FFFF)
  unfolding allocate_cluster
  allocate_cluster-first n lo hi = find_free-first 49998 2 n lo hi

  -- If the clusters from 2 to 49999 all have entries in use inside the FAT, `allocate_cluster`
  -- fails with "Disk full" and changes nothing.
  pub allocate_cluster-full : Taken fs 2 50000 → allocate_cluster fs ≡ done (err "Disk full", fs)
  unfolding allocate_cluster
  allocate_cluster-full taken = find_free-full 49998 2 50000 (omega arith) taken
