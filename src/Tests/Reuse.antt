-- ===== src/Tests/Reuse.antt =====
-- The theorems on requests that make a cache, and on slabs that become free, at concrete inputs.
use fat32_reimplementation.Base.{
  ◌+◌, ◌*◌, ◌≡◌, ◌≤◌, ℕ, refl, inl, inr, [], ◌∷◌, replicate, some, arith, done,
}
use fat32_reimplementation.Allocator.{Layout}
use fat32_reimplementation.Allocator.Memory.{Memory}
use fat32_reimplementation.Allocator.Nodes.Ring.{Ring}
use fat32_reimplementation.Allocator.Nodes.Moving.{AreApart}
use fat32_reimplementation.Allocator.Pages.{PageAllocator}
use fat32_reimplementation.Allocator.Slab.{
  SlabAllocator, alloc, dealloc, class_index, trailing_zeros, slabs_free, slabs_partial, num,
}
use fat32_reimplementation.Allocator.Slab.Objects.{IsSlab}
use fat32_reimplementation.Allocator.Slab.First.{IsServed, with_cache}
use fat32_reimplementation.Allocator.Slab.Leaving.{IsPaged, dealloc-last}
use fat32_reimplementation.Allocator.Slab.Sharing.{alloc_overlaps}
use fat32_reimplementation.Allocator.Slab.Cycle.{reuse, alloc-reused}
use fat32_reimplementation.Tests.Slabs.{
  low_addresses, low_addresses-IsCanonical, partial, partial-IsSlab, placed, allocator, kilobyte,
  class_of_1024,
}

abbrev heap : PageAllocator
heap = record { next = 65536; end = 1048576 }

abbrev fresh : SlabAllocator
fresh = record { page_alloc = some heap; node_caches = replicate 9 0 }

abbrev words : Layout
words = record { size = 48; align = 8 }

class_of_48 : class_index 48 ≡ 1
unfolding class_index trailing_zeros
class_of_48 = refl

alloc-reused_example :
    (base size : ℕ) × (m1 : Memory) × (alloc low_addresses fresh words (λ a. 0)
      ≡ done (base, with_cache fresh heap (class_index 48), m1))
    × (48 ≤ size)
    × ((count : ℕ)
        → (m' : Memory) × (reuse low_addresses words count base
              (with_cache fresh heap (class_index 48))
              m1
            ≡ done (base, with_cache fresh heap (class_index 48), m'))
          × IsServed m' 65536 69632 base size)
alloc-reused_example =
    alloc-reused low_addresses low_addresses-IsCanonical fresh words heap (λ a. 0) refl refl
      (omega arith) (omega arith) (omega arith) (omega arith) (omega arith) (rw class_of_48 refl)

abbrev octet : Layout
octet = record { size = 8; align = 8 }

abbrev thousand : Layout
thousand = record { size = 1000; align = 8 }

alloc_overlaps_example :
    (first second third : ℕ) × (allocator' : SlabAllocator) × (m1 m2 m3 : Memory) × (alloc
        low_addresses fresh octet
        (λ a. 0)
      ≡ done (first, allocator', m1))
    × (alloc low_addresses allocator' thousand m1 ≡ done (second, allocator', m2))
    × (alloc low_addresses allocator' octet m2 ≡ done (third, allocator', m3))
    × (second ≡ first + 8)
    × (third ≡ second + 8)
    × (third + 8 ≤ second + 1000)
alloc_overlaps_example =
    alloc_overlaps low_addresses low_addresses-IsCanonical fresh octet thousand heap (λ a. 0) refl
      refl (omega arith) (omega arith) (omega arith) refl refl (omega arith) (omega arith) refl

partial-IsPaged : IsPaged 8192 8248 1024 3
partial-IsPaged = record {
  aligned = refl;
  low = omega arith;
  high = omega arith;
  from = omega arith;
  to = omega arith;
  wide = omega arith;
}

free-AreApart : AreApart 4112 8192 [] 4128 []
free-AreApart = record {
  first_list = ((inl (omega arith), tt), (tt, tt));
  second_list = (tt, tt);
  between = ((inr (omega arith), (inl (omega arith), tt)), tt);
}

dealloc-last_example :
    (m' : Memory) × (dealloc low_addresses allocator (8248 + 0 * 1024) kilobyte partial
      ≡ done (allocator, m'))
    × IsSlab m' 8192 4096 8248 1024 3 (0 ∷ 1 ∷ 2 ∷ [])
    × Ring m' (slabs_partial 4096) []
    × Ring m' (slabs_free 4096) (8192 ∷ [])
    × (m' (num 4096) ≡ 3)
dealloc-last_example =
    dealloc-last low_addresses allocator kilobyte 4096 8192 8248 1024 3 0 (1 ∷ 2 ∷ []) [] [] partial
      (omega arith) (omega arith) (rw class_of_1024 refl) (omega arith) placed refl partial-IsPaged
      free-AreApart tt tt ((refl, refl), (refl, refl)) (refl, refl) partial-IsSlab (omega arith)
      refl (omega arith) (omega arith, (omega arith, tt))
