-- ===== src/Tests/Slabs.antt =====
-- The theorems on the slab allocator at concrete inputs.
use fat32_reimplementation.Base.{
  ◌+◌, ◌*◌, ◌≡◌, refl, inl, inr, [], ◌∷◌, ◌++◌, replicate, none, arith, done, ◌>>=◌,
}
use fat32_reimplementation.Allocator.{Layout}
use fat32_reimplementation.Allocator.Memory.{Memory, store}
use fat32_reimplementation.Allocator.Nodes as Nodes
use fat32_reimplementation.Allocator.Nodes.{list_add, list_del}
use fat32_reimplementation.Allocator.Nodes.Ring.{Ring}
use fat32_reimplementation.Allocator.Pages.{VirtAddrs, IsCanonical}
use fat32_reimplementation.Allocator.Slab.{
  SlabAllocator, alloc, dealloc, class_index, trailing_zeros, slabs_free, slabs_full, slabs_partial,
}
use fat32_reimplementation.Allocator.Slab.Objects.{IsSlab, IsPlaced}
use fat32_reimplementation.Allocator.Nodes.Moving.{AreApart}
use fat32_reimplementation.Allocator.Slab.Full.{alloc-full}
use fat32_reimplementation.Allocator.Slab.Leaving.{dealloc-full}
use fat32_reimplementation.Allocator.Slab.Caches.{alloc-dealloc}

abbrev blank_memory : Memory
blank_memory = Nodes.init 100 (λ a. 0)

abbrev pub low_addresses : VirtAddrs
low_addresses = record { new = λ a. done a; plus = λ a b. done (a + b) }

pub low_addresses-IsCanonical : IsCanonical low_addresses
low_addresses-IsCanonical = record { new_low = λ a h. refl; plus_low = λ a b h. refl }

-- A cache at 4096 for objects of 1024 bytes, three to a slab.
abbrev pub cached : Memory
cached = store (store (store (store (λ a. 0) 4144 1024) 4152 3) 4128 4128) 4136 4128

cached-Ring : Ring cached (slabs_free 4096) []
cached-Ring = (refl, refl)

pub placed : IsPlaced 8192 4096 3
placed = record { table = omega arith; elsewhere = inl (omega arith) }

-- A partial slab of it at 8192, whose object 0 is in use.
abbrev pub listed : Memory
listed = store (store (store (store cached 4112 8192) 4120 8192) 8192 4112) 8200 4112

abbrev pub partial : Memory
partial =
    store (store (store (store (store listed 8208 8248) 8216 1) 8224 1) 8236 2) 8240 0xFFFF_FFFF

pub partial-IsSlab : IsSlab partial 8192 4096 8248 1024 3 (1 ∷ 2 ∷ [])
partial-IsSlab = record {
  chain = (refl, (refl, refl));
  distinct = ((omega arith, tt), (tt, tt));
  known = (omega arith, (omega arith, tt));
  counted = refl;
  based = refl;
  sized = refl;
}

abbrev pub allocator : SlabAllocator
allocator = record { page_alloc = none; node_caches = 4096 ∷ (replicate 6 0 ++ (4096 ∷ 0 ∷ [])) }

pub class_of_1024 : class_index 1024 ≡ 7
unfolding class_index trailing_zeros
class_of_1024 = refl

abbrev pub kilobyte : Layout
kilobyte = record { size = 1024; align = 8 }

alloc-dealloc_example :
    (m' : Memory) × ((alloc low_addresses allocator kilobyte partial >>= λ (ptr, allocator', m1).
    dealloc low_addresses allocator' ptr kilobyte m1)
      ≡ done (allocator, m'))
    × IsSlab m' 8192 4096 8248 1024 3 (1 ∷ 2 ∷ [])
alloc-dealloc_example =
    alloc-dealloc low_addresses allocator kilobyte 4096 8192 8248 1024 3 1 2 [] [] partial
      (omega arith) (omega arith) (rw class_of_1024 refl) (omega arith) placed refl
      ((refl, refl), (refl, refl)) partial-IsSlab refl (omega arith) (omega arith) (omega arith)
      (omega arith) (omega arith) (omega arith)

-- The slab with object 2 free only, and an empty list of full slabs.
abbrev nearly_full : Memory
nearly_full = store (store (store (store partial 8216 2) 8224 2) 4096 4096) 4104 4096

nearly_full-IsSlab : IsSlab nearly_full 8192 4096 8248 1024 3 (2 ∷ [])
nearly_full-IsSlab = record {
  chain = (refl, refl);
  distinct = (tt, tt);
  known = (omega arith, tt);
  counted = refl;
  based = refl;
  sized = refl;
}

heads-AreApart : AreApart 4112 8192 [] 4096 []
heads-AreApart = record {
  first_list = ((inl (omega arith), tt), (tt, tt));
  second_list = (tt, tt);
  between = ((inl (omega arith), (inl (omega arith), tt)), tt);
}

alloc-full_example :
    (m' : Memory) × (alloc low_addresses allocator kilobyte nearly_full
      ≡ done (8248 + 2 * 1024, allocator, m'))
    × IsSlab m' 8192 4096 8248 1024 3 []
    × Ring m' (slabs_partial 4096) []
    × Ring m' (slabs_full 4096) (8192 ∷ [])
alloc-full_example =
    alloc-full low_addresses allocator kilobyte 4096 8192 8248 1024 3 2 [] [] nearly_full
      (omega arith) (omega arith) (rw class_of_1024 refl) (omega arith) placed refl heads-AreApart
      tt tt ((refl, refl), (refl, refl)) (refl, refl) nearly_full-IsSlab

-- The slab without a free object, first among the full slabs, and no partial slab.
abbrev full_list : Memory
full_list = store (store (store (store cached 4096 8192) 4104 8192) 8192 4096) 8200 4096

abbrev full_memory : Memory
full_memory =
    store (store (store (store (store full_list 4112 4112) 4120 4112) 8208 8248) 8216 0xFFFF_FFFF)
      8224 3

full_memory-IsSlab : IsSlab full_memory 8192 4096 8248 1024 3 []
full_memory-IsSlab = record {
  chain = refl;
  distinct = tt;
  known = tt;
  counted = refl;
  based = refl;
  sized = refl;
}

full-AreApart : AreApart 4096 8192 [] 4112 []
full-AreApart = record {
  first_list = ((inl (omega arith), tt), (tt, tt));
  second_list = (tt, tt);
  between = ((inr (omega arith), (inl (omega arith), tt)), tt);
}

dealloc-full_example :
    (m' : Memory) × (dealloc low_addresses allocator (8248 + 1 * 1024) kilobyte full_memory
      ≡ done (allocator, m'))
    × IsSlab m' 8192 4096 8248 1024 3 (1 ∷ [])
    × Ring m' (slabs_full 4096) []
    × Ring m' (slabs_partial 4096) (8192 ∷ [])
dealloc-full_example =
    dealloc-full low_addresses allocator kilobyte 4096 8192 8248 1024 3 1 [] [] full_memory
      (omega arith) (omega arith) (rw class_of_1024 refl) (omega arith) placed refl full-AreApart tt
      tt ((refl, refl), (refl, refl)) (refl, refl) full_memory-IsSlab refl (omega arith)
      (omega arith) (omega arith) (omega arith) (omega arith) (omega arith)
