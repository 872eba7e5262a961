-- ===== src/Tests/Kernel.antt =====
-- The theorems on frames, the heap, the block lists and the screen at concrete inputs.
use native.Mathlib.Decide.{ℕ_discrete}
use fat32_reimplementation.Base.{
  ℕ, suc, ◌+◌, ◌-◌, ◌%◌, ◌^◌, ◌≤◌, ◌≡◌, ◌⊎◌, inl, inr, refl, sym, ◌∙◌, ap, List, [], ◌∷◌, ◌++◌, All,
  length, replicate, Option, some, none, arith, done, ◌>>=◌, Bool, true, false, ◌==◌, if◌then◌else◌,
  ==-eq, ne→==,
}
use fat32_reimplementation.Allocator.{Layout}
use fat32_reimplementation.Allocator.Memory.{Memory}
use fat32_reimplementation.Allocator.Slab.{SlabAllocator}
use fat32_reimplementation.Allocator.Slab as Slab
use fat32_reimplementation.Allocator.Heap.{Paging, heap_start, heap_size, init_heap}
use fat32_reimplementation.Allocator.Heap.Mapping.{IsPaging, init_heap-IsMapped}
use fat32_reimplementation.Allocator.FixedSizeBlock.{
  FirstFit, FixedSizeBlockAllocator, list_index, position, alloc, dealloc,
}
use fat32_reimplementation.Allocator.FixedSizeBlock.Blocks.{Holds, dealloc-alloc}
use fat32_reimplementation.Frames.{Boot, IsPhysical, usable_addresses, step_by, allocate_frame}
use fat32_reimplementation.Frames.Ascending.{IsOrdered}
use fat32_reimplementation.Frames.Usable.{allocate_frame-apart, allocate_frame-reached}
use fat32_reimplementation.Vga.{Writer, write_string, buffer_height}
use fat32_reimplementation.Vga.Lines.{write_string-line}
use fat32_reimplementation.Tests.Slabs.{low_addresses, low_addresses-IsCanonical}

-- A memory map: a start, an end, and whether the region is usable.
abbrev boot : Boot
boot = record {
  MemoryRegion = ℕ × ℕ × Bool;
  PhysFrame = ℕ;
  is_usable = λ r. r.2;
  start_addr = λ r. r.0;
  end_addr = λ r. r.1;
  phys_addr = λ a. done a;
  containing_address = λ a. a;
}

boot-IsPhysical : IsPhysical boot
boot-IsPhysical = record { phys_addr_low = λ a h. refl }

abbrev regions : List (ℕ × ℕ × Bool)
regions = (0, 4096, false) ∷ (4096, 12288, true) ∷ (16384, 20480, true) ∷ []

regions-IsOrdered : IsOrdered boot 0 regions
regions-IsOrdered = (
  refl,
  refl,
  omega arith,
  omega arith,
  omega arith,
  (
    refl,
    refl,
    omega arith,
    omega arith,
    omega arith,
    (refl, refl, omega arith, omega arith, omega arith, tt),
  ),
)

three_pages : length (usable_addresses boot regions) ≡ 3
unfolding usable_addresses step_by
three_pages = refl

allocate_frame-apart_example :
    (a b : ℕ) × (allocate_frame boot (record { memory_map = regions; next = 0 })
      ≡ done (some a, record { memory_map = regions; next = 1 }))
    × (allocate_frame boot (record { memory_map = regions; next = 2 })
        ≡ done (some b, record { memory_map = regions; next = 3 }))
    × (a % 4096 ≡ 0)
    × (b % 4096 ≡ 0)
    × (a + 4096 ≤ b)
    × (b + 4096 ≤ 2 ^ 52)
allocate_frame-apart_example =
    allocate_frame-apart boot regions 0 2 boot-IsPhysical regions-IsOrdered (omega arith)
      (omega (arith, three_pages)) (omega arith)

allocate_frame-reached_example :
    (n : ℕ) × (allocate_frame boot (record { memory_map = regions; next = n })
      ≡ done (some 8192, record { memory_map = regions; next = n + 1 }))
allocate_frame-reached_example =
    allocate_frame-reached boot regions 1 1 (4096, 12288, true) boot-IsPhysical regions-IsOrdered
      refl refl (omega arith)

-- Pages are looked up in a function; a page that is mapped is an error.
abbrev put_page : (ℕ → Option ℕ) → ℕ → ℕ → ℕ → Option ℕ
put_page mapper page frame p = if p == page then some frame else mapper p

abbrev map_free : Option ℕ → (ℕ → Option ℕ) → ℕ → ℕ → ℕ → (Unit {0} ⊎ Unit {0}) × (ℕ → Option ℕ) × ℕ
map_free none mapper page frame frames = (inr tt, put_page mapper page frame, frames)
map_free (some g) mapper page frame frames = (inl tt, mapper, frames)

abbrev paging : Paging
paging = record {
  PhysFrame = ℕ;
  Mapper = ℕ → Option ℕ;
  FrameAllocator = ℕ;
  MapToError = Unit {0};
  frame_allocation_failed = tt;
  minus = λ a b. done (a - b);
  page_range = λ start stop. start ∷ (start + 4096) ∷ [];
  allocate_frame = λ n. (some n, suc n);
  map_to = λ mapper page frame frames. map_free (mapper page) mapper page frame frames;
}

abbrev looked_up : (ℕ → Option ℕ) → ℕ → Option ℕ
looked_up mapper page = mapper page

free_maps :
    (o : Option ℕ) (mapper mapper' : ℕ → Option ℕ) (page frame frames frames' : ℕ)
    → map_free o mapper page frame frames ≡ (inr tt, mapper', frames')
    → (o ≡ none) × (mapper' ≡ put_page mapper page frame)
free_maps none mapper mapper' page frame frames frames' e =
    (refl, ap (λ (run : (Unit {0} ⊎ Unit {0}) × (ℕ → Option ℕ) × ℕ). run.1) (sym e))
free_maps (some g) mapper mapper' page frame frames frames' e = absurd (ground arith)

put_page_self :
    (mapper mapper' : ℕ → Option ℕ) (page frame : ℕ)
    → mapper' ≡ put_page mapper page frame
    → mapper' page ≡ some frame
put_page_self mapper mapper' page frame e =
    ap (λ (f : ℕ → Option ℕ). f page) e ∙ rw (==-eq page page refl) refl

put_page-kept :
    (mapper mapper' : ℕ → Option ℕ) (page other frame g : ℕ)
    → (mapper page ≡ none) × (mapper' ≡ put_page mapper page frame)
    → mapper other ≡ some g
    → mapper' other ≡ some g
put_page-kept mapper mapper' page other frame g (free, e) at = elim (ℕ_discrete other page) [
  | yes same ↦
      let both : mapper other ≡ none = ap mapper same ∙ free in absurd (ground (arith, both, at))
  | no ne ↦ ap (λ (f : ℕ → Option ℕ). f other) e ∙ (rw (ne→== other page ne) at)
]

paging-IsPaging : IsPaging paging looked_up
paging-IsPaging = record {
  minus_low = λ a b le h. refl;
  map_to_maps = λ mapper mapper' page frame frames frames' e.
      put_page_self mapper mapper' page frame
        (free_maps (mapper page) mapper mapper' page frame frames frames' e).1;
  map_to_keeps = λ mapper mapper' page other frame g frames frames' e at.
      put_page-kept mapper mapper' page other frame g
        (free_maps (mapper page) mapper mapper' page frame frames frames' e) at;
}

abbrev unmapped : ℕ → Option ℕ
unmapped page = none

init_heap-IsMapped_example :
    ((e : Unit {0}) × (mapper' : ℕ → Option ℕ) × (frames' : ℕ) × (init_heap paging low_addresses
          Slab.new unmapped 7
        ≡ done (inl e, Slab.new, mapper', frames')))
    ⊎ ((mapper' : ℕ → Option ℕ) × (frames' : ℕ) × (init_heap paging low_addresses Slab.new unmapped
            7
          ≡ done (
            inr tt,
            record Slab.new {
              page_alloc = some (record { next = heap_start; end = heap_start + heap_size });
            },
            mapper',
            frames',
          ))
        × All
            (λ page. (frame : ℕ) × (mapper' page ≡ some frame))
            (heap_start ∷ (heap_start + 4096) ∷ [])
        × ((page : ℕ)
            → ((frame : ℕ) × (unmapped page ≡ some frame))
            → (frame : ℕ) × (mapper' page ≡ some frame)))
init_heap-IsMapped_example =
    init_heap-IsMapped paging looked_up paging-IsPaging low_addresses Slab.new unmapped 7
      low_addresses-IsCanonical

-- A fallback allocator without room.
abbrev no_room : FirstFit
no_room = record {
  Heap = ℕ;
  empty = 0;
  init = λ heap start size. done size;
  allocate_first_fit = λ heap layout. done (none, heap);
  deallocate = λ heap ptr layout. done heap;
}

abbrev sixteen : Layout
sixteen = record { size = 12; align = 8 }

abbrev thirty : Layout
thirty = record { size = 16; align = 16 }

index_of_sixteen : list_index sixteen ≡ some 1
unfolding list_index position
index_of_sixteen = refl

index_of_thirty : list_index thirty ≡ some 1
unfolding list_index position
index_of_thirty = refl

abbrev block_heads : FixedSizeBlockAllocator no_room
block_heads = record { list_heads = 0 ∷ 320 ∷ replicate 7 0; fallback_allocator = 0 }

abbrev block_memory : Memory
block_memory = λ a. 0

one_block : Holds block_heads.list_heads block_memory 1 (320 ∷ [])
one_block = record { head = 320; known = refl; linked = (refl, omega arith, refl) }

dealloc-alloc_example :
    (heads : List ℕ) × (m' : Memory) × ((dealloc no_room block_heads 640 sixteen block_memory
        >>= λ (allocator', m1). alloc no_room allocator' thirty m1)
      ≡ done (640, record block_heads { list_heads = heads }, m'))
    × Holds heads m' 1 (320 ∷ [])
dealloc-alloc_example =
    dealloc-alloc no_room block_heads sixteen thirty block_memory 1 640 (320 ∷ []) index_of_sixteen
      index_of_thirty (omega arith) (omega arith, tt) one_block

abbrev writer : Writer
writer = record {
  column_position = 70;
  color_code = 14;
  chars = λ r c. record { ascii_character = r; color_code = c };
}

write_string-line_example :
    ((write_string writer (b'\n' ∷ ((b'o' ∷ b'k' ∷ []) ++ b'\n' ∷ []))).chars (buffer_height - 2) 1
      ≡ record { ascii_character = b'k'; color_code = 14 })
    × ((write_string writer (b'\n' ∷ ((b'o' ∷ b'k' ∷ []) ++ b'\n' ∷ []))).column_position ≡ 0)
write_string-line_example =
    write_string-line writer (b'o' ∷ b'k' ∷ []) 1 b'k'
      ((omega arith, omega arith), ((omega arith, omega arith), tt)) (omega arith) refl
