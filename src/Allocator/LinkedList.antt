-- ===== src/Allocator/LinkedList.antt =====
-- src/allocator/linked_list.rs. The free regions are a list of addresses and sizes, in the order of
-- the links; in the program each region holds its own node.
pub mod Regions
pub mod Taking
use mathlib.Core.Option
use fat32_reimplementation.Base.{
  ℕ, ◌+◌, ◌-◌, ◌%◌, ◌^◌, max, List, [], ◌∷◌, ltb, leb, ◌==◌, ◌&&◌, if◌then◌else◌, true, false,
  Option, none, some, Run, done, panic, ◌>>=◌,
}
use fat32_reimplementation.Allocator.{Layout, add_usize, checked_add, align_up}

-- `size_of` and `align_of` of a node: a `usize` and a pointer.
abbrev pub node_size : ℕ
node_size = 16

abbrev pub node_align : ℕ
node_align = 8

pub record Region : Type 0 where
  pub start_addr : ℕ
  pub size : ℕ

abbrev pub end_addr : Region → ℕ
end_addr region = region.start_addr + region.size

-- The list behind `head`.
pub record LinkedListAllocator : Type 0 where
  pub regions : List Region

unfoldable pub add_free_region : LinkedListAllocator → ℕ → ℕ → Run LinkedListAllocator
unfolding align_up
add_free_region allocator addr size = do
  aligned ← align_up addr node_align
  elim (aligned == addr && leb node_size size) [
    | false ↦ panic
    | true ↦
        done (record { regions = record { start_addr = addr; size = size } ∷ allocator.regions })
  ]

unfoldable pub init : LinkedListAllocator → ℕ → ℕ → Run LinkedListAllocator
unfolding add_free_region
init allocator heap_start heap_size = add_free_region allocator heap_start heap_size

-- `none` is the error: the region does not fit.
unfoldable pub alloc_from_region : Region → ℕ → ℕ → Run (Option ℕ)
unfolding align_up
alloc_from_region region size align = do
  alloc_start ← align_up region.start_addr align
  elim (checked_add alloc_start size) [
    | none ↦ done none
    | some alloc_end ↦ elim (ltb (end_addr region) alloc_end) [
      | true ↦ done none
      | false ↦
          let excess_size = end_addr region - alloc_end in
          done (if ltb 0 excess_size && ltb excess_size node_size then none else some alloc_start)
    ]
  ]

-- The first region that fits, unlinked, with the start of the allocation, and the regions left.
unfoldable pub find_region : List Region → ℕ → ℕ → Run (Option (Region × ℕ) × List Region)
unfolding alloc_from_region
find_region [] size align = done (none, [])
find_region (region ∷ regions) size align = do
  fit ← alloc_from_region region size align
  elim fit [
    | some alloc_start ↦ done (some (region, alloc_start), regions)
    | none ↦ do (found, rest) ← find_region regions size align; done (found, region ∷ rest)
  ]

-- `align_to` fails if the padded size is above `isize::MAX`.
unfoldable pub size_align : Layout → Run (ℕ × ℕ)
size_align layout =
    let align = max layout.align node_align in
    let excess = layout.size % align in
    let padded = if excess == 0 then layout.size else layout.size - excess + align in
    if leb (layout.size + align) (2 ^ 63) then done (max padded node_size, align) else panic

unfoldable pub alloc : LinkedListAllocator → Layout → Run (Option ℕ × LinkedListAllocator)
unfolding size_align find_region add_free_region
alloc allocator layout = do
  (size, align) ← size_align layout
  (found, regions) ← find_region allocator.regions size align
  elim found [
    | none ↦ done (none, record { regions = regions })
    | some (region, alloc_start) ↦ do
      alloc_end ← add_usize alloc_start size
      let excess_size = end_addr region - alloc_end
      elim (ltb 0 excess_size) [
        | true ↦ do
          left ← add_free_region (record { regions = regions }) alloc_end excess_size
          done (some alloc_start, left)
        | false ↦ done (some alloc_start, record { regions = regions })
      ]
  ]

unfoldable pub dealloc : LinkedListAllocator → ℕ → Layout → Run LinkedListAllocator
unfolding size_align add_free_region
dealloc allocator ptr layout = do (size, _) ← size_align layout; add_free_region allocator ptr size
