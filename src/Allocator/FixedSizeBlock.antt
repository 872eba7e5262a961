-- ===== src/Allocator/FixedSizeBlock.antt =====
-- src/allocator/fixed_size_block.rs. The lists of free blocks lie in the memory of
-- Allocator/Memory.antt: the head of each list is an address, 0 for `None`, and the word at a free
-- block is its `next`. The fallback allocator is the `Heap` of the linked_list_allocator crate.
pub mod Sizes
pub mod Blocks
use fat32_reimplementation.Base.{
  ℕ, ◌+◌, ◌-◌, ◌^◌, max, List, [], ◌∷◌, get_elem?, length, replicate, leb, ◌==◌, ◌||◌, ◌&&◌,
  bit_and, if◌then◌else◌, true, false, Option, none, some, Run, done, panic, ◌>>=◌, unwrap,
}
use fat32_reimplementation.Base.Chunks.{set}
use fat32_reimplementation.Allocator.{Layout}
use fat32_reimplementation.Allocator.Memory.{Memory, null, store}

abbrev pub block_sizes : List ℕ
block_sizes = 8 ∷ 16 ∷ 32 ∷ 64 ∷ 128 ∷ 256 ∷ 512 ∷ 1024 ∷ 2048 ∷ []

-- `size_of` and `align_of` of a `ListNode`: one pointer.
abbrev pub list_node_size : ℕ
list_node_size = 8

abbrev pub list_node_align : ℕ
list_node_align = 8

-- `Heap` of that crate: `empty`, `init`, `allocate_first_fit`, whose errors are `none`, and
-- `deallocate`.
pub record FirstFit : Type 1 where
  pub Heap : Type 0
  pub empty : Heap
  pub init : Heap → ℕ → ℕ → Run Heap
  pub allocate_first_fit : Heap → Layout → Run (Option ℕ × Heap)
  pub deallocate : Heap → ℕ → Layout → Run Heap

pub record FixedSizeBlockAllocator (fit : FirstFit) : Type 0 where
  pub list_heads : List ℕ
  pub fallback_allocator : fit.Heap

-- `position` of the first size that is large enough, counted from `index`.
unfoldable pub position : List ℕ → ℕ → ℕ → Option ℕ
position [] required index = none
position (s ∷ sizes) required index =
    let rest = position sizes required (index + 1) in if leb required s then some index else rest

unfoldable pub list_index : Layout → Option ℕ
unfolding position
list_index layout = position block_sizes (max layout.size layout.align) 0

-- `Layout::from_size_align` on a size and an alignment that are the same power of two.
abbrev pub block_layout : ℕ → Layout
block_layout block_size = record { size = block_size; align = block_size }

module _ (fit : FirstFit) where
  abbrev pub new : FixedSizeBlockAllocator fit
  new = record { list_heads = replicate 9 null; fallback_allocator = fit.empty }

  unfoldable pub init : FixedSizeBlockAllocator fit → ℕ → ℕ → Run (FixedSizeBlockAllocator fit)
  init allocator heap_start heap_size = do
    heap ← fit.init allocator.fallback_allocator heap_start heap_size
    done (record allocator { fallback_allocator = heap })

  unfoldable pub fallback_alloc :
      FixedSizeBlockAllocator fit → Layout → Run (ℕ × FixedSizeBlockAllocator fit)
  fallback_alloc allocator layout = do
    (ptr, heap) ← fit.allocate_first_fit allocator.fallback_allocator layout
    done (elim ptr [ none ↦ null | some p ↦ p ], record allocator { fallback_allocator = heap })

  -- The request of list `index`.
  unfoldable pub alloc_listed :
      FixedSizeBlockAllocator fit → ℕ → Memory → Run (ℕ × FixedSizeBlockAllocator fit × Memory)
  unfolding fallback_alloc
  alloc_listed allocator index m = do
    node ← unwrap (get_elem? allocator.list_heads index)
    block_size ← unwrap (get_elem? block_sizes index)
    elim (node == null) [
      | false ↦ done (
        node,
        record allocator { list_heads = set allocator.list_heads index (m node) },
        store m node null,
      )
      | true ↦ do
        (ptr, allocator') ← fallback_alloc allocator (block_layout block_size)
        done (ptr, allocator', m)
    ]

  unfoldable pub alloc :
      FixedSizeBlockAllocator fit → Layout → Memory → Run (ℕ × FixedSizeBlockAllocator fit × Memory)
  unfolding list_index fallback_alloc alloc_listed
  alloc allocator layout m = elim (list_index layout) [
    | none ↦ do (ptr, allocator') ← fallback_alloc allocator layout; done (ptr, allocator', m)
    | some index ↦ alloc_listed allocator index m
  ]

  -- A block comes back to list `index`.
  unfoldable pub dealloc_listed :
      FixedSizeBlockAllocator fit → ℕ → ℕ → Memory → Run (FixedSizeBlockAllocator fit × Memory)
  dealloc_listed allocator index ptr m = do
    head ← unwrap (get_elem? allocator.list_heads index)
    block_size ← unwrap (get_elem? block_sizes index)
    elim (leb list_node_size block_size && leb list_node_align block_size) [
      | false ↦ panic
      | true ↦
          done
            (record allocator { list_heads = set allocator.list_heads index ptr }, store m ptr head)
    ]

  -- `NonNull::new(ptr).unwrap()`, and the block goes back to the fallback allocator.
  unfoldable pub fallback_dealloc :
      FixedSizeBlockAllocator fit → ℕ → Layout → Run (FixedSizeBlockAllocator fit)
  fallback_dealloc allocator ptr layout = elim (ptr == null) [
    | true ↦ panic
    | false ↦ do
      heap ← fit.deallocate allocator.fallback_allocator ptr layout
      done (record allocator { fallback_allocator = heap })
  ]

  unfoldable pub dealloc :
      FixedSizeBlockAllocator fit → ℕ → Layout → Memory → Run (FixedSizeBlockAllocator fit × Memory)
  unfolding list_index dealloc_listed fallback_dealloc
  dealloc allocator ptr layout m = elim (list_index layout) [
    | none ↦ do allocator' ← fallback_dealloc allocator ptr layout; done (allocator', m)
    | some index ↦ dealloc_listed allocator index ptr m
  ]
