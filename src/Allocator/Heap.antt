-- ===== src/Allocator/Heap.antt =====
-- src/allocator.rs: `init_heap`. Pages, the page table's mapper and the frame allocator are
-- parameters; a page is its start address, and errors stand on the left.
pub mod Mapping
use fat32_reimplementation.Base.{
  ℕ, ◌+◌, ◌-◌, ◌*◌, ◌^◌, ◌≡◌, ◌⊎◌, inl, inr, List, [], ◌∷◌, ltb, true, false, if◌then◌else◌, Option,
  none, some, Run, done, panic, ◌>>=◌,
}
use fat32_reimplementation.Allocator.Pages.{VirtAddrs}
use fat32_reimplementation.Allocator.Slab.{SlabAllocator}
use fat32_reimplementation.Allocator.Slab as Slab

abbrev pub heap_start : ℕ
heap_start = 0x4444_4444_0000

abbrev pub heap_size : ℕ
heap_size = 40 * 1024 * 1024

-- `Page::containing_address` of two addresses and `Page::range_inclusive`, `allocate_frame`,
-- `map_to` with the flags of `init_heap` and `flush`, and `MapToError::FrameAllocationFailed`; the
-- difference of a `VirtAddr` and a `u64`.
pub record Paging : Type 1 where
  pub PhysFrame : Type 0
  pub Mapper : Type 0
  pub FrameAllocator : Type 0
  pub MapToError : Type 0
  pub frame_allocation_failed : MapToError
  pub minus : ℕ → ℕ → Run ℕ
  pub page_range : ℕ → ℕ → List ℕ
  pub allocate_frame : FrameAllocator → Option PhysFrame × FrameAllocator
  pub map_to :
      Mapper → ℕ → PhysFrame → FrameAllocator → (MapToError ⊎ Unit {0}) × Mapper × FrameAllocator

module _ (paging : Paging) where
  abbrev pub Outcome : Type 0
  Outcome = (paging.MapToError ⊎ Unit {0}) × paging.Mapper × paging.FrameAllocator

  -- One page is mapped to a frame.
  unfoldable pub map_page : ℕ → paging.Mapper → paging.FrameAllocator → Outcome
  map_page page mapper frames =
      let (frame, frames') = paging.allocate_frame frames in
      elim frame [
        | none ↦ (inl paging.frame_allocation_failed, mapper, frames')
        | some f ↦ paging.map_to mapper page f frames'
      ]

  -- The loop over the pages, with `?` at the first error.
  unfoldable pub map_pages : List ℕ → paging.Mapper → paging.FrameAllocator → Outcome
  unfolding map_page
  map_pages [] mapper frames = (inr tt, mapper, frames)
  map_pages (page ∷ pages) mapper frames =
      let (result, mapper', frames') = map_page page mapper frames in
      elim result [ inl e ↦ (inl e, mapper', frames') | inr _ ↦ map_pages pages mapper' frames' ]

  unfoldable pub init_heap :
      VirtAddrs
      → SlabAllocator
      → paging.Mapper
      → paging.FrameAllocator
      → Run ((paging.MapToError ⊎ Unit {0}) × SlabAllocator × paging.Mapper × paging.FrameAllocator)
  unfolding map_pages Slab.init
  init_heap v allocator mapper frames = do
    start ← v.new heap_start
    stop ← v.plus start heap_size
    last ← paging.minus stop 1
    let (result, mapper', frames') = map_pages (paging.page_range start last) mapper frames
    elim result [
      | inl e ↦ done (inl e, allocator, mapper', frames')
      | inr _ ↦ do
        allocator' ← Slab.init v allocator heap_start heap_size
        done (inr tt, allocator', mapper', frames')
    ]
