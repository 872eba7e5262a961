-- ===== src/Frames/Mapping.antt =====
-- src/memory.rs: the active page table and the example mapping. The table's register, the mapper
-- that the x86_64 crate builds on a table, and its frames are parameters.
use fat32_reimplementation.Base.{ℕ, inl, inr, Run, done, panic, ◌>>=◌}
use fat32_reimplementation.Allocator.Pages.{VirtAddrs}
use fat32_reimplementation.Allocator.Heap.{Paging}

-- The address of the table in the register Cr3, behind the offset of the physical memory.
unfoldable pub active_level_4_table : VirtAddrs → ℕ → ℕ → Run ℕ
active_level_4_table v level_4_table_frame physical_memory_offset =
    v.plus physical_memory_offset level_4_table_frame

-- With `OffsetPageTable::new`.
unfoldable pub init : {Mapper : Type 0} → VirtAddrs → (ℕ → ℕ → Mapper) → ℕ → ℕ → Run Mapper
unfolding active_level_4_table
init v new_mapper level_4_table_frame physical_memory_offset = do
  level_4_table ← active_level_4_table v level_4_table_frame physical_memory_offset
  done (new_mapper level_4_table physical_memory_offset)

-- With `PhysAddr::new` and `PhysFrame::containing_address`.
unfoldable pub crate_example_mapping :
    (paging : Paging)
    → (ℕ → Run ℕ)
    → (ℕ → paging.PhysFrame)
    → ℕ
    → paging.Mapper
    → paging.FrameAllocator
    → Run (paging.Mapper × paging.FrameAllocator)
crate_example_mapping paging phys_addr containing_address page mapper frames = do
  address ← phys_addr 0xb8000
  let (result, mapper', frames') = paging.map_to mapper page (containing_address address) frames
  elim result [ inl _ ↦ panic | inr _ ↦ done (mapper', frames') ]
