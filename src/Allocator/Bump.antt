-- ===== src/Allocator/Bump.antt =====
-- src/allocator/bump.rs. A null pointer is `none`.
pub mod Room
pub mod Blocks
use fat32_reimplementation.Base.{
  ℕ, ◌+◌, ◌-◌, ltb, ◌==◌, if◌then◌else◌, true, false, Option, none, some, Run, done, panic, ◌>>=◌,
}
use fat32_reimplementation.Allocator.{Layout, add_usize, checked_add, align_up}

pub record BumpAllocator : Type 0 where
  pub heap_start : ℕ
  pub heap_end : ℕ
  pub next : ℕ
  pub allocations : ℕ

-- `BumpAllocator::new`.
abbrev pub empty : BumpAllocator
empty = record { heap_start = 0; heap_end = 0; next = 0; allocations = 0 }

unfoldable pub init : BumpAllocator → ℕ → ℕ → Run BumpAllocator
init bump heap_start heap_size = do
  heap_end ← add_usize heap_start heap_size
  done (record bump { heap_start = heap_start; heap_end = heap_end; next = heap_start })

unfoldable pub alloc : BumpAllocator → Layout → Run (Option ℕ × BumpAllocator)
unfolding align_up
alloc bump layout = do
  alloc_start ← align_up bump.next layout.align
  elim (checked_add alloc_start layout.size) [
    | none ↦ done (none, bump)
    | some alloc_end ↦ elim (ltb bump.heap_end alloc_end) [
      | true ↦ done (none, bump)
      | false ↦ do
        allocations ← add_usize bump.allocations 1
        done (some alloc_start, record bump { next = alloc_end; allocations = allocations })
    ]
  ]

unfoldable pub dealloc : BumpAllocator → Run BumpAllocator
dealloc bump = elim (bump.allocations == 0) [
  | true ↦ panic
  | false ↦ done (record bump {
    next = if bump.allocations - 1 == 0 then bump.heap_start else bump.next;
    allocations = bump.allocations - 1;
  })
]
