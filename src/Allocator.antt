-- ===== src/Allocator.antt =====
-- src/allocator.rs: what the allocators share. Addresses and sizes are `usize`, 64 bits.
pub mod Alignment
pub mod Blocks
pub mod Memory
pub mod Nodes
pub mod Pages
pub mod Slab
pub mod FixedSizeBlock
pub mod Heap
pub mod Bump
pub mod LinkedList
use fat32_reimplementation.Base.{
  ℕ, ◌+◌, ◌-◌, ◌%◌, ◌^◌, ◌<◌, ◌≤◌, ltb, ◌==◌, if◌then◌else◌, Option, none, some, Run, done, panic,
  ◌>>=◌,
}

-- `Layout` of the standard library.
pub record Layout : Type 0 where
  pub size : ℕ
  pub align : ℕ

abbrev pub add_usize : ℕ → ℕ → Run ℕ
add_usize a b = if ltb (a + b) (2 ^ 64) then done (a + b) else panic

abbrev pub checked_add : ℕ → ℕ → Option ℕ
checked_add a b = if ltb (a + b) (2 ^ 64) then some (a + b) else none

unfoldable pub align_up : ℕ → ℕ → Run ℕ
align_up addr align =
    if align == 0
    then panic
    else if addr % align == 0
    then done addr
    else add_usize (addr - addr % align) align
