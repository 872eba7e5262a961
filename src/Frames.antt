-- ===== src/Frames.antt =====
-- src/memory.rs: where the frames for the page tables come from. The bootloader's memory map and
-- the x86_64 crate's addresses and frames are parameters; a `PhysAddr` is its number.
pub mod Ascending
pub mod Usable
pub mod Mapping
use fat32_reimplementation.Base.{
  ℕ, zero, suc, ◌+◌, ◌-◌, ◌/◌, ◌^◌, ◌<◌, ◌≡◌, List, [], ◌∷◌, ◌++◌, Bool, if◌then◌else◌, Option,
  none, some, Run, done, ◌>>=◌,
}
use fat32_reimplementation.Allocator.{add_usize}

-- A region of the bootloader's memory map, whether its type is `Usable`, and its range;
-- `PhysAddr::new` and `PhysFrame::containing_address`.
pub record Boot : Type 1 where
  pub MemoryRegion : Type 0
  pub PhysFrame : Type 0
  pub is_usable : MemoryRegion → Bool
  pub start_addr : MemoryRegion → ℕ
  pub end_addr : MemoryRegion → ℕ
  pub phys_addr : ℕ → Run ℕ
  pub containing_address : ℕ → PhysFrame

-- What is used of that crate: a physical address has at most 52 bits.
pub record IsPhysical (boot : Boot) : Type 0 where
  pub phys_addr_low : (a : ℕ) → a < 2 ^ 52 → boot.phys_addr a ≡ done a

pub record BootInfoFrameAllocator (boot : Boot) : Type 0 where
  pub memory_map : List boot.MemoryRegion
  pub next : ℕ

-- `step_by(4096)` from `start` on, with `count` addresses left.
unfoldable pub step_by : ℕ → ℕ → List ℕ
step_by zero start = []
step_by (suc count) start = start ∷ step_by count (start + 4096)

module _ (boot : Boot) where
  abbrev pub init : List boot.MemoryRegion → BootInfoFrameAllocator boot
  init memory_map = record { memory_map = memory_map; next = 0 }

  -- `EmptyFrameAllocator.allocate_frame`.
  abbrev pub no_frame : Option boot.PhysFrame
  no_frame = none

  -- The addresses that `usable_frame` goes through, the regions in their order.
  unfoldable pub usable_addresses : List boot.MemoryRegion → List ℕ
  unfolding step_by
  usable_addresses [] = []
  usable_addresses (r ∷ regions) =
      let rest = usable_addresses regions in
      if boot.is_usable r
      then step_by ((boot.end_addr r - boot.start_addr r + 4095) / 4096) (boot.start_addr r) ++ rest
      else rest

  -- `nth` of the iterator: the frames in front are made as well.
  unfoldable pub nth_frame : List ℕ → ℕ → Run (Option boot.PhysFrame)
  nth_frame [] n = done none
  nth_frame (addr ∷ addrs) zero = do
    a ← boot.phys_addr addr
    done (some (boot.containing_address a))
  nth_frame (addr ∷ addrs) (suc n) = do _ ← boot.phys_addr addr; nth_frame addrs n

  unfoldable pub allocate_frame :
      BootInfoFrameAllocator boot → Run (Option boot.PhysFrame × BootInfoFrameAllocator boot)
  unfolding usable_addresses nth_frame
  allocate_frame frames = do
    frame ← nth_frame (usable_addresses frames.memory_map) frames.next
    next ← add_usize frames.next 1
    done (frame, record frames { next = next })
