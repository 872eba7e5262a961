-- ===== src/Allocator/Pages.antt =====
-- src/allocator/slab.rs: `PageAllocator`. A `VirtAddr` of the x86_64 crate is its number.
pub mod Handing
use fat32_reimplementation.Base.{
  ℕ, ◌+◌, ◌*◌, ◌^◌, ◌<◌, ◌≡◌, ltb, true, false, Option, none, some, Run, done, panic, ◌>>=◌,
  if◌then◌else◌,
}

abbrev pub page_size : ℕ
page_size = 4096

-- `VirtAddr::new` and the sum of a `VirtAddr` and a `u64`.
pub record VirtAddrs : Type 0 where
  pub new : ℕ → Run ℕ
  pub plus : ℕ → ℕ → Run ℕ

-- What is used of that crate: in the lower half of the address space, below 2 ^ 47, both return.
pub record IsCanonical (v : VirtAddrs) : Type 0 where
  pub new_low : (a : ℕ) → a < 2 ^ 47 → v.new a ≡ done a
  pub plus_low : (a b : ℕ) → a + b < 2 ^ 47 → v.plus a b ≡ done (a + b)

abbrev pub mul_usize : ℕ → ℕ → Run ℕ
mul_usize a b = if ltb (a * b) (2 ^ 64) then done (a * b) else panic

pub record PageAllocator : Type 0 where
  pub next : ℕ
  pub end : ℕ

unfoldable pub alloc_pages : VirtAddrs → PageAllocator → ℕ → Run (Option ℕ × PageAllocator)
alloc_pages v pages num = do
  bytes ← mul_usize num page_size
  stop ← v.plus pages.next bytes
  elim (ltb pages.end stop) [
    | true ↦ done (none, pages)
    | false ↦ do
      next ← v.plus pages.next bytes
      done (some pages.next, record pages { next = next })
  ]
