-- ===== src/Allocator/Bump/Room.antt =====
-- The requests that the bump allocator grants and refuses.
use native.Mathlib.Decide.{dec_lt}
use fat32_reimplementation.Base.{
  ℕ, ◌+◌, ◌≤◌, ◌<◌, ◌≡◌, ◌^◌, inl, inr, none, some, done, arith, bind-done, ◌⊎◌,
}
use fat32_reimplementation.Allocator.{Layout, align_up}
use fat32_reimplementation.Allocator.Alignment.{IsAligned, align_up-IsAligned}
use fat32_reimplementation.Allocator.Bump.{BumpAllocator, alloc}

-- The request is granted at `p`, or refused when there is no room behind `p`.
abbrev pub Answer : BumpAllocator → Layout → ℕ → Type 0
Answer bump layout p =
    ((p + layout.size ≤ bump.heap_end)
      × (alloc bump layout
          ≡ done
              (some p, record bump { next = p + layout.size; allocations = bump.allocations + 1 })))
    ⊎ ((bump.heap_end < p + layout.size) × (alloc bump layout ≡ done (none, bump)))

answer :
    (bump : BumpAllocator) (layout : Layout) (p : ℕ)
    → bump.heap_end < 2 ^ 64
    → bump.allocations + 1 < 2 ^ 64
    → align_up bump.next layout.align ≡ done p
    → Answer bump layout p
unfolding alloc
answer bump layout p small count e = elim (dec_lt bump.heap_end (p + layout.size)) [
  | yes full ↦ inr (full, bind-done _ e (ground arith))
  | no room ↦ inl (omega arith, bind-done _ e (ground arith))
]

-- For an alignment above 0 that can be added to `next` in 64 bits, a heap that ends below 2 ^ 64 and
-- a counter that can still be raised, `alloc` does not panic. With `p` the least multiple of the
-- alignment from `next` on, it grants the request at `p`, raising `next` to the block's end and the
-- counter by one, when the block ends inside the heap, and otherwise refuses it and changes nothing.
pub alloc-Answer :
    (bump : BumpAllocator) (layout : Layout)
    → 0 < layout.align
    → bump.next + layout.align ≤ 2 ^ 64
    → bump.heap_end < 2 ^ 64
    → bump.allocations + 1 < 2 ^ 64
    → (p : ℕ) × IsAligned bump.next layout.align p × Answer bump layout p
alloc-Answer bump layout pos fits small count =
    let (p, e, aligned) = align_up-IsAligned bump.next layout.align pos fits in
    (p, aligned, answer bump layout p small count e)
