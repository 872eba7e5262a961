-- ===== src/Allocator/Pages/Handing.antt =====
-- The pages that `alloc_pages` hands out.
use native.Mathlib.Decide.{dec_lt}
use fat32_reimplementation.Base.{
  ℕ, ◌+◌, ◌*◌, ◌^◌, ◌≤◌, ◌<◌, ◌≡◌, ◌⊎◌, inl, inr, refl, none, some, done, bind-done, arith, lt→ltb,
  le→ltb,
}
use fat32_reimplementation.Allocator.Pages.{
  page_size, VirtAddrs, IsCanonical, PageAllocator, alloc_pages,
}

-- The request is granted at `next`, which moves behind it, or refused for want of room.
abbrev pub Answer : VirtAddrs → PageAllocator → ℕ → Type 0
Answer v pages num =
    ((pages.next + num * page_size ≤ pages.end)
      × (alloc_pages v pages num
          ≡ done (some pages.next, record pages { next = pages.next + num * page_size })))
    ⊎ ((pages.end < pages.next + num * page_size) × (alloc_pages v pages num ≡ done (none, pages)))

-- When the end of the requested pages lies below 2 ^ 47, `alloc_pages` does not panic: it grants the
-- pages from `next` on and moves `next` behind them, when they end inside the heap, and otherwise
-- refuses them and changes nothing.
pub alloc_pages-Answer :
    (v : VirtAddrs)
    → IsCanonical v
    → (pages : PageAllocator) (num : ℕ) → pages.next + num * page_size < 2 ^ 47
    → Answer v pages num
unfolding alloc_pages
alloc_pages-Answer v canonical pages num low =
    let bytes = num * page_size in
    let sum = canonical.plus_low pages.next bytes low in
    let whole = lt→ltb bytes (2 ^ 64) (omega arith) in
    elim (dec_lt pages.end (pages.next + bytes)) [
      | yes full ↦
          inr (
            full,
            rw whole (bind-done _ sum (rw (lt→ltb pages.end (pages.next + bytes) full) refl)),
          )
      | no room ↦ inl (
        omega arith,
        rw whole (
            bind-done _ sum
              (rw (le→ltb pages.end (pages.next + bytes) (omega arith)) (bind-done _ sum refl))),
      )
    ]
