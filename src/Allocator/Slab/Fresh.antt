-- ===== src/Allocator/Slab/Fresh.antt =====
-- The first request of a class: its cache and a slab are made on fresh pages.
use fat32_reimplementation.Base.{
  ℕ, ◌+◌, ◌^◌, ◌≤◌, ◌<◌, ◌≡◌, refl, ap, [], get_elem?, some, inl, inr, done, max, unwrap, bind-done,
  arith, ne→==,
}
use fat32_reimplementation.Base.Chunks.{set}
use fat32_reimplementation.Allocator.Memory.{Memory, null}
use fat32_reimplementation.Allocator.Nodes as Nodes
use fat32_reimplementation.Allocator.Nodes.{list_add, list_del, list_empty}
use fat32_reimplementation.Allocator.Nodes.Ring.{Ring}
use fat32_reimplementation.Allocator.Pages.{VirtAddrs, IsCanonical, PageAllocator, page_size}
use fat32_reimplementation.Allocator.Pages.Handing.{alloc_pages-Answer}
use fat32_reimplementation.Allocator.Slab.{
  SlabAllocator, class_index, get_or_create_cache, fresh_page, cache_grow, write_cache, write_slab,
  objects_per_slab, next_power_of_two, slabs_full, slabs_partial, slabs_free, num, obj_size,
}

-- The allocator behind the page that is handed out next.
abbrev pub paged : SlabAllocator → PageAllocator → SlabAllocator
paged allocator pages = record allocator {
  page_alloc = some (record pages { next = pages.next + page_size });
}

module _ (v : VirtAddrs) (canonical : IsCanonical v) (allocator : SlabAllocator)
    (pages : PageAllocator) (has : allocator.page_alloc ≡ some pages)
    (room : pages.next + 4096 ≤ pages.end) (low : pages.next + 4096 < 2 ^ 47) where
  pub fresh_page-next : fresh_page v allocator ≡ done (pages.next, paged allocator pages)
  unfolding fresh_page
  fresh_page-next =
      bind-done _ (ap unwrap has) (elim (alloc_pages-Answer v canonical pages 1 (omega arith)) [
        | inl (fits, e) ↦ bind-done _ e refl
        | inr (full, e) ↦ absurd (omega arith)
      ])

  -- A cache that is missing is made on the next page.
  pub get_or_create_cache-made :
      (size power : ℕ) (m : Memory)
      → 0 < size
      → get_elem? allocator.node_caches (class_index size) ≡ some null
      → next_power_of_two (max size 8) ≡ done power
      → get_or_create_cache v allocator size m
        ≡ done (
          pages.next,
          record (paged allocator pages) {
            node_caches = set allocator.node_caches (class_index size) pages.next;
          },
          write_cache pages.next power (class_index size) m,
        )
  unfolding get_or_create_cache
  get_or_create_cache-made size power m pos at rounded =
      rw (get_or_create_cache, ne→== size 0 (omega arith))
        (bind-done _ (ap unwrap at) (bind-done _ fresh_page-next (bind-done _ rounded refl)))

  pub cache_grow-next :
      (cache : ℕ) (m : Memory)
      → cache_grow v allocator cache m ≡ done (paged allocator pages, write_slab pages.next cache m)
  unfolding cache_grow
  cache_grow-next cache m = bind-done _ fresh_page-next refl

-- What a fresh cache holds.
pub write_cache-fields :
    (cache size idx : ℕ) (m : Memory)
    → (write_cache cache size idx m (obj_size cache) ≡ size)
      × (write_cache cache size idx m (num cache) ≡ objects_per_slab size)
      × Ring (write_cache cache size idx m) (slabs_full cache) []
      × Ring (write_cache cache size idx m) (slabs_partial cache) []
      × Ring (write_cache cache size idx m) (slabs_free cache) []
unfolding write_cache Nodes.init
write_cache-fields cache size idx m = (
  ground arith,
  ground arith,
  (ground arith, ground arith),
  (ground arith, ground arith),
  (ground arith, ground arith),
)
