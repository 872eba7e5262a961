-- ===== src/Allocator/Slab/Cycle.antt =====
-- A block that is asked for, given back and asked for again.
use mathlib.Core.Path.{subst}
use fat32_reimplementation.Base.{
  ℕ, zero, suc, ◌+◌, ◌-◌, lt_of_get_elem?, ◌*◌, ◌%◌, ◌^◌, ◌≤◌, ◌<◌, ◌≡◌, ◌≢◌, refl, sym, ap, ◌∙◌,
  List, [], ◌∷◌, get_elem?, some, done, ◌>>=◌, bind-done, arith, le→ltb, Run, inl, inr,
}
use fat32_reimplementation.Base.Chunks.{get_elem?-set_self}
use fat32_reimplementation.Allocator.{Layout}
use fat32_reimplementation.Allocator.Memory.{Memory, null}
use fat32_reimplementation.Allocator.Nodes.Ring.{Ring}
use fat32_reimplementation.Allocator.Pages.{VirtAddrs, IsCanonical, PageAllocator}
use fat32_reimplementation.Allocator.Slab.{
  SlabAllocator, max_slab_size, class_index, objects_per_slab, alloc, dealloc, num, slabs_partial,
  slabs_free, settle_taken,
}
use fat32_reimplementation.Allocator.Slab.Objects.{IsSlab, IsPlaced}
use fat32_reimplementation.Allocator.Slab.Tables.{indices, length-indices, All-indices}
use fat32_reimplementation.Allocator.Slab.Caches.{get_or_create_cache-kept}
use fat32_reimplementation.Allocator.Slab.Finding.{find_slab-free}
use fat32_reimplementation.Allocator.Slab.First.{
  IsServed, taken_first, split_indices, alloc-first, with_cache,
}
use fat32_reimplementation.Allocator.Slab.Leaving.{IsPaged, dealloc-last}

-- The objects of a slab are all free, and it is the only slab of its cache.
record IsReturned (m : Memory) (cache slab base size : ℕ) : Type 0 where
  is_slab :
      IsSlab m slab cache base size
        (objects_per_slab size)
        (0 ∷ indices 1 (objects_per_slab size - 1))
  two : 2 ≤ objects_per_slab size
  counted : m (num cache) ≡ objects_per_slab size
  same :
      (base % 8 ≡ 0)
      × (slab + 40 + objects_per_slab size * 4 ≤ base)
      × (base + objects_per_slab size * size ≤ slab + 4096)
  partial : Ring m (slabs_partial cache) []
  frees : Ring m (slabs_free cache) (slab ∷ [])

module _ (v : VirtAddrs) (allocator : SlabAllocator) (layout : Layout) (cache slab base size : ℕ)
    (pos : 0 < layout.size) (small : layout.size ≤ 1024)
    (at : get_elem? allocator.node_caches (class_index layout.size) ≡ some cache)
    (ne : cache ≢ null) (placed : IsPlaced slab cache (objects_per_slab size))
    (paged : IsPaged slab base size (objects_per_slab size)) where
  dealloc-IsReturned :
      (m : Memory)
      → IsServed m cache slab base size
      → (m' : Memory) × (dealloc v allocator base layout m ≡ done (allocator, m'))
        × IsReturned m' cache slab base size
  dealloc-IsReturned m served =
      let total = objects_per_slab size in
      let rest = length-indices 1 (total - 1) in
      let (m', e, s, partial, frees, counted) =
        dealloc-last v allocator layout cache slab base size total 0 (indices 1 (total - 1)) [] [] m
          pos (omega arith) at ne placed served.counted paged
          (record {
            first_list = ((ground (arith, placed.elsewhere), tt), (tt, tt));
            second_list = (tt, tt);
            between = ((inr (omega arith), (ground (arith, placed.elsewhere), tt)), tt);
          })
          tt tt served.partial served.frees served.is_slab served.two
          (omega (arith, rest, served.two)) (omega (arith, served.two))
          (All-indices (λ k. 0 ≢ k) 1 (total - 1) (λ j lo hi. omega arith)) in
      let start : base + 0 * size ≡ base = omega arith in
      (
        m',
        ap (λ (p : ℕ). dealloc v allocator p layout m) (sym start) ∙ e,
        record {
          is_slab = s;
          two = served.two;
          counted = counted;
          same = (served.aligned, served.behind_table, served.in_page);
          partial = partial;
          frees = frees;
        },
      )

  alloc-IsServed :
      (m : Memory)
      → IsReturned m cache slab base size
      → (m' : Memory) × (alloc v allocator layout m ≡ done (base, allocator, m'))
        × IsServed m' cache slab base size
  unfolding alloc
  alloc-IsServed m returned =
      let total = objects_per_slab size in
      let (m1, found, f) =
        find_slab-free slab cache base size total (0 ∷ indices 1 (total - 1)) [] m placed
          (record {
            first_list = ((ground (arith, placed.elsewhere), tt), (tt, tt));
            second_list = (tt, tt);
            between = ((inl (omega arith), (ground (arith, placed.elsewhere), tt)), tt);
          })
          tt returned.frees returned.partial returned.is_slab v allocator in
      let s : IsSlab m1 slab cache base size total (indices 0 total) =
        subst (λ (l : List ℕ). IsSlab m1 slab cache base size total l)
          (sym (split_indices total returned.two)) f.is_slab in
      let (m2, took, settled, same_num, partial, frees, s') =
        taken_first m1 slab cache base size total placed returned.two
          (f.same_num ∙ returned.counted) f.partial f.frees_left s in
      (
        m2,
        rw (alloc, le→ltb max_slab_size layout.size (omega arith))
            (bind-done _ (get_or_create_cache-kept v allocator layout.size cache m pos at ne) (
              bind-done _ found (
                ap (λ (p : ℕ × Memory). done (p.0, allocator, settle_taken slab cache p.1)) took
                ∙ ap (λ (n : Memory). done (base, allocator, n)) settled))),
        record {
          is_slab = s';
          two = returned.two;
          partial = partial;
          frees = frees;
          counted = same_num;
          aligned = returned.same.0;
          behind_table = returned.same.1;
          in_page = returned.same.2;
        },
      )

-- A block goes back and is asked for again, a number of times.
unfoldable pub reuse :
    VirtAddrs → Layout → ℕ → ℕ → SlabAllocator → Memory → Run (ℕ × SlabAllocator × Memory)
unfolding alloc dealloc
reuse v layout zero ptr allocator m = done (ptr, allocator, m)
reuse v layout (suc count) ptr allocator m = do
  (allocator1, m1) ← dealloc v allocator ptr layout m
  (ptr', allocator2, m2) ← alloc v allocator1 layout m1
  reuse v layout count ptr' allocator2 m2

reuse-IsServed :
    (v : VirtAddrs) (allocator : SlabAllocator) (layout : Layout) (cache slab base size : ℕ)
    → 0 < layout.size
    → layout.size ≤ 1024
    → get_elem? allocator.node_caches (class_index layout.size) ≡ some cache
    → cache ≢ null
    → IsPlaced slab cache (objects_per_slab size)
    → IsPaged slab base size (objects_per_slab size)
    → (count : ℕ) (m : Memory) → IsServed m cache slab base size
    → (m' : Memory) × (reuse v layout count base allocator m ≡ done (base, allocator, m'))
      × IsServed m' cache slab base size
unfolding reuse
reuse-IsServed v allocator layout cache slab base size pos small at ne placed paged zero m served =
    (m, refl, served)
reuse-IsServed v allocator layout cache slab base size pos small at ne placed paged (suc count) m
      served =
    let (m1, freed, returned) =
      dealloc-IsReturned v allocator layout cache slab base size pos small at ne placed paged m
        served in
    let (m2, got, served') =
      alloc-IsServed v allocator layout cache slab base size pos small at ne placed paged m1
        returned in
    let (m3, rest, served'') =
      reuse-IsServed v allocator layout cache slab base size pos small at ne placed paged count m2
        served' in
    (m3, bind-done _ freed (bind-done _ got rest), served'')

-- For a size from 1 to 1024 whose class has no cache, with the two next pages, which are aligned,
-- not the null page, inside the heap and below 2 ^ 47: `alloc` does not panic, returns an address with
-- as many bytes as asked for behind it, and takes the first two pages. Then any number of rounds that
-- give the block back with `dealloc` and ask for one of the same layout do not panic either, end with
-- this same address and the same allocator, which has no further page, and the other objects of the
-- slab are free.
pub alloc-reused :
    (v : VirtAddrs)
    → IsCanonical v
    → (allocator : SlabAllocator) (layout : Layout) (pages : PageAllocator) (m : Memory)
    → allocator.page_alloc ≡ some pages
    → pages.next % 4096 ≡ 0
    → 0 < pages.next
    → pages.next + 8192 ≤ pages.end
    → pages.next + 8192 < 2 ^ 47
    → 0 < layout.size
    → layout.size ≤ 1024
    → get_elem? allocator.node_caches (class_index layout.size) ≡ some null
    → (base size : ℕ) × (m1 : Memory) × (alloc v allocator layout m
        ≡ done (base, with_cache allocator pages (class_index layout.size), m1))
      × (layout.size ≤ size)
      × ((count : ℕ)
          → (m' : Memory) × (reuse v layout count base
                (with_cache allocator pages (class_index layout.size))
                m1
              ≡ done (base, with_cache allocator pages (class_index layout.size), m'))
            × IsServed m' pages.next (pages.next + 4096) base size)
alloc-reused v canonical allocator layout pages m has aligned above room low pos small at =
    let idx = class_index layout.size in
    let (m1, base, size, first, fits, _, served) =
      alloc-first v canonical allocator layout pages m has aligned room low pos small at in
    let placed : IsPlaced (pages.next + 4096) pages.next (objects_per_slab size) = record {
      table = omega (arith, served.behind_table, served.in_page);
      elsewhere = inl (omega arith);
    } in
    let on_page : IsPaged (pages.next + 4096) base size (objects_per_slab size) = record {
      aligned = omega arith;
      low = omega arith;
      high = omega arith;
      from = omega (arith, served.behind_table);
      to = served.in_page;
      wide = omega (arith, fits);
    } in
    let again =
      reuse-IsServed v (with_cache allocator pages idx) layout pages.next (pages.next + 4096) base
        size pos small
        (get_elem?-set_self allocator.node_caches idx pages.next
          (lt_of_get_elem? allocator.node_caches idx null at))
        (omega arith) placed on_page in
    (base, size, m1, first, fits, λ count. again count m1 served)
