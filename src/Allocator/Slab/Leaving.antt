-- ===== src/Allocator/Slab/Leaving.antt =====
-- `dealloc` of an object whose slab then moves to another list of its cache.
use native.Mathlib.Nat.{mul-lt-mul_of_pos_right}
use fat32_reimplementation.Base.{
  All-map, ℕ, ◌+◌, ◌*◌, ◌≤◌, ◌<◌, ◌≡◌, ◌≢◌, inl, ◌%◌, ◌^◌, ne→==, ap, ◌∙◌, List, [], ◌∷◌, All,
  length, get_elem?, some, done, bind-done, arith, le→ltb,
}
use fat32_reimplementation.Allocator.{Layout}
use fat32_reimplementation.Allocator.Memory.{Memory, null}
use fat32_reimplementation.Allocator.Nodes.{list_add, list_del}
use fat32_reimplementation.Allocator.Nodes.Ring.{Ring, Same, Links-Same}
use fat32_reimplementation.Allocator.Nodes.Moving.{AreApart, move-Ring}
use fat32_reimplementation.Allocator.Pages.{VirtAddrs}
use fat32_reimplementation.Allocator.Slab.{
  SlabAllocator, dealloc, slab_of, class_index, max_slab_size, num, settle_put, slabs_full,
  slabs_partial, slabs_free,
}
use fat32_reimplementation.Allocator.Slab.Objects.{IsSlab, IsPlaced, put_object-IsSlab}
use fat32_reimplementation.Allocator.Slab.Classes.{slab_of-page}
use fat32_reimplementation.Allocator.Slab.Growing.{Outside}
use fat32_reimplementation.Allocator.Slab.Caches.{get_or_create_cache-kept}
use fat32_reimplementation.Allocator.Slab.Moves.{
  IsClear, moved-IsSlab, moved-num, settle_put-partial, settle_put-free,
}

-- A slab in an aligned page of the address space that is not the null page, with its objects inside.
pub record IsPaged (slab base size total : ℕ) : Type 0 where
  pub aligned : slab % 4096 ≡ 0
  pub low : 0 < slab
  pub high : slab + 4096 < 2 ^ 64
  pub from : slab ≤ base
  pub to : base + total * size ≤ slab + 4096
  pub wide : 0 < size

module _ (v : VirtAddrs) (allocator : SlabAllocator) (layout : Layout)
    (cache slab base size total i : ℕ) (idle : List ℕ) (m : Memory) (pos : 0 < layout.size)
    (small : layout.size ≤ max_slab_size)
    (at : get_elem? allocator.node_caches (class_index layout.size) ≡ some cache)
    (ne : cache ≢ null) (placed : IsPlaced slab cache total) (count : m (num cache) ≡ total)
    (paged : IsPaged slab base size total) (lt : i < total) (fresh : All (λ k. i ≢ k) idle)
    (room : length idle < total) (s : IsSlab m slab cache base size total idle) where
  -- The slab leaves the front of the list `from` for the front of the list `to`.
  dealloc_moves :
      (from to : ℕ) (nodes others : List ℕ)
      → (cache ≤ from) × (from ≤ cache + 32)
      → (cache ≤ to) × (to ≤ cache + 32)
      → AreApart from slab nodes to others
      → All (IsClear slab cache) nodes
      → All (IsClear slab cache) others
      → Ring m from (slab ∷ nodes)
      → Ring m to others
      → ((m1 : Memory)
          → m1 (num cache) ≡ total
          → IsSlab m1 slab cache base size total (i ∷ idle)
          → settle_put slab cache m1 ≡ list_add slab to (list_del slab m1))
      → (m' : Memory) × (dealloc v allocator (base + i * size) layout m ≡ done (allocator, m'))
        × IsSlab m' slab cache base size total (i ∷ idle)
        × Ring m' from nodes
        × Ring m' to (slab ∷ others)
        × (m' (num cache) ≡ total)
  unfolding dealloc
  dealloc_moves from to nodes others from_head to_head apart clear clear' ring ring' settles =
      let (m1, e, s1, away) =
        put_object-IsSlab m slab cache base size total i idle placed paged.wide lt fresh room s in
      let kept = away (num cache) (ground (arith, placed.elsewhere)) in
      let inside : base + i * size < slab + 4096 =
        omega (arith, mul-lt-mul_of_pos_right lt paged.wide, paged.to) in
      let page : slab_of (base + i * size) ≡ slab =
        slab_of-page slab (base + i * size) paged.aligned (omega (arith, paged.from)) inside
          (omega (arith, paged.high)) in
      let away_Same : (n : ℕ) → Outside slab n → Same m m1 n =
        λ n h. (away n (ground arith), away (n + 8) (ground arith)) in
      let outer = λ (ns : List ℕ) (h : All (IsClear slab cache) ns).
        All-map (IsClear slab cache) (Same m m1) ns (λ n k. away_Same n k.0) h in
      let from_same = away_Same from (ground (arith, placed.elsewhere)) in
      let to_same = away_Same to (ground (arith, placed.elsewhere)) in
      let slab_same : Same m m1 slab =
        (away slab (inl (omega arith)), away (slab + 8) (inl (omega arith))) in
      let ring1 : Ring m1 from (slab ∷ nodes) =
        Links-Same m m1 from (slab ∷ nodes) from from_same.0 (slab_same, outer nodes clear)
          from_same.1 ring in
      let ring1' : Ring m1 to others =
        Links-Same m m1 to others to to_same.0 (outer others clear') to_same.1 ring' in
      let (left, entered) = move-Ring m1 from slab nodes to others apart ring1 ring1' in
      (
        list_add slab to (list_del slab m1),
        rw
            (
              dealloc,
              le→ltb max_slab_size layout.size small,
              ne→== (base + i * size) null (omega (arith, paged.low, paged.from)),
            )
            (bind-done _ (get_or_create_cache-kept v allocator layout.size cache m pos at ne) (
              rw page (
                bind-done _ e
                  (ap (λ (n : Memory). done (allocator, n)) (settles m1 (kept ∙ count) s1))))),
        moved-IsSlab slab cache total placed m1 from to nodes others from_head to_head apart ring1
            ring1' clear clear' base size (i ∷ idle) s1,
        left,
        entered,
        moved-num slab cache total placed m1 from to nodes others from_head to_head apart ring1
              ring1' clear clear'
            ∙ kept
            ∙ count,
      )

-- A pointer to object `i` of a slab without a free object, which stands first among the full slabs of
-- the cache of the request, in an aligned page of the address space that is not the null page; the page, the
-- cache and the other slabs of the two lists lie apart: `dealloc` does not panic and leaves the allocator as it was; object `i` is
-- then the free one, and the slab stands first among the partial slabs, while the other slabs of both
-- lists stay in their order.
pub dealloc-full :
    (v : VirtAddrs) (allocator : SlabAllocator) (layout : Layout) (cache slab base size total i : ℕ)
    → (nodes fulls : List ℕ) (m : Memory) → 0 < layout.size
    → layout.size ≤ max_slab_size
    → get_elem? allocator.node_caches (class_index layout.size) ≡ some cache
    → cache ≢ null
    → IsPlaced slab cache total
    → m (num cache) ≡ total
    → AreApart (slabs_full cache) slab fulls (slabs_partial cache) nodes
    → All (IsClear slab cache) nodes
    → All (IsClear slab cache) fulls
    → Ring m (slabs_full cache) (slab ∷ fulls)
    → Ring m (slabs_partial cache) nodes
    → IsSlab m slab cache base size total []
    → slab % 4096 ≡ 0
    → 0 < slab
    → slab + 4096 < 2 ^ 64
    → slab ≤ base
    → base + total * size ≤ slab + 4096
    → 0 < size
    → i < total
    → (m' : Memory) × (dealloc v allocator (base + i * size) layout m ≡ done (allocator, m'))
      × IsSlab m' slab cache base size total (i ∷ [])
      × Ring m' (slabs_full cache) fulls
      × Ring m' (slabs_partial cache) (slab ∷ nodes)
dealloc-full v allocator layout cache slab base size total i nodes fulls m pos small at ne placed
      count apart clear clear' ring ring' s aligned low high from to wide lt =
    let paged : IsPaged slab base size total = record {
      aligned = aligned;
      low = low;
      high = high;
      from = from;
      to = to;
      wide = wide;
    } in
    let (m', e, s', left, entered, _) =
      dealloc_moves v allocator layout cache slab base size total i [] m pos small at ne placed
        count paged lt tt (omega arith) s (slabs_full cache) (slabs_partial cache) fulls nodes
        (omega arith, omega arith) (omega arith, omega arith) apart clear' clear ring ring'
        (λ m1 same s1. settle_put-partial slab cache m1 (omega (arith, s1.counted, same))) in
    (m', e, s', left, entered)

-- A pointer to the one object in use of a slab with two objects or more, which stands first among
-- the partial slabs of the cache of the request, in an aligned page of the address space that is
-- not the null page and holds its objects; the page, the cache and the other slabs of the partial
-- and the free list lie apart: `dealloc` does not panic and leaves the allocator as it was; that
-- object is then the first free one, and the slab stands first among the free slabs, while the
-- other slabs of both lists stay in their order and the cache keeps its number of objects.
pub dealloc-last :
    (v : VirtAddrs) (allocator : SlabAllocator) (layout : Layout) (cache slab base size total i : ℕ)
    → (idle nodes frees : List ℕ) (m : Memory) → 0 < layout.size
    → layout.size ≤ max_slab_size
    → get_elem? allocator.node_caches (class_index layout.size) ≡ some cache
    → cache ≢ null
    → IsPlaced slab cache total
    → m (num cache) ≡ total
    → IsPaged slab base size total
    → AreApart (slabs_partial cache) slab nodes (slabs_free cache) frees
    → All (IsClear slab cache) nodes
    → All (IsClear slab cache) frees
    → Ring m (slabs_partial cache) (slab ∷ nodes)
    → Ring m (slabs_free cache) frees
    → IsSlab m slab cache base size total idle
    → 2 ≤ total
    → length idle + 1 ≡ total
    → i < total
    → All (λ k. i ≢ k) idle
    → (m' : Memory) × (dealloc v allocator (base + i * size) layout m ≡ done (allocator, m'))
      × IsSlab m' slab cache base size total (i ∷ idle)
      × Ring m' (slabs_partial cache) nodes
      × Ring m' (slabs_free cache) (slab ∷ frees)
      × (m' (num cache) ≡ total)
dealloc-last v allocator layout cache slab base size total i idle nodes frees m pos small at ne
      placed count paged apart clear clear' ring ring' s two one lt fresh =
    dealloc_moves v allocator layout cache slab base size total i idle m pos small at ne placed
      count paged lt fresh (omega arith) s (slabs_partial cache) (slabs_free cache) nodes frees
      (omega arith, omega arith) (omega arith, omega arith) apart clear clear' ring ring'
      (λ m1 same s1.
        settle_put-free slab cache m1 (omega (arith, s1.counted, same)) (omega (arith, s1.counted)))
