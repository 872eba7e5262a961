-- ===== src/Allocator/Slab/Sharing.antt =====
-- Sizes that share a class, and the blocks that they get.
use mathlib.Core.Path.{subst}
use fat32_reimplementation.Base.{
  ℕ, suc, ◌+◌, ◌-◌, ◌*◌, ◌/◌, ◌%◌, ◌^◌, ◌≤◌, ◌<◌, ◌≡◌, ◌≢◌, refl, sym, ap, ◌∙◌, List, [], ◌∷◌,
  lt_of_get_elem?, get_elem?, some, done, bind-done, arith, le→ltb, inl, ne→==, ==-eq, Bool,
  if◌then◌else◌,
}
use fat32_reimplementation.Base.Chunks.{get_elem?-set_self}
use fat32_reimplementation.Allocator.{Layout}
use fat32_reimplementation.Allocator.Memory.{Memory, null}
use fat32_reimplementation.Allocator.Nodes.Ring.{Ring, Far, Same, Links-Same}
use fat32_reimplementation.Allocator.Pages.{VirtAddrs, IsCanonical, PageAllocator}
use fat32_reimplementation.Allocator.Slab.{
  SlabAllocator, max_slab_size, class_index, trailing_zeros, objects_per_slab, alloc, num,
  slabs_partial, settle_taken, inuse,
}
use fat32_reimplementation.Allocator.Slab.Classes.{class_size}
use fat32_reimplementation.Allocator.Slab.Powers.{room_class}
use fat32_reimplementation.Allocator.Slab.Objects.{IsSlab, IsPlaced, take_object-IsSlab}
use fat32_reimplementation.Allocator.Slab.Tables.{indices}
use fat32_reimplementation.Allocator.Slab.Caches.{
  get_or_create_cache-kept, find_slab-partial, take_object-num, settle_taken-kept,
}
use fat32_reimplementation.Allocator.Slab.Moves.{take_object-Same, take_object-elsewhere}
use fat32_reimplementation.Allocator.Slab.First.{IsServed, alloc-first, with_cache}

trailing_zeros-odd : (width n : ℕ) → n % 2 ≡ 1 → trailing_zeros (suc width) n ≡ 0
unfolding trailing_zeros
trailing_zeros-odd width n odd =
    let rest = trailing_zeros width (n / 2) in
    ap (λ (b : Bool). if b then 0 else rest + 1) (==-eq (n % 2) 1 odd)

trailing_zeros-even :
    (width n : ℕ) → n % 2 ≡ 0 → trailing_zeros (suc width) n ≡ trailing_zeros width (n / 2) + 1
unfolding trailing_zeros
trailing_zeros-even width n even =
    let rest = trailing_zeros width (n / 2) in
    ap (λ (b : Bool). if b then 0 else rest + 1) (ne→== (n % 2) 1 (omega (arith, even)))

-- The odd multiples of 8 belong to the class of 8.
class_index-eight : (n : ℕ) → n % 16 ≡ 8 → class_index n ≡ 0
unfolding class_index
class_index-eight n e =
    let first = trailing_zeros-even 63 n (omega (arith, e)) in
    let second = trailing_zeros-even 62 (n / 2) (omega (arith, e)) in
    let third = trailing_zeros-even 61 (n / 2 / 2) (omega (arith, e)) in
    let last = trailing_zeros-odd 60 (n / 2 / 2 / 2) (omega (arith, e)) in
    omega (arith, first, second, third, last)

-- A slab at the head of the partial slabs, as the only one, whose first free objects are known.
record IsOpen (m : Memory) (cache slab base size total : ℕ) (idle : List ℕ) : Type 0 where
  is_slab : IsSlab m slab cache base size total idle
  partial : Ring m (slabs_partial cache) (slab ∷ [])
  counted : m (num cache) ≡ total

-- One of several free objects is handed out.
alloc-IsOpen :
    (v : VirtAddrs) (allocator : SlabAllocator) (layout : Layout)
    (cache slab base size total i j : ℕ) (idle : List ℕ) (m : Memory)
    → 0 < layout.size
    → layout.size ≤ max_slab_size
    → get_elem? allocator.node_caches (class_index layout.size) ≡ some cache
    → cache ≢ null
    → IsPlaced slab cache total
    → IsOpen m cache slab base size total (i ∷ j ∷ idle)
    → (m' : Memory) × (alloc v allocator layout m ≡ done (base + i * size, allocator, m'))
      × IsOpen m' cache slab base size total (j ∷ idle)
unfolding alloc
alloc-IsOpen v allocator layout cache slab base size total i j idle m pos small at ne placed ready =
    let obj = base + i * size in
    let (m1, took, s1) =
      take_object-IsSlab m slab cache base size total i (j ∷ idle) placed ready.is_slab in
    let same_num : m1 (num cache) ≡ total =
      take_object-num m m1 slab cache total obj placed took ∙ ready.counted in
    let left : m1 (inuse slab) ≢ m1 (num cache) = omega (arith, s1.counted, same_num) in
    let far : Far (slabs_partial cache) slab = ground (arith, placed.elsewhere) in
    let head =
      take_object-Same m m1 slab cache obj (slabs_partial cache ∷ []) took
        (ground (arith, placed.elsewhere), tt) in
    let slab_same : Same m m1 slab = (
      take_object-elsewhere m m1 slab cache obj slab took (omega arith) (omega arith),
      take_object-elsewhere m m1 slab cache obj (slab + 8) took (omega arith) (omega arith),
    ) in
    (
      m1,
      rw (alloc, le→ltb max_slab_size layout.size small)
          (bind-done _ (get_or_create_cache-kept v allocator layout.size cache m pos at ne) (
            bind-done _ (find_slab-partial v allocator cache slab [] m far ready.partial) (
              ap (λ (p : ℕ × Memory). done (p.0, allocator, settle_taken slab cache p.1)) took
              ∙ ap (λ (n : Memory). done (obj, allocator, n))
                  (settle_taken-kept slab cache m1 left)))),
      record {
        is_slab = s1;
        counted = same_num;
        partial =
            Links-Same m m1 (slabs_partial cache) (slab ∷ []) (slabs_partial cache) head.0.0
              (slab_same, tt) head.0.1 ready.partial;
      },
    )

class_of_eight : (size : ℕ) → size ≡ 8 → class_size (room_class size) ≡ 8
unfolding room_class
class_of_eight size e = rw e refl

-- When the class of 8 bytes has no cache, with the two next pages, which are aligned, not the null
-- page, inside the heap and below 2 ^ 47: a request of 8 bytes, one of an odd multiple of 8, from 24
-- to 2048 bytes, and another of 8 bytes are all granted, 8 bytes after each other, so that the third
-- block ends inside the second.
pub alloc_overlaps :
    (v : VirtAddrs)
    → IsCanonical v
    → (allocator : SlabAllocator) (small large : Layout) (pages : PageAllocator) (m : Memory)
    → allocator.page_alloc ≡ some pages
    → pages.next % 4096 ≡ 0
    → 0 < pages.next
    → pages.next + 8192 ≤ pages.end
    → pages.next + 8192 < 2 ^ 47
    → small.size ≡ 8
    → large.size % 16 ≡ 8
    → 8 < large.size
    → large.size ≤ 2048
    → get_elem? allocator.node_caches 0 ≡ some null
    → (first second third : ℕ) × (allocator' : SlabAllocator) × (m1 m2 m3 : Memory) × (alloc v
          allocator small m
        ≡ done (first, allocator', m1))
      × (alloc v allocator' large m1 ≡ done (second, allocator', m2))
      × (alloc v allocator' small m2 ≡ done (third, allocator', m3))
      × (second ≡ first + 8)
      × (third ≡ second + 8)
      × (third + small.size ≤ second + large.size)
alloc_overlaps v canonical allocator small large pages m has aligned above room low eight odd more
      fits at =
    let cache = pages.next in
    let slab = pages.next + 4096 in
    let c0 = class_index-eight small.size (omega (arith, eight)) in
    let c1 = class_index-eight large.size odd in
    let (m1, base, size, got1, _, classed, served) =
      alloc-first v canonical allocator small pages m has aligned room low (omega (arith, eight))
        (omega (arith, eight)) (ap (get_elem? allocator.node_caches) c0 ∙ at) in
    let allocator' = with_cache allocator pages (class_index small.size) in
    let sized : size ≡ 8 = classed ∙ class_of_eight small.size eight in
    let total = objects_per_slab 8 in
    let served8 : IsServed m1 cache slab base 8 =
      subst (λ (s : ℕ). IsServed m1 cache slab base s) sized served in
    let placed : IsPlaced slab cache total = record {
      table = omega arith;
      elsewhere = inl (omega arith);
    } in
    let ready : IsOpen m1 cache slab base 8 total (1 ∷ 2 ∷ 3 ∷ indices 4 (total - 4)) = record {
      is_slab = served8.is_slab;
      partial = served8.partial;
      counted = served8.counted;
    } in
    let here : get_elem? allocator'.node_caches (class_index small.size) ≡ some cache =
      get_elem?-set_self allocator.node_caches (class_index small.size) cache (
        lt_of_get_elem? allocator.node_caches (class_index small.size) null
          (ap (get_elem? allocator.node_caches) c0 ∙ at)) in
    let there : get_elem? allocator'.node_caches (class_index large.size) ≡ some cache =
      ap (get_elem? allocator'.node_caches) (c1 ∙ sym c0) ∙ here in
    let (m2, got2, ready2) =
      alloc-IsOpen v allocator' large cache slab base 8 total 1 2 (3 ∷ indices 4 (total - 4)) m1
        (omega (arith, more)) (omega (arith, fits)) there (omega arith) placed ready in
    let (m3, got3, _) =
      alloc-IsOpen v allocator' small cache slab base 8 total 2 3 (indices 4 (total - 4)) m2
        (omega (arith, eight)) (omega (arith, eight)) here (omega arith) placed ready2 in
    (
      base,
      base + 1 * 8,
      base + 2 * 8,
      allocator',
      m1,
      m2,
      m3,
      got1,
      got2,
      got3,
      omega arith,
      omega arith,
      omega (arith, eight, odd, more),
    )
