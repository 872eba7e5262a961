-- ===== src/Allocator/Slab/First.antt =====
-- `alloc` for a class without a cache.
use mathlib.Core.Path.{subst}
use fat32_reimplementation.Base.{
  ℕ, zero, suc, ◌+◌, ◌-◌, ◌*◌, ◌%◌, ◌^◌, ◌≤◌, ◌<◌, ◌≡◌, refl, ap, ◌∙◌, List, [], ◌∷◌, get_elem?,
  some, done, bind-done, arith, le→ltb, inl, Bool, true, leb,
}
use fat32_reimplementation.Base.Chunks.{set}
use fat32_reimplementation.Allocator.{Layout}
use fat32_reimplementation.Allocator.Memory.{Memory, null}
use fat32_reimplementation.Allocator.Nodes.Ring.{Ring, Same, Links-Same}
use fat32_reimplementation.Allocator.Pages.{VirtAddrs, IsCanonical, PageAllocator}
use fat32_reimplementation.Allocator.Slab.{
  SlabAllocator, max_slab_size, class_index, objects_per_slab, obj_start, alloc, num, write_cache,
  slabs_partial, slabs_free, settle_taken, take_object,
}
use fat32_reimplementation.Allocator.Slab.Objects.{IsSlab, IsPlaced, take_object-IsSlab}
use fat32_reimplementation.Allocator.Slab.Classes.{
  class_size, class-IsRoomy, all_below, all_below_sound,
}
use fat32_reimplementation.Allocator.Slab.Powers.{room_class, next_power_of_two-class}
use fat32_reimplementation.Allocator.Slab.Tables.{indices, length-indices}
use fat32_reimplementation.Allocator.Slab.Caches.{take_object-num, settle_taken-kept}
use fat32_reimplementation.Allocator.Slab.Moves.{take_object-Same, take_object-elsewhere}
use fat32_reimplementation.Allocator.Slab.Fresh.{
  paged, get_or_create_cache-made, write_cache-fields,
}
use fat32_reimplementation.Allocator.Slab.Finding.{find_slab-grown}

-- The classes up to 1024 have two objects or more in a slab.
two_objects : ℕ → Bool
two_objects idx = leb 2 (objects_per_slab (class_size idx))

two_objects_all : all_below 8 two_objects ≡ true
unfolding all_below two_objects
two_objects_all = refl

two_objects-le : (idx : ℕ) → idx < 8 → 2 ≤ objects_per_slab (class_size idx)
unfolding two_objects
two_objects-le idx lt = ground (arith, all_below_sound 8 two_objects idx two_objects_all lt)

room_class-small : (size : ℕ) → size ≤ 1024 → room_class size < 8
unfolding room_class
room_class-small size le = ground arith

-- The allocator with its class's cache on one page and a slab behind it.
abbrev pub with_cache : SlabAllocator → PageAllocator → ℕ → SlabAllocator
with_cache allocator pages idx = record allocator {
  page_alloc = some (record pages { next = pages.next + 8192 });
  node_caches = set allocator.node_caches idx pages.next;
}

pub split_indices : (total : ℕ) → 2 ≤ total → indices 0 total ≡ 0 ∷ indices 1 (total - 1)
split_indices zero two = absurd (omega arith)
split_indices (suc total) two =
    let e : total ≡ suc total - 1 = omega arith in ap (λ (n : ℕ). 0 ∷ indices 1 n) e

-- The first object of a slab is taken.
pub taken_first :
    (m : Memory) (slab cache base size total : ℕ)
    → IsPlaced slab cache total
    → 2 ≤ total
    → m (num cache) ≡ total
    → Ring m (slabs_partial cache) (slab ∷ [])
    → Ring m (slabs_free cache) []
    → IsSlab m slab cache base size total (indices 0 total)
    → (m1 : Memory) × (take_object slab cache m ≡ (base, m1))
      × (settle_taken slab cache m1 ≡ m1)
      × (m1 (num cache) ≡ total)
      × Ring m1 (slabs_partial cache) (slab ∷ [])
      × Ring m1 (slabs_free cache) []
      × IsSlab m1 slab cache base size total (indices 1 (total - 1))
taken_first m slab cache base size total placed two count ring frees s =
    let s0 : IsSlab m slab cache base size total (0 ∷ indices 1 (total - 1)) =
      subst (λ (l : List ℕ). IsSlab m slab cache base size total l) (split_indices total two) s in
    let (m1, took, s1) =
      take_object-IsSlab m slab cache base size total 0 (indices 1 (total - 1)) placed s0 in
    let obj = base + 0 * size in
    let first : obj ≡ base = omega arith in
    let same_num : m1 (num cache) ≡ total =
      take_object-num m m1 slab cache total obj placed took ∙ count in
    let head =
      take_object-Same m m1 slab cache obj (slabs_partial cache ∷ slabs_free cache ∷ []) took
        (ground (arith, placed.elsewhere), (ground (arith, placed.elsewhere), tt)) in
    let slab_same : Same m m1 slab = (
      take_object-elsewhere m m1 slab cache obj slab took (omega arith) (omega arith),
      take_object-elsewhere m m1 slab cache obj (slab + 8) took (omega arith) (omega arith),
    ) in
    (
      m1,
      took ∙ ap (λ (p : ℕ). (p, m1)) first,
      settle_taken-kept slab cache m1
          (omega (arith, s1.counted, length-indices 1 (total - 1), same_num)),
      same_num,
      Links-Same m m1 (slabs_partial cache) (slab ∷ []) (slabs_partial cache) head.0.0
          (slab_same, tt) head.0.1 ring,
      Links-Same m m1 (slabs_free cache) [] (slabs_free cache) head.1.0.0 tt head.1.0.1 frees,
      s1,
    )

-- What the first request of a class leaves: the block that it got lies in a slab of its own page, in
-- which the other objects are free.
pub record IsServed (m : Memory) (cache slab base size : ℕ) : Type 0 where
  pub two : 2 ≤ objects_per_slab size
  pub is_slab :
      IsSlab m slab cache base size (objects_per_slab size) (indices 1 (objects_per_slab size - 1))
  pub partial : Ring m (slabs_partial cache) (slab ∷ [])
  pub frees : Ring m (slabs_free cache) []
  pub counted : m (num cache) ≡ objects_per_slab size
  pub aligned : base % 8 ≡ 0
  pub behind_table : slab + 40 + objects_per_slab size * 4 ≤ base
  pub in_page : base + objects_per_slab size * size ≤ slab + 4096

-- For a size from 1 to 1024 whose class has no cache, with the two next pages, which are aligned,
-- inside the heap and below 2 ^ 47: `alloc` does not panic. The cache is made on the first page and
-- a slab on the second, the returned address is that of its first object, a multiple of 8, and
-- behind it lie as many bytes as its class has, which are as many as asked for, inside the page; the other objects of the slab are
-- free, and it is the only partial slab of the cache,
-- which has no free slab.
pub alloc-first :
    (v : VirtAddrs)
    → IsCanonical v
    → (allocator : SlabAllocator) (layout : Layout) (pages : PageAllocator) (m : Memory)
    → allocator.page_alloc ≡ some pages
    → pages.next % 4096 ≡ 0
    → pages.next + 8192 ≤ pages.end
    → pages.next + 8192 < 2 ^ 47
    → 0 < layout.size
    → layout.size ≤ 1024
    → get_elem? allocator.node_caches (class_index layout.size) ≡ some null
    → (m' : Memory) × (base size : ℕ) × (alloc v allocator layout m
        ≡ done (base, with_cache allocator pages (class_index layout.size), m'))
      × (layout.size ≤ size)
      × (size ≡ class_size (room_class layout.size))
      × IsServed m' pages.next (pages.next + 4096) base size
unfolding alloc
alloc-first v canonical allocator layout pages m has aligned room low pos small at =
    let cache = pages.next in
    let slab = pages.next + 4096 in
    let idx = class_index layout.size in
    let rank = room_class layout.size in
    let power = class_size rank in
    let total = objects_per_slab power in
    let (rounded, lt, fits) = next_power_of_two-class layout.size pos (omega arith) in
    let two = two_objects-le rank (room_class-small layout.size small) in
    let roomy = class-IsRoomy slab rank lt (omega arith) (omega arith) in
    let m1 = write_cache cache power idx m in
    let (sized, counted, fulls, partials, frees) = write_cache-fields cache power idx m in
    let made =
      get_or_create_cache-made v canonical allocator pages has (omega arith) (omega arith)
        layout.size power m pos at rounded in
    let pages1 = record pages { next = pages.next + 4096 } in
    let allocator1 = record (paged allocator pages) {
      node_caches = set allocator.node_caches idx pages.next;
    } in
    let after : pages.next + 4096 + 4096 ≡ pages.next + 8192 = omega arith in
    let placed : IsPlaced slab cache total = record {
      table = roomy.table;
      elsewhere = inl (omega arith);
    } in
    let (m2, found, f, numbered) =
      find_slab-grown v canonical allocator1 pages1 refl (omega arith) (omega arith) cache power
        total m1 placed (omega (arith, two)) counted sized partials frees in
    let base = obj_start slab total in
    let (m3, took, settled, same_num, partial, frees_left, s) =
      taken_first m2 slab cache base power total placed two numbered f.partial f.frees_left
        f.is_slab in
    (
      m3,
      base,
      power,
      rw (alloc, le→ltb max_slab_size layout.size (omega arith))
          (bind-done _ made (
            bind-done _ found (
              ap
                (λ (p : ℕ × Memory).
                  done (p.0, paged allocator1 pages1, settle_taken slab cache p.1))
                took
              ∙ ap (λ (n : Memory). done (base, paged allocator1 pages1, n)) settled
              ∙ ap
                  (λ (k : ℕ).
                    done (
                      base,
                      record allocator1 { page_alloc = some (record pages { next = k }) },
                      m3,
                    ))
                  after))),
      fits,
      refl,
      record {
        two = two;
        is_slab = s;
        partial = partial;
        frees = frees_left;
        counted = same_num;
        aligned = roomy.aligned;
        behind_table = roomy.behind_table;
        in_page = roomy.in_page;
      },
    )
