-- ===== src/Allocator/Slab/Finding.antt =====
-- The slab that `alloc` takes an object of, when no slab is partial.
use fat32_reimplementation.Base.{
  ℕ, ◌+◌, ◌^◌, ◌≤◌, ◌<◌, ◌≡◌, ap, ◌∙◌, List, [], ◌∷◌, All, some, done, inl, ◌⊎◌, bind-done, arith,
  ==-eq, ne→==, true, false,
}
use fat32_reimplementation.Allocator.Memory.{Memory}
use fat32_reimplementation.Allocator.Nodes.{list_add, list_del, list_empty}
use fat32_reimplementation.Allocator.Nodes.Ring.{Ring, Far}
use fat32_reimplementation.Allocator.Nodes.Moving.{AreApart, move-Ring}
use fat32_reimplementation.Allocator.Pages.{VirtAddrs, IsCanonical, PageAllocator}
use fat32_reimplementation.Allocator.Slab.{
  SlabAllocator, find_slab, write_slab, slabs_partial, slabs_free, num, obj_size, obj_start,
}
use fat32_reimplementation.Allocator.Slab.Objects.{IsSlab, IsPlaced}
use fat32_reimplementation.Allocator.Slab.Tables.{indices}
use fat32_reimplementation.Allocator.Slab.Growing.{write_slab-IsSlab, write_slab-elsewhere}
use fat32_reimplementation.Allocator.Slab.Moves.{IsClear, moved-IsSlab, moved-num}
use fat32_reimplementation.Allocator.Slab.Fresh.{paged, cache_grow-next}

empty_ring : (m : Memory) (head : ℕ) → Ring m head [] → list_empty head m ≡ true
unfolding list_empty
empty_ring m head ring = ==-eq (m head) head ring.0

full_ring :
    (m : Memory) (head slab : ℕ) (nodes : List ℕ)
    → Far head slab
    → Ring m head (slab ∷ nodes)
    → list_empty head m ≡ false
unfolding list_empty
full_ring m head slab nodes far ring = ne→== (m head) head (ground (arith, ring.0.0))

-- A slab of the free ones becomes the only partial one.
pub record IsFound (m : Memory) (slab cache base size total : ℕ) (idle frees : List ℕ) (m' : Memory)
    : Type 0 where
  pub is_slab : IsSlab m' slab cache base size total idle
  pub frees_left : Ring m' (slabs_free cache) frees
  pub partial : Ring m' (slabs_partial cache) (slab ∷ [])
  pub same_num : m' (num cache) ≡ m (num cache)

module _ (slab cache base size total : ℕ) (idle frees : List ℕ) (m : Memory)
    (placed : IsPlaced slab cache total)
    (apart : AreApart (slabs_free cache) slab frees (slabs_partial cache) [])
    (clear : All (IsClear slab cache) frees) (ring : Ring m (slabs_free cache) (slab ∷ frees))
    (none_partial : Ring m (slabs_partial cache) [])
    (s : IsSlab m slab cache base size total idle) where
  abbrev pub moved : Memory
  moved = list_add slab (slabs_partial cache) (list_del slab m)

  moved-IsFound : IsFound m slab cache base size total idle frees moved
  moved-IsFound =
      let from = slabs_free cache in
      let to = slabs_partial cache in
      let (left, entered) = move-Ring m from slab frees to [] apart ring none_partial in
      record {
        is_slab =
            moved-IsSlab slab cache total placed m from to frees [] (omega arith, omega arith)
              (omega arith, omega arith) apart ring none_partial clear tt base size idle s;
        frees_left = left;
        partial = entered;
        same_num =
            moved-num slab cache total placed m from to frees [] (omega arith, omega arith)
              (omega arith, omega arith) apart ring none_partial clear tt;
      }

  pub find_slab-free :
      (v : VirtAddrs) (allocator : SlabAllocator)
      → (m' : Memory) × (find_slab v allocator cache m ≡ done (slab, allocator, m'))
        × IsFound m slab cache base size total idle frees m'
  unfolding find_slab
  find_slab-free v allocator = (
    moved,
    rw
        (
          find_slab,
          empty_ring m (slabs_partial cache) none_partial,
          full_ring m (slabs_free cache) slab frees apart.first_list.0.0 ring,
        )
        (ap (λ (k : ℕ). done (k, allocator, list_add k (slabs_partial cache) (list_del k m)))
          ring.0.0),
    moved-IsFound,
  )

-- A cache without a free slab gets one on the next page.
module _ (v : VirtAddrs) (canonical : IsCanonical v) (allocator : SlabAllocator)
    (pages : PageAllocator) (has : allocator.page_alloc ≡ some pages)
    (room : pages.next + 4096 ≤ pages.end) (low : pages.next + 4096 < 2 ^ 47) (cache size total : ℕ)
    (m : Memory) (placed : IsPlaced pages.next cache total) (pos : 0 < total)
    (counted : m (num cache) ≡ total) (sized : m (obj_size cache) ≡ size)
    (none_partial : Ring m (slabs_partial cache) [])
    (none_free : Ring m (slabs_free cache) []) where
  abbrev pub grown : Memory
  grown = write_slab pages.next cache m

  grown_partial : Ring grown (slabs_partial cache) []
  grown_partial =
      let kept = λ (a : ℕ) (out : (a < pages.next) ⊎ (pages.next + 4096 ≤ a)).
        write_slab-elsewhere m pages.next cache total a placed counted none_free out in
      (
        kept (slabs_partial cache) (ground (arith, placed.elsewhere)) (omega arith) (omega arith)
            ∙ none_partial.0,
        kept (slabs_partial cache + 8) (ground (arith, placed.elsewhere)) (omega arith)
              (omega arith)
            ∙ none_partial.1,
      )

  grown-num : grown (num cache) ≡ total
  grown-num =
      write_slab-elsewhere m pages.next cache total (num cache) placed counted none_free
        (ground (arith, placed.elsewhere)) (omega arith) (omega arith)
      ∙ counted

  pub find_slab-grown :
      (m' : Memory) × (find_slab v allocator cache m ≡ done (pages.next, paged allocator pages, m'))
      × IsFound grown pages.next cache
          (obj_start pages.next total)
          size
          total
          (indices 0 total)
          []
          m'
      × (m' (num cache) ≡ total)
  unfolding find_slab
  find_slab-grown =
      let slab = pages.next in
      let (s, ring) =
        write_slab-IsSlab m slab cache size total [] placed pos counted sized (tt, tt) tt
          none_free in
      let apart : AreApart (slabs_free cache) slab [] (slabs_partial cache) [] = record {
        first_list = ((ground (arith, placed.elsewhere), tt), (tt, tt));
        second_list = (tt, tt);
        between = ((inl (omega arith), (ground (arith, placed.elsewhere), tt)), tt);
      } in
      let base = obj_start slab total in
      let found =
        moved-IsFound slab cache base size total (indices 0 total) [] grown placed apart tt ring
          grown_partial s in
      (
        moved slab cache base size total (indices 0 total) [] grown placed apart tt ring
            grown_partial s,
        rw (find_slab, empty_ring m (slabs_partial cache) none_partial)
            (rw (empty_ring m (slabs_free cache) none_free) (
              bind-done _ (cache_grow-next v canonical allocator pages has room low cache m) (
                ap
                  (λ (k : ℕ).
                    done (
                      k,
                      paged allocator pages,
                      list_add k (slabs_partial cache) (list_del k grown),
                    ))
                  ring.0.0))),
        found,
        found.same_num ∙ grown-num,
      )
