-- ===== src/Allocator/Slab/Full.antt =====
-- Slabs that go to the full slabs.
use fat32_reimplementation.Base.{
  All-map, ℕ, ◌+◌, ◌*◌, ◌≤◌, ◌<◌, ◌≡◌, ◌≢◌, ap, ◌∙◌, List, [], ◌∷◌, All, get_elem?, some, done,
  bind-done, arith, le→ltb,
}
use fat32_reimplementation.Allocator.{Layout}
use fat32_reimplementation.Allocator.Memory.{Memory, null}
use fat32_reimplementation.Allocator.Nodes.{list_add, list_del}
use fat32_reimplementation.Allocator.Nodes.Ring.{Ring, Far, Same, Links-Same}
use fat32_reimplementation.Allocator.Nodes.Moving.{AreApart, move-Ring}
use fat32_reimplementation.Allocator.Pages.{VirtAddrs}
use fat32_reimplementation.Allocator.Slab.{
  SlabAllocator, alloc, class_index, inuse, max_slab_size, num, settle_taken, slabs_full,
  slabs_partial,
}
use fat32_reimplementation.Allocator.Slab.Objects.{IsSlab, IsPlaced, take_object-IsSlab}
use fat32_reimplementation.Allocator.Slab.Growing.{Outside}
use fat32_reimplementation.Allocator.Slab.Caches.{
  get_or_create_cache-kept, find_slab-partial, take_object-num,
}
use fat32_reimplementation.Allocator.Slab.Moves.{
  IsClear, moved-IsSlab, take_object-elsewhere, take_object-Same, settle_taken-full,
}

-- A request of 1 to 2048 bytes whose cache exists, with one free object left in the slab at the head
-- of its partial slabs; the slab's page, the cache and the other slabs of the two lists lie apart:
-- `alloc` does not panic, returns the address of that object and leaves the allocator as it was; no
-- object of the slab is then free, and the slab stands first among the full slabs, while the other
-- slabs of both lists stay in their order.
pub alloc-full :
    (v : VirtAddrs) (allocator : SlabAllocator) (layout : Layout) (cache slab base size total i : ℕ)
    → (nodes fulls : List ℕ) (m : Memory) → 0 < layout.size
    → layout.size ≤ max_slab_size
    → get_elem? allocator.node_caches (class_index layout.size) ≡ some cache
    → cache ≢ null
    → IsPlaced slab cache total
    → m (num cache) ≡ total
    → AreApart (slabs_partial cache) slab nodes (slabs_full cache) fulls
    → All (IsClear slab cache) nodes
    → All (IsClear slab cache) fulls
    → Ring m (slabs_partial cache) (slab ∷ nodes)
    → Ring m (slabs_full cache) fulls
    → IsSlab m slab cache base size total (i ∷ [])
    → (m' : Memory) × (alloc v allocator layout m ≡ done (base + i * size, allocator, m'))
      × IsSlab m' slab cache base size total []
      × Ring m' (slabs_partial cache) nodes
      × Ring m' (slabs_full cache) (slab ∷ fulls)
unfolding alloc
alloc-full v allocator layout cache slab base size total i nodes fulls m pos small at ne placed
      count apart clear clear' ring ring' s =
    let (m1, e, s1) = take_object-IsSlab m slab cache base size total i [] placed s in
    let obj = base + i * size in
    let all_used : m1 (inuse slab) ≡ m1 (num cache) =
      omega (arith, s1.counted, take_object-num m m1 slab cache total obj placed e, count) in
    let head_same =
      take_object-Same m m1 slab cache obj (slabs_partial cache ∷ slabs_full cache ∷ []) e
        (ground (arith, placed.elsewhere), (ground (arith, placed.elsewhere), tt)) in
    let outer = λ (ns : List ℕ) (h : All (IsClear slab cache) ns).
      take_object-Same m m1 slab cache obj ns e
        (All-map (IsClear slab cache) (Outside slab) ns (λ n k. k.0) h) in
    let slab_same : Same m m1 slab = (
      take_object-elsewhere m m1 slab cache obj slab e (omega arith) (omega arith),
      take_object-elsewhere m m1 slab cache obj (slab + 8) e (omega arith) (omega arith),
    ) in
    let ring1 : Ring m1 (slabs_partial cache) (slab ∷ nodes) =
      Links-Same m m1 (slabs_partial cache) (slab ∷ nodes) (slabs_partial cache) head_same.0.0
        (slab_same, outer nodes clear) head_same.0.1 ring in
    let ring1' : Ring m1 (slabs_full cache) fulls =
      Links-Same m m1 (slabs_full cache) fulls (slabs_full cache) head_same.1.0.0
        (outer fulls clear') head_same.1.0.1 ring' in
    let far : Far (slabs_partial cache) slab = apart.first_list.0.0 in
    let (left, entered) =
      move-Ring m1 (slabs_partial cache) slab nodes (slabs_full cache) fulls apart ring1 ring1' in
    (
      list_add slab (slabs_full cache) (list_del slab m1),
      rw (alloc, le→ltb max_slab_size layout.size small)
          (bind-done _ (get_or_create_cache-kept v allocator layout.size cache m pos at ne) (
            bind-done _ (find_slab-partial v allocator cache slab nodes m far ring) (
              ap (λ (p : ℕ × Memory). done (p.0, allocator, settle_taken slab cache p.1)) e
              ∙ ap (λ (n : Memory). done (obj, allocator, n))
                  (settle_taken-full slab cache m1 all_used)))),
      moved-IsSlab slab cache total placed m1 (slabs_partial cache) (slabs_full cache) nodes fulls
          (omega arith, omega arith) (omega arith, omega arith) apart ring1 ring1' clear clear' base
          size [] s1,
      left,
      entered,
    )
