-- ===== src/Allocator/Slab/Caches.antt =====
-- src/allocator/slab.rs: requests whose cache exists.
use native.Mathlib.Nat.{mul-lt-mul_of_pos_right}
use fat32_reimplementation.Base.{
  ℕ, ◌+◌, ◌*◌, ◌%◌, ◌^◌, ◌≤◌, ◌<◌, ◌≡◌, ◌≢◌, refl, sym, ap, ◌∙◌, List, ◌∷◌, All, length, arith,
  le→ltb, ne→==, get_elem?, some, unwrap, done, ◌>>=◌, bind-done,
}
use fat32_reimplementation.Allocator.{Layout}
use fat32_reimplementation.Allocator.Memory.{Memory, null}
use fat32_reimplementation.Allocator.Nodes.{list_empty}
use fat32_reimplementation.Allocator.Nodes.Ring.{Ring, Far}
use fat32_reimplementation.Allocator.Pages.{VirtAddrs}
use fat32_reimplementation.Allocator.Slab.{
  SlabAllocator, max_slab_size, class_index, get_or_create_cache, find_slab, take_object,
  settle_taken, settle_put, slab_of, alloc, dealloc, slabs_partial, num, inuse,
}
use fat32_reimplementation.Allocator.Slab.Objects.{
  IsSlab, IsPlaced, take_object-IsSlab, put_object-IsSlab,
}
use fat32_reimplementation.Allocator.Slab.Classes.{slab_of-page}

-- A cache that exists is returned for every size above 0 of its class, whatever the size of its
-- objects, and nothing changes.
pub get_or_create_cache-kept :
    (v : VirtAddrs) (allocator : SlabAllocator) (size cache : ℕ) (m : Memory)
    → 0 < size
    → get_elem? allocator.node_caches (class_index size) ≡ some cache
    → cache ≢ null
    → get_or_create_cache v allocator size m ≡ done (cache, allocator, m)
unfolding get_or_create_cache
get_or_create_cache-kept v allocator size cache m pos at ne =
    let there : unwrap (get_elem? allocator.node_caches (class_index size)) ≡ done cache =
      ap unwrap at in
    rw (get_or_create_cache, ne→== size 0 (omega arith))
      (bind-done _ there (rw (ne→== cache 0 ne) refl))

-- A cache with a partial slab uses it.
pub find_slab-partial :
    (v : VirtAddrs) (allocator : SlabAllocator) (cache slab : ℕ) (nodes : List ℕ) (m : Memory)
    → Far (slabs_partial cache) slab
    → Ring m (slabs_partial cache) (slab ∷ nodes)
    → find_slab v allocator cache m ≡ done (slab, allocator, m)
unfolding find_slab list_empty
find_slab-partial v allocator cache slab nodes m far ring =
    let head = slabs_partial cache in
    let other : m head ≢ head = ground arith in
    let first : m head ≡ slab = ring.0.0 in
    rw (find_slab, list_empty, ne→== (m head) head other)
      (ap (λ (k : ℕ). done (k, allocator, m)) first)

-- What is not in the slab's page is as before.
pub take_object-num :
    (m m' : Memory) (slab cache total obj : ℕ)
    → IsPlaced slab cache total
    → take_object slab cache m ≡ (obj, m')
    → m' (num cache) ≡ m (num cache)
unfolding take_object
take_object-num m m' slab cache total obj placed e =
    sym (ap (λ (p : ℕ × Memory). p.1 (num cache)) e) ∙ ground (arith, placed.elsewhere)

pub settle_taken-kept :
    (slab cache : ℕ) (m : Memory) → m (inuse slab) ≢ m (num cache) → settle_taken slab cache m ≡ m
unfolding settle_taken
settle_taken-kept slab cache m ne =
    rw (settle_taken, ne→== (m (inuse slab)) (m (num cache)) ne) refl

settle_put-kept :
    (slab cache : ℕ) (m : Memory)
    → m (inuse slab) + 1 ≢ m (num cache)
    → m (inuse slab) ≢ 0
    → settle_put slab cache m ≡ m
unfolding settle_put
settle_put-kept slab cache m ne ne0 =
    rw (settle_put, ne→== (m (inuse slab) + 1) (m (num cache)) ne, ne→== (m (inuse slab)) 0 ne0)
      refl

module _ (v : VirtAddrs) (allocator : SlabAllocator) (layout : Layout)
    (cache slab base size total i j : ℕ) (idle : List ℕ) (m : Memory) (pos : 0 < layout.size)
    (small : layout.size ≤ max_slab_size)
    (at : get_elem? allocator.node_caches (class_index layout.size) ≡ some cache)
    (ne : cache ≢ null) (placed : IsPlaced slab cache total) (count : m (num cache) ≡ total) where
  -- When two objects or more of the slab at the head of the partial slabs are free: `alloc`
  -- returns the address of the first one, and leaves the allocator and the other free objects as
  -- they are.
  pub alloc-partial :
      (nodes : List ℕ)
      → Ring m (slabs_partial cache) (slab ∷ nodes)
      → IsSlab m slab cache base size total (i ∷ j ∷ idle)
      → (m' : Memory) × (alloc v allocator layout m ≡ done (base + i * size, allocator, m'))
        × IsSlab m' slab cache base size total (j ∷ idle)
        × (m' (num cache) ≡ total)
  unfolding alloc
  alloc-partial nodes ring s =
      let (m', e, s') = take_object-IsSlab m slab cache base size total i (j ∷ idle) placed s in
      let same : m' (num cache) ≡ total =
        take_object-num m m' slab cache total (base + i * size) placed e ∙ count in
      let left : m' (inuse slab) ≢ m' (num cache) = omega (arith, s'.counted, same) in
      let far : Far (slabs_partial cache) slab = ground (arith, placed.elsewhere) in
      (
        m',
        rw (alloc, le→ltb max_slab_size layout.size small)
            (bind-done _ (get_or_create_cache-kept v allocator layout.size cache m pos at ne) (
              bind-done _ (find_slab-partial v allocator cache slab nodes m far ring) (
                ap (λ (p : ℕ × Memory). done (p.0, allocator, settle_taken slab cache p.1)) e
                ∙ ap (λ (n : Memory). done (base + i * size, allocator, n))
                    (settle_taken-kept slab cache m' left)))),
        s',
        same,
      )

  -- When object `i` is in use, and another one is in use and one is free: `dealloc` of its address
  -- finds the slab and does not panic, and the object is then the first free one; the slab stays
  -- in its list.
  pub dealloc-partial :
      slab % 4096 ≡ 0
      → 0 < slab
      → slab + 4096 < 2 ^ 64
      → slab ≤ base
      → base + total * size ≤ slab + 4096
      → 0 < size
      → i < total
      → All (λ k. i ≢ k) (j ∷ idle)
      → length (j ∷ idle) + 1 < total
      → IsSlab m slab cache base size total (j ∷ idle)
      → (m' : Memory) × (dealloc v allocator (base + i * size) layout m ≡ done (allocator, m'))
        × IsSlab m' slab cache base size total (i ∷ j ∷ idle)
  unfolding dealloc
  dealloc-partial aligned low high from to wide lt fresh room s =
      let (m', e, s', away) =
        put_object-IsSlab m slab cache base size total i (j ∷ idle) placed wide lt fresh
          (omega (arith, room)) s in
      let kept = away (num cache) (ground (arith, placed.elsewhere)) in
      let inside : base + i * size < slab + 4096 =
        omega (arith, mul-lt-mul_of_pos_right lt wide, to) in
      let page : slab_of (base + i * size) ≡ slab =
        slab_of-page slab (base + i * size) aligned (omega arith) inside (omega arith) in
      (
        m',
        rw
            (
              dealloc,
              le→ltb max_slab_size layout.size small,
              ne→== (base + i * size) null (omega arith),
            )
            (bind-done _ (get_or_create_cache-kept v allocator layout.size cache m pos at ne) (
              rw page (
                bind-done _ e (
                  ap (λ (n : Memory). done (allocator, n))
                    (settle_put-kept slab cache m' (omega (arith, s'.counted, kept, count))
                      (omega (arith, s'.counted, room))))))),
        s',
      )

-- A request of 1 to 2048 bytes whose cache exists, with a slab of that cache at the head of its
-- partial slabs, in an aligned page of the address space that is not the null page; the objects
-- lie in the page and the cache elsewhere, two objects or more are free and one or more in use:
-- `alloc`, and then `dealloc` of what it returned, do not panic, leave the allocator as it was,
-- and the same free objects in the same order.
pub alloc-dealloc :
    (v : VirtAddrs) (allocator : SlabAllocator) (layout : Layout)
    → (cache slab base size total i j : ℕ) (idle nodes : List ℕ) (m : Memory) → 0 < layout.size
    → layout.size ≤ max_slab_size
    → get_elem? allocator.node_caches (class_index layout.size) ≡ some cache
    → cache ≢ null
    → IsPlaced slab cache total
    → m (num cache) ≡ total
    → Ring m (slabs_partial cache) (slab ∷ nodes)
    → IsSlab m slab cache base size total (i ∷ j ∷ idle)
    → slab % 4096 ≡ 0
    → 0 < slab
    → slab + 4096 < 2 ^ 64
    → slab ≤ base
    → base + total * size ≤ slab + 4096
    → 0 < size
    → length (i ∷ j ∷ idle) < total
    → (m' : Memory) × ((alloc v allocator layout m >>= λ (ptr, allocator', m1).
          dealloc v allocator' ptr layout m1)
        ≡ done (allocator, m'))
      × IsSlab m' slab cache base size total (i ∷ j ∷ idle)
alloc-dealloc v allocator layout cache slab base size total i j idle nodes m pos small at ne placed
      count ring s aligned low high from to wide room =
    let (m1, e, s1, count1) =
      alloc-partial v allocator layout cache slab base size total i j idle m pos small at ne placed
        count nodes ring s in
    let (m2, e2, s2) =
      dealloc-partial v allocator layout cache slab base size total i j idle m1 pos small at ne
        placed count1 aligned low high from to wide s.known.0 s.distinct.0 (omega (arith, room))
        s1 in
    (m2, bind-done _ e e2, s2)
