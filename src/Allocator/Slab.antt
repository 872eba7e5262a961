-- ===== src/Allocator/Slab.antt =====
-- src/allocator/slab.rs: caches, slabs and the global allocator. Structures lie in the memory of
-- Allocator/Memory.antt, at the offsets of `repr(C)`; sums of addresses inside a page are plain sums,
-- since a page ends inside the address space. A null pointer is 0.
pub mod Classes
pub mod Objects
pub mod Tables
pub mod Growing
pub mod Caches
pub mod Moves
pub mod Full
pub mod Powers
pub mod Fresh
pub mod Cycle
pub mod Sharing
pub mod Leaving
pub mod First
pub mod Finding
use fat32_reimplementation.Base.{
  ℕ, zero, suc, ◌+◌, ◌-◌, ◌*◌, ◌/◌, ◌%◌, ◌^◌, max, bit_and, List, [], ◌∷◌, get_elem?, replicate,
  ltb, leb, ◌==◌, ◌||◌, if◌then◌else◌, Bool, true, false, Option, none, some, Run, done, panic,
  ◌>>=◌, unwrap,
}
use fat32_reimplementation.Base.Chunks.{set}
use fat32_reimplementation.Allocator.{Layout}
use fat32_reimplementation.Allocator.Memory.{Memory, null, store}
use fat32_reimplementation.Allocator.Nodes as Nodes
use fat32_reimplementation.Allocator.Nodes.{next_of, list_add, list_del, list_empty}
use fat32_reimplementation.Allocator.Pages.{page_size, VirtAddrs, PageAllocator, alloc_pages}

abbrev pub max_slab_size : ℕ
max_slab_size = 2048

abbrev pub max_classes : ℕ
max_classes = 9

-- `BufCtl` is a `u32`.
abbrev pub buf_ctl_size : ℕ
buf_ctl_size = 4

-- `BufCtl::END`.
abbrev pub buf_ctl_end : ℕ
buf_ctl_end = 0xFFFF_FFFF

-- The fields of a `Slab`, behind its `list` at offset 0.
abbrev pub s_mem : ℕ → ℕ
s_mem slab = slab + 16

abbrev pub free : ℕ → ℕ
free slab = slab + 24

abbrev pub inuse : ℕ → ℕ
inuse slab = slab + 32

-- `size_of::<Slab>()`.
abbrev pub slab_size : ℕ
slab_size = 40

-- The entry of an object in the table behind a slab.
abbrev pub buf_ctl : ℕ → ℕ → ℕ
buf_ctl slab i = slab + slab_size + i * buf_ctl_size

-- The fields of a `Cache`.
abbrev pub slabs_full : ℕ → ℕ
slabs_full cache = cache

abbrev pub slabs_partial : ℕ → ℕ
slabs_partial cache = cache + 16

abbrev pub slabs_free : ℕ → ℕ
slabs_free cache = cache + 32

abbrev pub obj_size : ℕ → ℕ
obj_size cache = cache + 48

abbrev pub num : ℕ → ℕ
num cache = cache + 56

abbrev pub name : ℕ → ℕ
name cache = cache + 64

pub record SlabAllocator : Type 0 where
  pub page_alloc : Option PageAllocator
  pub node_caches : List ℕ

-- `SlabAllocator::new`.
abbrev pub new : SlabAllocator
new = record { page_alloc = none; node_caches = replicate max_classes null }

-- The number of zeros below the lowest bit of `n` that is set, up to `width`.
unfoldable pub trailing_zeros : ℕ → ℕ → ℕ
trailing_zeros zero n = 0
trailing_zeros (suc width) n =
    let rest = trailing_zeros width (n / 2) in if n % 2 == 1 then 0 else rest + 1

-- `usize::next_power_of_two`, from the power `p` on; it panics when the power leaves the type.
unfoldable pub next_power_from : ℕ → ℕ → ℕ → Run ℕ
next_power_from zero p n = panic
next_power_from (suc left) p n =
    let rest = next_power_from left (2 * p) n in if leb n p then done p else rest

unfoldable pub next_power_of_two : ℕ → Run ℕ
unfolding next_power_from
next_power_of_two n = next_power_from 64 1 n

-- The index of the cache for a size: `saturating_sub` stops at 0.
unfoldable pub class_index : ℕ → ℕ
unfolding trailing_zeros
class_index size = trailing_zeros 64 size - 3

-- The name of a cache, as its index in CACHE_NAMES, or 9 for "size-large".
abbrev pub cache_name : ℕ → ℕ
cache_name idx = if ltb idx max_classes then idx else max_classes

-- How many objects of a size a slab has room for.
abbrev pub objects_per_slab : ℕ → ℕ
objects_per_slab size = (page_size - slab_size) / (size + buf_ctl_size)

-- The `Cache` that is written to a fresh page.
unfoldable pub write_cache : ℕ → ℕ → ℕ → Memory → Memory
unfolding Nodes.init
write_cache cache size idx m =
    let m1 = store m (obj_size cache) size in
    let m2 = store m1 (num cache) (objects_per_slab size) in
    let m3 = store m2 (name cache) (cache_name idx) in
    let m0 =
      Nodes.clear (slabs_free cache)
        (Nodes.clear (slabs_partial cache) (Nodes.clear (slabs_full cache) m3)) in
    let m4 = Nodes.init (slabs_full cache) m0 in
    let m5 = Nodes.init (slabs_partial cache) m4 in Nodes.init (slabs_free cache) m5

-- The table of a fresh slab: each entry names the next one. `count` rounds are left.
unfoldable pub fill_table : ℕ → ℕ → ℕ → ℕ → Memory → Memory
fill_table zero i total slab m = m
fill_table (suc count) i total slab m =
    fill_table count (i + 1) total slab
      (store m (buf_ctl slab i) (if i + 1 == total then buf_ctl_end else (i + 1) % 2 ^ 32))

-- Where the objects of a slab begin: behind the table, at a multiple of 8.
unfoldable pub obj_start : ℕ → ℕ → ℕ
obj_start slab total = bit_and (slab + slab_size + total * buf_ctl_size + 8 - 1) (2 ^ 64 - 8)

-- `cache_grow` behind the page allocation.
unfoldable pub write_slab : ℕ → ℕ → Memory → Memory
unfolding obj_start fill_table list_add
write_slab slab cache m =
    let total = m (num cache) in
    let m1 = store (Nodes.clear slab m) (s_mem slab) (obj_start slab total) in
    let m2 = store m1 (free slab) 0 in
    let m3 = store m2 (inuse slab) 0 in
    list_add slab (slabs_free cache) (fill_table total 0 total slab m3)

-- One object of a slab is taken. The second part of `alloc`, up to the move to the full slabs.
unfoldable pub take_object : ℕ → ℕ → Memory → ℕ × Memory
take_object slab cache m =
    let obj_idx = m (free slab) in
    let obj = m (s_mem slab) + obj_idx * m (obj_size cache) in
    let m1 = store m (free slab) (m (buf_ctl slab obj_idx)) in
    (obj, store m1 (inuse slab) (m1 (inuse slab) + 1))

-- The slab of a pointer: the page it lies in.
unfoldable pub slab_of : ℕ → ℕ
slab_of ptr = bit_and ptr (2 ^ 64 - page_size)

-- An object comes back to its slab: the index of the object is in front of the others.
unfoldable pub put_index : ℕ → ℕ → Memory → Run Memory
put_index slab obj_idx m =
    let m1 = store m (buf_ctl slab obj_idx) (m (free slab)) in
    let m2 = store m1 (free slab) (obj_idx % 2 ^ 32) in
    if m2 (inuse slab) == 0 then panic else done (store m2 (inuse slab) (m2 (inuse slab) - 1))

-- The first part of `dealloc`, up to the moves between the lists. A difference below 0 and a
-- division by 0 are panics.
unfoldable pub put_object : ℕ → ℕ → ℕ → Memory → Run Memory
unfolding put_index
put_object ptr slab cache m =
    if ltb ptr (m (s_mem slab)) || m (obj_size cache) == 0
    then panic
    else put_index slab ((ptr - m (s_mem slab)) / m (obj_size cache)) m

-- A slab without a free object goes to the full slabs.
unfoldable pub settle_taken : ℕ → ℕ → Memory → Memory
unfolding list_add list_del
settle_taken slab cache m =
    if m (inuse slab) == m (num cache)
    then list_add slab (slabs_full cache) (list_del slab m)
    else m

-- A slab that was full becomes partial; one without used objects becomes free.
unfoldable pub settle_put : ℕ → ℕ → Memory → Memory
unfolding list_add list_del
settle_put slab cache m =
    if m (inuse slab) + 1 == m (num cache)
    then list_add slab (slabs_partial cache) (list_del slab m)
    else if m (inuse slab) == 0
    then list_add slab (slabs_free cache) (list_del slab m)
    else m

-- `init`, `get_or_create_cache`, `cache_grow`, `alloc` and `dealloc` go by the crate's addresses.
module _ (v : VirtAddrs) where
  unfoldable pub init : SlabAllocator → ℕ → ℕ → Run SlabAllocator
  init allocator heap_start heap_size = do
    next ← v.new heap_start
    stop ← (if ltb (heap_start + heap_size) (2 ^ 64) then v.new (heap_start + heap_size) else panic)
    done (record allocator { page_alloc = some (record { next = next; end = stop }) })

  -- `page_alloc.as_mut().unwrap().alloc_pages(1).expect(…)`.
  unfoldable pub fresh_page : SlabAllocator → Run (ℕ × SlabAllocator)
  unfolding alloc_pages
  fresh_page allocator = do
    pages ← unwrap allocator.page_alloc
    (page, pages') ← alloc_pages v pages 1
    address ← unwrap page
    done (address, record allocator { page_alloc = some pages' })

  unfoldable pub get_or_create_cache : SlabAllocator → ℕ → Memory → Run (ℕ × SlabAllocator × Memory)
  unfolding class_index fresh_page next_power_of_two write_cache
  get_or_create_cache allocator size m = do
    let idx = class_index size
    elim (size == 0) [
      | true ↦ panic
      | false ↦ do
        cache ← unwrap (get_elem? allocator.node_caches idx)
        elim (cache == null) [
          | false ↦ done (cache, allocator, m)
          | true ↦ do
            (page, allocator') ← fresh_page allocator
            power ← next_power_of_two (max size 8)
            done (
              page,
              record allocator' { node_caches = set allocator'.node_caches idx page },
              write_cache page power idx m,
            )
        ]
    ]

  unfoldable pub cache_grow : SlabAllocator → ℕ → Memory → Run (SlabAllocator × Memory)
  unfolding fresh_page write_slab
  cache_grow allocator cache m = do
    (slab, allocator') ← fresh_page allocator
    done (allocator', write_slab slab cache m)

  -- A slab with a free object: a partial one, or a free one, which becomes partial.
  unfoldable pub find_slab : SlabAllocator → ℕ → Memory → Run (ℕ × SlabAllocator × Memory)
  unfolding cache_grow list_add list_del list_empty
  find_slab allocator cache m = elim (list_empty (slabs_partial cache) m) [
    | false ↦ done (m (next_of (slabs_partial cache)), allocator, m)
    | true ↦ do
      (allocator', m1) ← elim (list_empty (slabs_free cache) m) [
        | true ↦ cache_grow allocator cache m
        | false ↦ done (allocator, m)
      ]
      let node = m1 (next_of (slabs_free cache))
      done (node, allocator', list_add node (slabs_partial cache) (list_del node m1))
  ]

  unfoldable pub alloc : SlabAllocator → Layout → Memory → Run (ℕ × SlabAllocator × Memory)
  unfolding alloc_pages get_or_create_cache find_slab take_object settle_taken
  alloc allocator layout m = elim (ltb max_slab_size layout.size) [
    | true ↦ do
      pages ← unwrap allocator.page_alloc
      (page, pages') ← alloc_pages v pages ((layout.size + page_size - 1) / page_size)
      done (
        elim page [ none ↦ null | some address ↦ address ],
        record allocator { page_alloc = some pages' },
        m,
      )
    | false ↦ do
      (cache, allocator1, m1) ← get_or_create_cache allocator layout.size m
      (slab, allocator2, m2) ← find_slab allocator1 cache m1
      let (obj, m3) = take_object slab cache m2
      done (obj, allocator2, settle_taken slab cache m3)
  ]

  unfoldable pub dealloc : SlabAllocator → ℕ → Layout → Memory → Run (SlabAllocator × Memory)
  unfolding get_or_create_cache slab_of put_object settle_put
  dealloc allocator ptr layout m = elim (ltb max_slab_size layout.size || ptr == null) [
    | true ↦ done (allocator, m)
    | false ↦ do
      (cache, allocator1, m1) ← get_or_create_cache allocator layout.size m
      m2 ← put_object ptr (slab_of ptr) cache m1
      done (allocator1, settle_put (slab_of ptr) cache m2)
  ]
